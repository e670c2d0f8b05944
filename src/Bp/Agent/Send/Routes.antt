-- ===== src/Bp/Agent/Send/Routes.antt =====
-- Static routes of src/bp/agent.py.
use dtn_demo_agent.Common.{
  ◌≡◌, refl, true, false, none, some, List, [], ◌∷◌, ◌++◌, String, arith, All,
}
use dtn_demo_agent.Common.Exec.{done}
use dtn_demo_agent.Bp.Container.{Container}
use dtn_demo_agent.Bp.Agent.Send.{Matcher, TxRouteItem, find_tx, do_tx_step}

-- None of the items matches.
abbrev pub Passed : Matcher → String → List TxRouteItem → Type 0
Passed match_at eid table = All (λ r. match_at r.eid_pattern eid ≡ false) table

find-first :
    (match_at : Matcher) (eid : String) (before : List TxRouteItem) (r : TxRouteItem)
    (after : List TxRouteItem)
    → Passed match_at eid before
    → match_at r.eid_pattern eid ≡ true
    → find_tx match_at eid (before ++ r ∷ after) ≡ some r
unfolding find_tx
find-first match_at eid [] r after h m = rw (m, find_tx) refl
find-first match_at eid (x ∷ xs) r after (p, ps) m =
    rw (p, find_tx) (find-first match_at eid xs r after ps m)

-- A bundle with no route yet gets the first route whose pattern matches its destination, whatever
-- follows in the table; so a peer that is seen later takes no bundle from a route before it.
pub tx_route_first :
    (match_at : Matcher) (eid : String) (before : List TxRouteItem) (r : TxRouteItem)
    (after : List TxRouteItem) (c : Container)
    → c.route ≡ none
    → c.bundle.primary.destination ≡ some eid
    → Passed match_at eid before
    → match_at r.eid_pattern eid ≡ true
    → do_tx_step match_at (before ++ r ∷ after) c ≡ done false (record c { route = some r.route })
unfolding do_tx_step
tx_route_first match_at eid before r after c h d p m =
    ground (arith, h, d, find-first match_at eid before r after p m)
