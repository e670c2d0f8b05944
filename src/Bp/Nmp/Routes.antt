-- ===== src/Bp/Nmp/Routes.antt =====
-- The routes that src/bp/app/nmp.py takes for its neighbors.
use dtn_demo_agent.Common.{
  ℕ, ◌≡◌, refl, sym, ap, subst, Bool, false, Option, none, some, List, [], ◌∷◌, String, arith, ◌==◌,
  Bool-cases, Option-cases, inl, inr, ◌⊎◌,
}
use dtn_demo_agent.Common.Exec.{Exn, Outcome, done, raised, final, modify, index_error}
use dtn_demo_agent.Common.Exec.Keeps.{Keeps, Keeps-bind, Keeps-modify, continue-Keeps}
use dtn_demo_agent.Bp.Bundle.{PrimaryBlock}
use dtn_demo_agent.Bp.Container.{Container, Route, block_num, deliver}
use dtn_demo_agent.Bp.Agent.{record_action}
use dtn_demo_agent.Bp.Nmp.{
  ClDef, Msg, Neighbor, Nmp, Packages, node_get, with_neighbor, heard_of, is_heard, add_route,
  def_route, add_routes, see_peers, recv_hello, recv_msg, recv_btsd, with_ctr, recv_for,
  nmp_recv_bundle, nmp_tx_route, hello_type,
}
use dtn_demo_agent.Bp.Nmp.First.{
  StartsWith, FirstRoute, Stays, update-First, get-append, add_route-Stays, see_peers-Stays,
}

Outcome-cases :
    {S A : Type 0} (o : Outcome S A)
    → ((a : A) × (s : S) × (o ≡ done a s)) ⊎ ((e : Exn) × (s : S) × (o ≡ raised e s))
Outcome-cases (done a s) = inl (a, s, refl)
Outcome-cases (raised e s) = inr (e, s, refl)

module _ (k : Option String) (r : Route) where
  update-Keeps :
      (j : Option String) (f : Neighbor → Neighbor)
      → Stays f
      → Keeps (FirstRoute k r) (modify (with_neighbor j f))
  unfolding with_neighbor
  update-Keeps j f st =
      Keeps-modify (with_neighbor j f) (λ s (v, e, h). update-First k j r f s.one_hop v st e h)

  heard_of-Keeps : (j : Option String) → Keeps (FirstRoute k r) (modify (heard_of j))
  unfolding heard_of
  heard_of-Keeps j = Keeps-modify (heard_of j) (λ s (v, e, h).
      elim (Option-cases (node_get j s.one_hop)) [
        | inl f ↦ (v, rw (f, heard_of) (get-append k s.one_hop _ v e), h)
        | inr (w, f) ↦ (v, rw (f, heard_of) e, h)
      ])

  def_route-same :
      (packages : Packages) (j : Option String) (q : Option Route) (d : ClDef) (s : Nmp)
      → final (def_route packages j q d s) ≡ s
  unfolding def_route
  def_route-same packages j q d s = ground arith

  def_route-Keeps :
      (packages : Packages) (j : Option String) (q : Option Route) (d : ClDef)
      → Keeps (FirstRoute k r) (def_route packages j q d)
  def_route-Keeps packages j q d = record {
    at = λ s h. subst (FirstRoute k r) (sym (def_route-same packages j q d s)) h;
  }

  add_routes-Keeps :
      (packages : Packages) (j : Option String) (q : Option Route) (clset : List ClDef)
      → Keeps (FirstRoute k r) (add_routes packages j q clset)
  unfolding add_routes
  add_routes-Keeps packages j q [] = record { at = λ s h. h }
  add_routes-Keeps packages j q (d ∷ ds) = record {
    at = λ s h.
        continue-Keeps (def_route packages j q d s) _ ((def_route-Keeps packages j q d).at s h)
          (λ a. record {
            at = λ t g.
                (add_routes-Keeps packages j (some a) ds).at (with_neighbor j (add_route a) t)
                  ((update-Keeps j (add_route a) (add_route-Stays a)).at t g);
          });
  }

  recv_hello-Keeps :
      (packages : Packages) (own_id : String) (j : Option String) (dtntime : ℕ) (msg : Msg)
      → Keeps (FirstRoute k r) (recv_hello packages own_id j dtntime msg)
  unfolding recv_hello
  recv_hello-Keeps packages own_id j dtntime msg =
      Keeps-bind
        (Keeps-bind
          (Keeps-bind (heard_of-Keeps j)
            (λ _. update-Keeps j (is_heard msg.validity_time dtntime) (λ v q h. h)))
          (λ _. add_routes-Keeps packages j none msg.clset))
        (λ _. update-Keeps j (see_peers own_id msg.peerset) (see_peers-Stays own_id msg.peerset))

  recv_msg-Keeps :
      (packages : Packages) (own_id : String) (pri : PrimaryBlock) (msg : Msg)
      → Keeps (FirstRoute k r) (recv_msg packages own_id pri msg)
  unfolding recv_msg
  recv_msg-Keeps packages own_id pri msg = record {
    at = λ s h. elim (Option-cases msg.msg_type) [
      | inl e ↦ rw (e, recv_msg) h
      | inr (t, e) ↦ elim (Bool-cases (t == hello_type)) [
        | inl f ↦
            rw (e, recv_msg, f)
              ((recv_hello-Keeps packages own_id pri.source pri.dtntime msg).at s h)
        | inr f ↦ rw (e, recv_msg, f) h
      ]
    ];
  }

  recv_btsd-Keeps :
      (packages : Packages) (own_id : String) (pri : PrimaryBlock) (o : Option (List ℕ))
      → Keeps (FirstRoute k r) (recv_btsd packages own_id pri o)
  unfolding recv_btsd
  recv_btsd-Keeps packages own_id pri none = record { at = λ s h. h }
  recv_btsd-Keeps packages own_id pri (some xs) = record {
    at = λ s h. elim (Option-cases (packages.loads xs)) [
      | inl e ↦ rw (e, recv_btsd) h
      | inr (m, e) ↦ rw (e, recv_btsd) ((recv_msg-Keeps packages own_id pri m).at s h)
    ];
  }

  with_ctr-First :
      (c : Container) (o : Outcome Nmp (Unit {0}))
      → FirstRoute k r (final o)
      → FirstRoute k r (final (with_ctr c o)).1
  with_ctr-First c (done _ s) h = h
  with_ctr-First c (raised e s) h = h

  recv-First :
      (packages : Packages) (own_id : String) (c : Container) (s : Nmp)
      → FirstRoute k r s
      → FirstRoute k r (final (nmp_recv_bundle packages own_id (c, s))).1
  unfolding nmp_recv_bundle
  recv-First packages own_id c s h = elim (Bool-cases (recv_for c "dtn:~neighbor")) [
    | inr e ↦ rw (e, nmp_recv_bundle) h
    | inl e ↦ elim (Outcome-cases (block_num 1 c)) [
      | inr (x, d, f) ↦ rw (e, nmp_recv_bundle, f) h
      | inl (blk, d, f) ↦
          rw (e, nmp_recv_bundle, f)
            (with_ctr-First c (recv_btsd packages own_id c.bundle.primary blk.btsd s)
              ((recv_btsd-Keeps packages own_id c.bundle.primary blk.btsd).at s h))
    ]
  ]

-- Bundles that come in one after the other
abbrev pub recv_all : Packages → String → List Container → Nmp → Nmp
recv_all packages own_id [] s = s
recv_all packages own_id (c ∷ cs) s =
    recv_all packages own_id cs (final (nmp_recv_bundle packages own_id (c, s))).1

recv_all-First :
    (k : Option String) (r : Route) (packages : Packages) (own_id : String) (cs : List Container)
    (s : Nmp)
    → FirstRoute k r s
    → FirstRoute k r (recv_all packages own_id cs s)
recv_all-First k r packages own_id [] s h = h
recv_all-First k r packages own_id (c ∷ cs) s h =
    recv_all-First k r packages own_id cs _ (recv-First k r packages own_id c s h)

tx_route_lem :
    (now : ℕ) (c : Container) (r : Route) (s : Nmp)
    → FirstRoute c.bundle.primary.destination r s
    → nmp_tx_route now (c, s)
      ≡ done false (record_action deliver now none (record c { route = some r }), s)
unfolding nmp_tx_route
tx_route_lem now c r s (v, e, h) = rw (e, nmp_tx_route) (tx v.tx_routes h)
  where
    tx :
        (l : List Route)
        → StartsWith r l
        → ◌≡◌ {A = Outcome (Container × Nmp) Bool}
            (elim l [
              | [] ↦ raised index_error (c, s)
              | q ∷ qs ↦
                  done false (record_action deliver now none (record c { route = some q }), s)
            ])
            (done false (record_action deliver now none (record c { route = some r }), s))
    tx [] h = absurd h
    tx (q ∷ qs) h =
        ap (λ x. done false (record_action deliver now none (record c { route = some x }), s)) h

-- The route that a neighbor has first is the one that each bundle to it takes: whatever bundles
-- come in after it, from the neighbor or from others, valid messages or not, `_tx_route` gives it to a bundle
-- for the neighbor, and marks that bundle as delivered.
pub nmp_tx_route-recv_all :
    (packages : Packages) (own_id : String) (cs : List Container) (now : ℕ) (c : Container)
    (r : Route) (s : Nmp)
    → FirstRoute c.bundle.primary.destination r s
    → (let t = recv_all packages own_id cs s in
        nmp_tx_route now (c, t)
        ≡ done false (record_action deliver now none (record c { route = some r }), t))
nmp_tx_route-recv_all packages own_id cs now c r s h =
    tx_route_lem now c r _ (recv_all-First c.bundle.primary.destination r packages own_id cs s h)
