-- ===== src/Bp/Nmp/First.antt =====
-- What changes of a neighbor in src/bp/app/nmp.py leave its first route.
use dtn_demo_agent.Common.{
  ℕ, ◌≡◌, refl, sym, subst, Bool, true, false, Option, some, List, [], ◌∷◌, ◌++◌, String, arith,
  if◌then◌else◌, Bool-cases, inl, inr,
}
use dtn_demo_agent.Bp.Container.{Route, same_source}
use dtn_demo_agent.Bp.Nmp.{Neighbor, Nmp, node_get, node_update, add_route, see_peers, symmetric}

-- A neighbor whose first route is this one
abbrev pub StartsWith : Route → List Route → Type 0
StartsWith r [] = ⊥
StartsWith r (q ∷ qs) = q ≡ r

abbrev pub FirstRoute : Option String → Route → Nmp → Type 0
FirstRoute k r s = (v : Neighbor) × (node_get k s.one_hop ≡ some v) × StartsWith r v.tx_routes

-- A change of a neighbor that leaves its first route
abbrev pub Stays : (Neighbor → Neighbor) → Type 0
Stays f = (v : Neighbor) (r : Route) → StartsWith r v.tx_routes → StartsWith r (f v).tx_routes

pub update-First :
    (k j : Option String) (r : Route) (f : Neighbor → Neighbor)
    (m : List (Option String × Neighbor)) (v : Neighbor)
    → Stays f
    → node_get k m ≡ some v
    → StartsWith r v.tx_routes
    → (w : Neighbor) × (node_get k (node_update j f m) ≡ some w) × StartsWith r w.tx_routes
update-First k j r f [] v st e h = absurd (ground arith)
update-First k j r f ((i, u) ∷ m) v st e h = elim (Bool-cases (same_source i k)) [
  | inl p ↦
      let q : u ≡ v = ground (arith, e, p) in
      let h' : StartsWith r u.tx_routes = subst (λ x. StartsWith r x.tx_routes) (sym q) h in
      elim (Bool-cases (same_source i j)) [
        | inl t ↦ (f u, rw (t, p) refl, st u r h')
        | inr t ↦ (u, rw (t, p) refl, h')
      ]
  | inr p ↦
      let (w, g, l) = update-First k j r f m v st (rw p at e) h in
      elim (Bool-cases (same_source i j)) [
        | inl t ↦ (v, rw (t, p) (rw p at e), h)
        | inr t ↦ (w, rw (t, p) g, l)
      ]
]

pub get-append :
    (k : Option String) (m n : List (Option String × Neighbor)) (v : Neighbor)
    → node_get k m ≡ some v
    → node_get k (m ++ n) ≡ some v
get-append k [] n v e = absurd (ground arith)
get-append k ((j, u) ∷ m) n v e = ground (arith, get-append k m n v)

append_route-StartsWith :
    (r q : Route) (l : List Route) → StartsWith r l → StartsWith r (l ++ q ∷ [])
append_route-StartsWith r q [] h = absurd h
append_route-StartsWith r q (x ∷ xs) h = h

pub add_route-Stays : (q : Route) → Stays (add_route q)
add_route-Stays q v r h = append_route-StartsWith r q v.tx_routes h

symmetric_if :
    (b : Bool) (v : Neighbor) (r : Route)
    → StartsWith r v.tx_routes
    → StartsWith r (if b then record v { link_status = symmetric } else v).tx_routes
symmetric_if true v r h = h
symmetric_if false v r h = h

pub see_peers-Stays :
    (own_id : String) (peerset : List (String × ℕ)) → Stays (see_peers own_id peerset)
unfolding see_peers
see_peers-Stays own_id [] v r h = h
see_peers-Stays own_id ((p, t) ∷ ps) v r h = see_peers-Stays own_id ps _ r (symmetric_if _ v r h)
