-- ===== src/Bp/Nmp/Unreachable.antt =====
-- A neighbor with no routes in src/bp/app/nmp.py, and what that does to bundles for it.
use dtn_demo_agent.Common.{
  ℕ, ◌≡◌, refl, sym, ap, ◌∙◌, subst, Bool, true, false, Option, none, some, List, [], ◌∷◌, ◌++◌,
  String, arith, eq_iff, ◌==◌, if◌then◌else◌, Bool-cases, inl, inr,
}
use dtn_demo_agent.Common.Exec.{
  Exec, Outcome, done, raised, final, continue, index_error, runtime_error, key_error,
}
use dtn_demo_agent.Bp.Bundle.{Bundle, PrimaryBlock, CanonicalBlock}
use dtn_demo_agent.Bp.Crc.{Crc}
use dtn_demo_agent.Bp.Container.{Container, block_num, same_source}
use dtn_demo_agent.Bp.Agent.Send.{
  Job, Via, Layers, send_bundle, tx_steps, choose_sender, finish_send,
}
use dtn_demo_agent.Bp.Agent.Send.Stages.{HasUnique, Unrouted, send_after}
use dtn_demo_agent.Bp.Nmp.{
  hello_type, ClDef, with_ctr, Msg, Neighbor, Nmp, Packages, node_get, node_update, with_neighbor,
  heard_of, is_heard, add_routes, see_peers, recv_hello, recv_msg, recv_btsd, recv_for,
  nmp_recv_bundle, nmp_tx_route,
}

-- A neighbor that has no routes
abbrev pub IsSilent : Option String → Nmp → Type 0
IsSilent k s = (v : Neighbor) × (node_get k s.one_hop ≡ some v) × (v.tx_routes ≡ [])

-- A call that raises RuntimeError, and sent nothing
abbrev pub Refused : List (Via × Bundle) → Outcome (Job Nmp) (Unit {0}) → Type 0
Refused sent (done u k) = ⊥
Refused sent (raised e k) = (e ≡ runtime_error) × (k.sent ≡ sent)

silent_step :
    (now : ℕ) (c : Container) (s : Nmp)
    → IsSilent c.bundle.primary.destination s
    → nmp_tx_route now (c, s) ≡ raised index_error (c, s)
unfolding nmp_tx_route
silent_step now c s (v, e, h) = rw (e, nmp_tx_route, h) refl

silent_chain :
    (now : ℕ) (chain : List (Exec (Container × Nmp) Bool)) (j : Job Nmp)
    → IsSilent j.ctr.bundle.primary.destination j.apps
    → tx_steps (nmp_tx_route now ∷ chain) j ≡ j
unfolding tx_steps
silent_chain now chain j h = ground (arith, silent_step now j.ctr j.apps h)

no_sender_lem :
    (layers : Layers) (j : Job Nmp)
    → j.ctr.route ≡ none
    → j.ctr.sender ≡ false
    → choose_sender layers j ≡ done none j
unfolding choose_sender
no_sender_lem layers j e f = ground (arith, e, f)

silent-Refused :
    (crc : Crc) (layers : Layers) (node_id n : String) (now : ℕ)
    (chain : List (Exec (Container × Nmp) Bool)) (j : Job Nmp)
    → HasUnique j.ctr
    → Unrouted n j.ctr
    → IsSilent (some n) j.apps
    → Refused j.sent (send_bundle crc layers node_id now (nmp_tx_route now ∷ chain) j)
unfolding finish_send
silent-Refused crc layers node_id n now chain j q u h =
    send_after crc layers node_id n now (nmp_tx_route now ∷ chain) j (Refused j.sent) q u (λ v w.
      let w' = w.unrouted in
      subst (λ t. Refused j.sent (continue (choose_sender layers t) (λ via. finish_send crc via)))
        (sym (
          silent_chain now chain v (
            subst (λ d. IsSilent d v.apps) (sym w'.to_node)
              (subst (λ a. IsSilent (some n) a) (sym w.same_apps) h))))
        (subst (λ o. Refused j.sent (continue o (λ via. finish_send crc via)))
          (sym (no_sender_lem layers v w'.no_route w'.no_sender)) (refl, w.so_far)))

get-update :
    (k : Option String) (f : Neighbor → Neighbor) (m : List (Option String × Neighbor))
    (v : Neighbor)
    → node_get k m ≡ some v
    → node_get k (node_update k f m) ≡ some (f v)
get-update k f [] v e = absurd (ground arith)
get-update k f ((j, u) ∷ m) v e = elim (Bool-cases (same_source j k)) [
  | inl p ↦ rw (p, p) (ap some (ap f (ground (arith, e, p))))
  | inr p ↦ rw (p, p) (get-update k f m v (rw p at e))
]

get-snoc :
    (n : String) (m : List (Option String × Neighbor)) (v : Neighbor)
    → node_get (some n) m ≡ none
    → node_get (some n) (m ++ (some n, v) ∷ []) ≡ some v
get-snoc n [] v e = rw ((eq_iff n n).1 refl) refl
get-snoc n ((j, u) ∷ m) v e = elim (Bool-cases (same_source j (some n))) [
  | inl p ↦ absurd (ground (arith, e, p))
  | inr p ↦ rw p (get-snoc n m v (rw p at e))
]

-- A change that gives no routes
abbrev KeepsRoutes : (Neighbor → Neighbor) → Type 0
KeepsRoutes f = (v : Neighbor) → (f v).tx_routes ≡ v.tx_routes

update-IsSilent :
    (k : Option String) (f : Neighbor → Neighbor) (s : Nmp)
    → KeepsRoutes f
    → IsSilent k s
    → IsSilent k (with_neighbor k f s)
unfolding with_neighbor
update-IsSilent k f s same (v, e, h) = (f v, get-update k f s.one_hop v e, same v ∙ h)

see_peers-KeepsRoutes :
    (own_id : String) (peerset : List (String × ℕ)) → KeepsRoutes (see_peers own_id peerset)
unfolding see_peers
see_peers-KeepsRoutes own_id [] v = refl
see_peers-KeepsRoutes own_id ((p, t) ∷ ps) v = see_peers-KeepsRoutes own_id ps _ ∙ ground arith

heard_of-IsSilent :
    (n : String) (s : Nmp)
    → node_get (some n) s.one_hop ≡ none
    → IsSilent (some n) (heard_of (some n) s)
unfolding heard_of
heard_of-IsSilent n s e =
    let fresh : Neighbor = record { valid_until = none; link_status = 0; tx_routes = [] } in
    (fresh, rw (e, heard_of) (get-snoc n s.one_hop fresh e), refl)

-- A HELLO with no convergence layers, from a node that is not known yet
pub record IsBare (packages : Packages) (n : String) (c : Container) (s : Nmp) : Type 0 where
  pub blk : CanonicalBlock
  pub octets : List ℕ
  pub msg : Msg
  pub for_us : recv_for c "dtn:~neighbor" ≡ true
  pub payload : block_num 1 c ≡ done blk c
  pub content : blk.btsd ≡ some octets
  pub reads : packages.loads octets ≡ some msg
  pub is_hello : msg.msg_type ≡ some 1
  pub no_layers : msg.clset ≡ []
  pub source : c.bundle.primary.source ≡ some n
  pub unknown : node_get (some n) s.one_hop ≡ none

bare_hello :
    (packages : Packages) (own_id : String) (k : Option String) (dtntime : ℕ) (msg : Msg) (s : Nmp)
    → msg.clset ≡ []
    → recv_hello packages own_id k dtntime msg s
      ≡ done tt (
          with_neighbor k
            (see_peers own_id msg.peerset)
            (with_neighbor k (is_heard msg.validity_time dtntime) (heard_of k s)))
unfolding recv_hello add_routes
bare_hello packages own_id k dtntime msg s e =
    ap
      (λ (l : List ClDef).
        continue
          (add_routes packages k none l
            (with_neighbor k (is_heard msg.validity_time dtntime) (heard_of k s)))
          (λ _ t. done tt (with_neighbor k (see_peers own_id msg.peerset) t)))
      e

bare_msg :
    (packages : Packages) (own_id : String) (pri : PrimaryBlock) (msg : Msg) (s : Nmp)
    → msg.msg_type ≡ some 1
    → recv_msg packages own_id pri msg s ≡ recv_hello packages own_id pri.source pri.dtntime msg s
unfolding recv_msg
bare_msg packages own_id pri msg s e =
    ap
      (λ (o : Option ℕ). elim o [
        | none ↦ raised key_error s
        | some t ↦
            if t == hello_type
            then recv_hello packages own_id pri.source pri.dtntime msg s
            else done tt s
      ])
      e

bare_btsd :
    (packages : Packages) (own_id : String) (pri : PrimaryBlock) (octets : List ℕ) (msg : Msg)
    (s : Nmp)
    → packages.loads octets ≡ some msg
    → recv_btsd packages own_id pri (some octets) s ≡ recv_msg packages own_id pri msg s
unfolding recv_btsd
bare_btsd packages own_id pri octets msg s e = rw (e, recv_btsd) refl

bare_recv :
    (packages : Packages) (own_id : String) (blk : CanonicalBlock) (c : Container) (s : Nmp)
    → recv_for c "dtn:~neighbor" ≡ true
    → block_num 1 c ≡ done blk c
    → nmp_recv_bundle packages own_id (c, s)
      ≡ with_ctr c (recv_btsd packages own_id c.bundle.primary blk.btsd s)
unfolding nmp_recv_bundle
bare_recv packages own_id blk c s e f = rw (e, nmp_recv_bundle, f) refl

recv-IsSilent :
    (packages : Packages) (own_id n : String) (c : Container) (s : Nmp)
    → IsBare packages n c s
    → IsSilent (some n) (final (nmp_recv_bundle packages own_id (c, s))).1
recv-IsSilent packages own_id n c s h =
    let pri = c.bundle.primary in
    let a = heard_of-IsSilent n s h.unknown in
    let b =
      update-IsSilent (some n) (is_heard h.msg.validity_time pri.dtntime) (heard_of (some n) s)
        (λ v. refl) a in
    subst (λ (o : Outcome (Container × Nmp) Bool). IsSilent (some n) (final o).1)
      (sym (
        bare_recv packages own_id h.blk c s h.for_us h.payload
        ∙ ap (λ o. with_ctr c (recv_btsd packages own_id pri o s)) h.content
        ∙ ap (with_ctr c) (
            bare_btsd packages own_id pri h.octets h.msg s h.reads
            ∙ bare_msg packages own_id pri h.msg s h.is_hello
            ∙ bare_hello packages own_id pri.source pri.dtntime h.msg s h.no_layers
            ∙ ap
                (λ k. done tt (
                  with_neighbor k (see_peers own_id h.msg.peerset)
                    (with_neighbor k (is_heard h.msg.validity_time pri.dtntime) (heard_of k s))))
                h.source)))
      (update-IsSilent (some n) (see_peers own_id h.msg.peerset) _
        (see_peers-KeepsRoutes own_id h.msg.peerset) b)

-- A HELLO that names no convergence layers cuts its sender off: once it is received, from a node that was not
-- known, `send_bundle` raises RuntimeError for each bundle for that node, which has distinct block numbers and
-- no route yet, and sends nothing, whatever steps follow `_tx_route` in the chain.
pub bare_hello-Refused :
    (packages : Packages) (own_id n : String) (c : Container) (s : Nmp) (crc : Crc)
    (layers : Layers) (now : ℕ) (chain : List (Exec (Container × Nmp) Bool)) (j : Job Nmp)
    → IsBare packages n c s
    → HasUnique j.ctr
    → Unrouted n j.ctr
    → j.apps ≡ (final (nmp_recv_bundle packages own_id (c, s))).1
    → Refused j.sent (send_bundle crc layers own_id now (nmp_tx_route now ∷ chain) j)
bare_hello-Refused packages own_id n c s crc layers now chain j h q u e =
    silent-Refused crc layers own_id n now chain j q u
      (subst (λ a. IsSilent (some n) a) (sym e) (recv-IsSilent packages own_id n c s h))
