-- ===== src/Bp/Agent/Send/Stages.antt =====
-- `send_bundle` of src/bp/agent.py up to its chain, for a bundle that has no route yet.
use dtn_demo_agent.Common.{
  ℕ, ◌≡◌, refl, ◌∙◌, Bool, true, false, none, some, List, [], ◌∷◌, String, arith, ◌&&◌,
}
use dtn_demo_agent.Common.Exec.{Exec, Outcome, done, raised, continue}
use dtn_demo_agent.Bp.Bundle.{Bundle, fill_fields, update_from_admin}
use dtn_demo_agent.Bp.Crc.{Crc}
use dtn_demo_agent.Bp.Container.{Container, Route, reload, reload_blocks}
use dtn_demo_agent.Bp.Agent.Send.{
  Via, Job, Layers, apply_primary, default_primary, in_job, on_ctr, renumber, number_and_fill, fill,
  tx_steps, choose_sender, finish_send, send_bundle,
}
use dtn_demo_agent.Bp.Agent.Send.Outcomes.{fix_block_num-Numbered, apply_primary-sent}

-- A bundle for a node, with no route and no sender yet
pub record Unrouted (n : String) (c : Container) : Type 0 where
  pub no_route : c.route ≡ none
  pub no_sender : c.sender ≡ false
  pub to_node : c.bundle.primary.destination ≡ some n

-- What a call that returns leaves; it does return.
abbrev pub Leaves : {S A : Type 0} → (S → Type 0) → Outcome S A → Type 0
Leaves P (done a s) = P s
Leaves P (raised e s) = ⊥

pub returns :
    {S : Type 0} (P : S → Type 0) (o : Outcome S (Unit {0}))
    → Leaves P o
    → (s : S) × (o ≡ done tt s) × P s
returns P (done _ s) h = (s, refl, h)
returns P (raised e s) h = elim h [ ]

continue-Into :
    {S A B : Type 0} (P : S → Type 0) (Q : Outcome S B → Type 0) (o : Outcome S A)
    (f : A → Exec S B)
    → Leaves P o
    → ((a : A) (s : S) → P s → Q (f a s))
    → Q (continue o f)
continue-Into P Q (done a s) f h g = g a s h
continue-Into P Q (raised e s) f h g = elim h [ ]

pub continue-Leaves :
    {S A B : Type 0} (P Q : S → Type 0) (o : Outcome S A) (f : A → Exec S B)
    → Leaves P o
    → ((a : A) (s : S) → P s → Leaves Q (f a s))
    → Leaves Q (continue o f)
continue-Leaves P Q (done a s) f h g = g a s h
continue-Leaves P Q (raised e s) f h g = elim h [ ]

-- A layer that is attached takes what is for a route.
abbrev pub Serves : Layers → Route → Type 0
Serves layers r = (layers.attached r.cl_type && layers.takes r.cl_type r.raw_config) ≡ true

-- What numbering and filling leave as it is
pub record Same (c d : Container) : Type 0 where
  pub same_route : d.route ≡ c.route
  pub same_sender : d.sender ≡ c.sender
  pub same_node : d.bundle.primary.destination ≡ c.bundle.primary.destination

renumber-Same : (c : Container) → Leaves (Same c) (renumber c)
unfolding renumber
renumber-Same c =
    let (r, e, h) = fix_block_num-Numbered c.last_block_num c.block_nums c.bundle.blocks in
    rw (e, renumber) (record { same_route = refl; same_sender = refl; same_node = refl })

fill-Same : (c d : Container) → Same c d → Same c (fill d)
unfolding fill_fields update_from_admin
fill-Same c d h = record {
  same_route = h.same_route;
  same_sender = h.same_sender;
  same_node = h.same_node;
}

pub number_and_fill-Same : (c : Container) → Leaves (Same c) (number_and_fill c)
unfolding number_and_fill
number_and_fill-Same c =
    continue-Leaves (Same c) (Same c) (renumber c) _ (renumber-Same c) (λ _ d h. fill-Same c d h)

Same-Unrouted : {n : String} {c d : Container} → Same c d → Unrouted n c → Unrouted n d
Same-Unrouted h u = record {
  no_route = h.same_route ∙ u.no_route;
  no_sender = h.same_sender ∙ u.no_sender;
  to_node = h.same_node ∙ u.to_node;
}

-- `reload` finds each number once.
abbrev pub HasUnique : Container → Type 0
HasUnique c = (reload_blocks (0 ∷ []) c.bundle.blocks).0 ≡ true

reload-Same : (c : Container) → HasUnique c → Leaves (Same c) (reload c)
unfolding reload
reload-Same c h =
    rw (h, reload) (record { same_route = refl; same_sender = refl; same_node = refl })

module _ {X : Type 0} where
  pub in_job-Leaves :
      (P : Container → Type 0) (Q : Job X → Type 0) (j : Job X) (o : Outcome Container (Unit {0}))
      → Leaves P o
      → ((c : Container) → P c → Q (record j { ctr = c }))
      → Leaves Q (in_job j o)
  in_job-Leaves P Q j (done _ c) h g = g c h
  in_job-Leaves P Q j (raised e c) h g = elim h [ ]

  apply_primary-Same :
      (node_id : String) (now : ℕ) (j : Job X) → Same j.ctr (apply_primary node_id now j).ctr
  unfolding apply_primary default_primary
  apply_primary-Same node_id now j = record {
    same_route = ground arith;
    same_sender = ground arith;
    same_node = ground arith;
  }

  apply_primary-apps :
      (node_id : String) (now : ℕ) (j : Job X) → (apply_primary node_id now j).apps ≡ j.apps
  unfolding apply_primary
  apply_primary-apps node_id now j = ground arith

  -- A job to send to a node, with what was sent before
  pub record Waiting (n : String) (sent : List (Via × Bundle)) (apps : X) (j : Job X) : Type 0 where
    pub unrouted : Unrouted n j.ctr
    pub so_far : j.sent ≡ sent
    pub same_apps : j.apps ≡ apps

  ctr-Waiting :
      (n : String) (sent : List (Via × Bundle)) (apps : X) (j : Job X)
      (m : Exec Container (Unit {0}))
      → Leaves (Same j.ctr) (m j.ctr)
      → Waiting n sent apps j
      → Leaves (Waiting n sent apps) (on_ctr m j)
  ctr-Waiting n sent apps j m l w =
      in_job-Leaves (Same j.ctr) (Waiting n sent apps) j (m j.ctr) l (λ c s. record {
        unrouted = Same-Unrouted s w.unrouted;
        so_far = w.so_far;
        same_apps = w.same_apps;
      })

  apply_primary-Waiting :
      (n node_id : String) (now : ℕ) (sent : List (Via × Bundle)) (apps : X) (j : Job X)
      → Waiting n sent apps j
      → Waiting n sent apps (apply_primary node_id now j)
  apply_primary-Waiting n node_id now sent apps j w = record {
    unrouted = Same-Unrouted (apply_primary-Same node_id now j) w.unrouted;
    so_far = apply_primary-sent node_id now j ∙ w.so_far;
    same_apps = apply_primary-apps node_id now j ∙ w.same_apps;
  }

  -- What comes before the chain returns for a bundle with distinct block numbers, and leaves its
  -- destination, its lack of a route, and the applications.
  pub send_after :
      (crc : Crc) (layers : Layers) (node_id n : String) (now : ℕ)
      (chain : List (Exec (Container × X) Bool)) (j : Job X)
      (Q : Outcome (Job X) (Unit {0}) → Type 0)
      → HasUnique j.ctr
      → Unrouted n j.ctr
      → ((v : Job X)
          → Waiting n j.sent j.apps v
          → Q (continue (choose_sender layers (tx_steps chain v)) (λ via. finish_send crc via)))
      → Q (send_bundle crc layers node_id now chain j)
  unfolding send_bundle
  send_after crc layers node_id n now chain j Q q u g =
      let W = Waiting n j.sent j.apps in
      continue-Into W Q (on_ctr reload j) _
        (ctr-Waiting n j.sent j.apps j reload (reload-Same j.ctr q)
          (record { unrouted = u; so_far = refl; same_apps = refl }))
        (λ _ k w.
          let t = apply_primary node_id now k in
          continue-Into W Q (on_ctr number_and_fill t) _
            (ctr-Waiting n j.sent j.apps t number_and_fill (number_and_fill-Same t.ctr)
              (apply_primary-Waiting n node_id now j.sent j.apps k w))
            (λ _ v x. g v x))
