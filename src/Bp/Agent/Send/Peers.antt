-- ===== src/Bp/Agent/Send/Peers.antt =====
-- How src/bp/agent.py sends a bundle to a peer that was seen.
use dtn_demo_agent.Common.{
  ℕ, ◌≡◌, refl, sym, subst, ap, ◌∙◌, Bool, true, false, none, some, List, [], ◌∷◌, ◌++◌, String,
  arith, ◌&&◌,
}
use dtn_demo_agent.Common.Exec.{Exec, done, continue}
use dtn_demo_agent.Bp.Bundle.{Bundle, update_from_admin}
use dtn_demo_agent.Bp.Crc.{Crc, update_all_crc, update_primary_crc}
use dtn_demo_agent.Bp.Container.{Container, Route}
use dtn_demo_agent.Bp.Agent.Send.{
  escaped_start, Matcher, TxRouteItem, do_tx_step, peer_node_seen, chain_step, Via, by_route, Job,
  Layers, on_ctr, number_and_fill, tx_steps, choose_sender, finish_send, send_bundle,
}
use dtn_demo_agent.Bp.Agent.Send.Routes.{Passed, tx_route_first}
use dtn_demo_agent.Bp.Agent.Send.Stages.{
  Unrouted, Leaves, returns, continue-Leaves, Serves, Same, number_and_fill-Same, in_job-Leaves,
  HasUnique, Waiting, send_after,
}

module _ {X : Type 0} where
  -- A job whose bundle has its route
  record Routed (n : String) (sent : List (Via × Bundle)) (r : Route) (j : Job X) : Type 0 where
    its_route : j.ctr.route ≡ some r
    its_sender : j.ctr.sender ≡ false
    its_node : j.ctr.bundle.primary.destination ≡ some n
    before_it : j.sent ≡ sent

  tx_steps_lem :
      (m : Exec Container Bool) (j : Job X) (d : Container)
      → m j.ctr ≡ done false d
      → tx_steps (chain_step m ∷ []) j ≡ record j { ctr = d }
  unfolding tx_steps
  tx_steps_lem m j d e = ground (arith, e)

  step-Routed :
      (match_at : Matcher) (n : String) (before : List TxRouteItem) (r : TxRouteItem)
      (after : List TxRouteItem) (sent : List (Via × Bundle)) (apps : X) (j : Job X)
      → Passed match_at n before
      → match_at r.eid_pattern n ≡ true
      → Waiting n sent apps j
      → Routed n sent r.route
          (tx_steps (chain_step (do_tx_step match_at (before ++ r ∷ after)) ∷ []) j)
  step-Routed match_at n before r after sent apps j p m w =
      let u = w.unrouted in
      subst (λ t. Routed n sent r.route t)
        (sym (
          tx_steps_lem (do_tx_step match_at (before ++ r ∷ after)) j _
            (tx_route_first match_at n before r after j.ctr u.no_route u.to_node p m)))
        (record {
          its_route = refl;
          its_sender = u.no_sender;
          its_node = u.to_node;
          before_it = w.so_far;
        })

  -- One bundle for the node was given to the sender of a layer.
  abbrev pub SentTo : String → List (Via × Bundle) → Via → Job X → Type 0
  SentTo n sent via k =
      (b : Bundle) × (k.sent ≡ sent ++ (via, b) ∷ []) × (b.primary.destination ≡ some n)

  finish-SentTo :
      (crc : Crc) (n : String) (sent : List (Via × Bundle)) (via : Via) (j : Job X)
      → j.sent ≡ sent
      → j.ctr.bundle.primary.destination ≡ some n
      → Leaves (SentTo n sent via) (finish_send crc (some via) j)
  unfolding finish_send update_all_crc update_from_admin update_primary_crc
  finish-SentTo crc n sent via j h d =
      continue-Leaves (λ k. (k.sent ≡ sent) × (k.ctr.bundle.primary.destination ≡ some n))
        (SentTo n sent via) (on_ctr number_and_fill j) _
        (in_job-Leaves (Same j.ctr) _ j (number_and_fill j.ctr) (number_and_fill-Same j.ctr)
          (λ c s. (h, s.same_node ∙ d)))
        (λ _ k (q, e). (
          update_all_crc crc k.ctr.bundle,
          ap (λ l. l ++ (via, update_all_crc crc k.ctr.bundle) ∷ []) q,
          e,
        ))

  choose_sender_lem :
      (layers : Layers) (r : Route) (j : Job X)
      → Serves layers r
      → j.ctr.route ≡ some r
      → j.ctr.sender ≡ false
      → choose_sender layers j
        ≡ done
            (some (by_route r.cl_type r.raw_config))
            (record j { ctr = record (j.ctr) { sender = true } })
  unfolding choose_sender
  choose_sender_lem layers r j s e f = ground (arith, s, e, f)

  choose-SentTo :
      (crc : Crc) (layers : Layers) (n : String) (sent : List (Via × Bundle)) (r : Route)
      (j : Job X)
      → Serves layers r
      → Routed n sent r j
      → Leaves
          (SentTo n sent (by_route r.cl_type r.raw_config))
          (continue (choose_sender layers j) (λ via. finish_send crc via))
  choose-SentTo crc layers n sent r j s h =
      subst
        (λ o.
          Leaves (SentTo n sent (by_route r.cl_type r.raw_config))
            (continue o (λ via. finish_send crc via)))
        (sym (choose_sender_lem layers r j s h.its_route h.its_sender))
        (finish-SentTo crc n sent (by_route r.cl_type r.raw_config) _ h.before_it h.its_node)

  send-SentTo :
      (crc : Crc) (layers : Layers) (match_at : Matcher) (node_id n : String) (now : ℕ)
      (before : List TxRouteItem) (r : TxRouteItem) (after : List TxRouteItem) (j : Job X)
      → HasUnique j.ctr
      → Unrouted n j.ctr
      → Passed match_at n before
      → match_at r.eid_pattern n ≡ true
      → Serves layers r.route
      → Leaves (SentTo n j.sent (by_route r.route.cl_type r.route.raw_config)) (
          send_bundle crc layers node_id now
            (chain_step (do_tx_step match_at (before ++ r ∷ after)) ∷ [])
            j)
  send-SentTo crc layers match_at node_id n now before r after j q u p m s =
      send_after crc layers node_id n now _ j
        (Leaves (SentTo n j.sent (by_route r.route.cl_type r.route.raw_config))) q u
        (λ v x.
          choose-SentTo crc layers n j.sent r.route _ s
            (step-Routed match_at n before r after j.sent j.apps v p m x))

  -- A peer that was seen gets its bundles: of a bundle for the node, which no configured route takes and
  -- which has distinct block numbers, `send_bundle` with static routing returns, and the bundle, whose
  -- destination is still the node, was given to the convergence layer that saw the peer, with the parameters
  -- of the peer. The pattern of the peer has to match the node, and the layer to be attached.
  pub peer_bundle_sent :
      (crc : Crc) (layers : Layers) (match_at : Matcher) (node_id n cltype : String)
      (tx_params now : ℕ) (table : List TxRouteItem) (j : Job X)
      → HasUnique j.ctr
      → Unrouted n j.ctr
      → Passed match_at n table
      → match_at (escaped_start n) n ≡ true
      → (layers.attached cltype && layers.takes cltype tx_params) ≡ true
      → (k : Job X) × (send_bundle crc layers node_id now
            (chain_step (do_tx_step match_at (peer_node_seen cltype n tx_params table)) ∷ [])
            j
          ≡ done tt k)
        × SentTo n j.sent (by_route cltype tx_params) k
  unfolding peer_node_seen
  peer_bundle_sent crc layers match_at node_id n cltype tx_params now table j q u p m s =
      returns _ _ (
        send-SentTo crc layers match_at node_id n now table
          (record {
            eid_pattern = escaped_start n;
            route = record {
              next_nodeid = n;
              cl_type = cltype;
              mtu = none;
              raw_config = tx_params;
            };
          })
          [] j q u p m s)
