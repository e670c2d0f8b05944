-- ===== src/Udpcl/Idle/Order.antt =====
-- The queue of src/udpcl/agent.py, sent from its first item to its last.
use dtn_demo_agent.Common.{
  ℕ, ◌≡◌, refl, sym, ap, ◌∙◌, subst, Bool, true, false, not, List, [], ◌∷◌, ◌++◌, append-nil,
  append_assoc, arith, length, is_empty,
}
use dtn_demo_agent.Common.Exec.{Outcome, done, raised, final}
use dtn_demo_agent.Udpcl.Value.{Cbor2}
use dtn_demo_agent.Udpcl.State.{Env, Config, BundleItem, Agent}
use dtn_demo_agent.Udpcl.Send.{process_item, take_item, process_tx_queue}
use dtn_demo_agent.Udpcl.Send.Order.{Sends, Sendable, sent_log, process_item-Sends}
use dtn_demo_agent.Udpcl.Numbers.{Sound}
use dtn_demo_agent.Udpcl.Idle.{
  without_first, after_idle, run_idle, run_idle-Sound, run_idle-queue, tail_of, Runs, no_run,
  next_run, after_idle-config,
}
use dtn_demo_agent.Common.Exec.Ends.{Ends}

-- Lists in one
unfoldable pub concat : List (List (List ℕ)) → List (List ℕ)
concat [] = []
concat (xs ∷ xss) = xs ++ concat xss

-- Each item can be sent, as these datagrams.
abbrev pub Sendables :
    Type 0 → Cbor2 → Env → Config → List BundleItem → List (List (List ℕ)) → Type 0
Sendables I cbor env config [] [] = Unit
Sendables I cbor env config (item ∷ items) (segs ∷ segss) =
    Sendable I cbor env config item segs × Sendables I cbor env config items segss
Sendables I cbor env config _ _ = ⊥

module _ {I : Type 0} where
  after_idle-events : (o : Outcome (Agent I) Bool) → (after_idle o).events ≡ (final o).events
  after_idle-events (done true t) = refl
  after_idle-events (done false t) = refl
  after_idle-events (raised e t) = refl

  take_item-Sends :
      (cbor : Cbor2) (env : Env) (item : BundleItem) (segs : List (List ℕ)) (s : Agent I)
      → (p : Sends (process_item cbor env item s) s segs)
      → take_item cbor env item s ≡ done (not (is_empty p.left.tx_queue)) p.left
  unfolding take_item
  take_item-Sends cbor env item segs s p = rw (p.returns, take_item) refl

  process-take :
      (cbor : Cbor2) (env : Env) (item : BundleItem) (rest : List BundleItem) (s : Agent I)
      → s.tx_queue ≡ item ∷ rest
      → process_tx_queue cbor env s ≡ take_item cbor env item (without_first rest s)
  unfolding process_tx_queue
  process-take cbor env item rest s e = rw (e, process_tx_queue) refl

  record Ran (cbor : Cbor2) (env : Env) (s : Agent I) (segs : List (List ℕ)) : Type 0 where
    log : sent_log (run_idle cbor env s).events ≡ sent_log s.events ++ segs
    same_config : (run_idle cbor env s).config ≡ s.config
    ends : Ends (process_tx_queue cbor env s)

  run_idle-Ran :
      (cbor : Cbor2) (env : Env) (item : BundleItem) (rest : List BundleItem) (segs : List (List ℕ))
      (s : Agent I)
      → s.tx_queue ≡ item ∷ rest
      → Sendable I cbor env s.config item segs
      → Ran cbor env s segs
  unfolding run_idle
  run_idle-Ran cbor env item rest segs s e q =
      let p = process_item-Sends cbor env item segs (without_first rest s) q in
      let r =
        process-take cbor env item rest s e
        ∙ take_item-Sends cbor env item segs (without_first rest s) p in
      record {
        log =
            ap (λ es. sent_log es)
              (after_idle-events (process_tx_queue cbor env s)
                ∙ ap (λ (o : Outcome (Agent I) Bool). (final o).events) r)
            ∙ p.log;
        same_config =
            after_idle-config (process_tx_queue cbor env s)
            ∙ ap (λ (o : Outcome (Agent I) Bool). (final o).config) r
            ∙ p.same_config;
        ends = subst (λ (o : Outcome (Agent I) Bool). Ends o) (sym r) tt;
      }

  -- The idle callbacks of an agent send its queue: after as many runs as there are items the queue is
  -- empty, and the plain datagrams that were sent are those of the first item, in their order, then
  -- those of the second, and so on, and nothing else. The conditions: the numbers and callbacks of the
  -- agent are in order, DTLS is off for sending, and for each item the addresses can be resolved, the
  -- peer is no multicast address, a socket can be bound, every datagram can be sent, and the cut ends.
  pub queue_sent :
      (cbor : Cbor2) (env : Env) (items : List BundleItem) (segss : List (List (List ℕ)))
      (s : Agent I)
      → s.tx_queue ≡ items
      → Sound s
      → Sendables I cbor env s.config items segss
      → (t : Agent I) × Runs cbor env (length items) s t
        × (t.tx_queue ≡ [])
        × (sent_log t.events ≡ sent_log s.events ++ concat segss)
  unfolding concat tail_of
  queue_sent cbor env [] [] s e h q = (s, no_run, e, sym (append-nil (sent_log s.events)))
  queue_sent cbor env [] (segs ∷ segss) s e h q = absurd q
  queue_sent cbor env (item ∷ rest) [] s e h q = absurd q
  queue_sent cbor env (item ∷ rest) (segs ∷ segss) s e h (q, qs) =
      let r = run_idle-Ran cbor env item rest segs s e q in
      let (t, runs, z, log) =
        queue_sent cbor env rest segss (run_idle cbor env s)
          (run_idle-queue cbor env (item ∷ rest) s e) (run_idle-Sound cbor env (item ∷ rest) s e h)
          (subst (λ k. Sendables I cbor env k rest segss) (sym r.same_config) qs) in
      (
        t,
        next_run (omega (arith, h.scheduled, ap (λ q. length q) e)) r.ends runs,
        z,
        log
            ∙ ap (λ l. l ++ concat segss) r.log
            ∙ append_assoc (sent_log s.events) segs (concat segss),
      )
