-- ===== src/Udpcl/Idle.antt =====
-- `_process_tx_queue` of src/udpcl/agent.py as an idle callback of GLib.
pub mod Order
use dtn_demo_agent.Common.{
  ℕ, zero, suc, ◌+◌, ◌-◌, ◌≤◌, ◌<◌, ◌≡◌, refl, sym, ap, ◌∙◌, subst, Bool, true, false, not, Option,
  none, some, List, [], ◌∷◌, ◌++◌, arith, Bool-cases, Option-cases, inl, inr, length, is_empty,
  is_some, ltb, if◌then◌else◌, All,
}
use dtn_demo_agent.Common.Exec.{Exec, Outcome, done, raised, final, continue, modify, get, ◌>>=◌}
use dtn_demo_agent.Common.Exec.Keeps.{
  Keeps, Keeps-bind, Keeps-modify, Keeps-when, Keeps-throw, Keeps-pure, Keeps-get, continue-Keeps,
}
use dtn_demo_agent.Common.Exec.Ends.{Ends}
use dtn_demo_agent.Udpcl.Value.{Cbor2}
use dtn_demo_agent.Udpcl.Conversation.{Ip, Address, numeric, name, Conversation, conv_get}
use dtn_demo_agent.Udpcl.State.{Env, BundleItem, Agent, Config}
use dtn_demo_agent.Udpcl.Queue.{
  addr_from_str, add_tx_item, message, recv_bundle_pop_data, send_bundle_data,
}
use dtn_demo_agent.Udpcl.Starttls.{make_local_socket}
use dtn_demo_agent.Udpcl.Send.{process_item, take_item, process_tx_queue}
use dtn_demo_agent.Udpcl.Pmtud.{
  pmtud_start, queue_probes, pmtud_send_ack, max_plpmtu, pkt_step, probe_item,
}
use dtn_demo_agent.Udpcl.Receive.{sock_recvfrom, dtlsconn_recv}
use dtn_demo_agent.Udpcl.Control.{PollConfig, listen_conv, join_groups, listen, listen_stop, poll}
use dtn_demo_agent.Udpcl.Send.Ends.{CanSend, take_item-Ends}
use dtn_demo_agent.Udpcl.Ledger.{Ledger, ledger, Is, take_item-Keeps}
use dtn_demo_agent.Udpcl.Numbers.{
  IsSound, Sound, transfer_ids, Rising, Rising-tail, Since, Kept, AllSince, AllSince-tail,
}

unfoldable pub tail_of : List BundleItem → List BundleItem
tail_of [] = []
tail_of (item ∷ rest) = rest

module _ {I : Type 0} where
  -- What is left when the first item is not in the queue any more
  abbrev pub without_first : List BundleItem → Agent I → Agent I
  without_first rest s = record s { tx_queue = rest }

  -- One call takes the first item off the queue, whatever is raised on it, and returns whether there are
  -- more.
  pub process_tx_queue-ledger :
      (cbor : Cbor2) (env : Env) (item : BundleItem) (rest : List BundleItem) (s : Agent I)
      → s.tx_queue ≡ item ∷ rest
      → ledger (final (process_tx_queue cbor env s)) ≡ ledger (without_first rest s)
  unfolding process_tx_queue
  process_tx_queue-ledger cbor env item rest s e =
      rw (e, process_tx_queue)
        ((take_item-Keeps (ledger (without_first rest s)) cbor env item).at (without_first rest s)
          refl)

  -- GLib drops an idle callback that returns false, or raises. This is for a call that ends.
  abbrev pub after_idle : Outcome (Agent I) Bool → Agent I
  after_idle (done true s) = s
  after_idle (done false s) = record s { idle = s.idle - 1 }
  after_idle (raised e s) = record s { idle = s.idle - 1 }

  unfoldable pub run_idle : Cbor2 → Env → Agent I → Agent I
  unfolding process_tx_queue
  run_idle cbor env s = after_idle (process_tx_queue cbor env s)

  first_IsSound :
      (item : BundleItem) (rest : List BundleItem) (l : Ledger I)
      → l.tx_queue ≡ item ∷ rest
      → IsSound l
      → IsSound (record l { tx_queue = rest })
  first_IsSound item rest l e h = record {
    received = h.received;
    waiting =
        Rising-tail l.tx_id item rest (subst (λ q. Rising 0 l.tx_id (transfer_ids q)) e h.waiting);
    scheduled = omega (arith, h.scheduled, ap (λ q. length q) e);
  }

  after_idle-Sound :
      (o : Outcome (Agent I) Bool)
      → Sound (final o)
      → length (final o).tx_queue < (final o).idle
      → Sound (after_idle o)
  after_idle-Sound (done true t) h lt = h
  after_idle-Sound (done false t) h lt = record {
    received = h.received;
    waiting = h.waiting;
    scheduled = omega (arith, lt);
  }
  after_idle-Sound (raised x t) h lt = record {
    received = h.received;
    waiting = h.waiting;
    scheduled = omega (arith, lt);
  }

  after_idle-queue : (o : Outcome (Agent I) Bool) → (after_idle o).tx_queue ≡ (final o).tx_queue
  after_idle-queue (done true t) = refl
  after_idle-queue (done false t) = refl
  after_idle-queue (raised x t) = refl

  pub run_idle-queue :
      (cbor : Cbor2) (env : Env) (items : List BundleItem) (s : Agent I)
      → s.tx_queue ≡ items
      → (run_idle cbor env s).tx_queue ≡ tail_of items
  unfolding run_idle process_tx_queue tail_of
  run_idle-queue cbor env [] s e = rw (e, run_idle, process_tx_queue) e
  run_idle-queue cbor env (item ∷ rest) s e =
      after_idle-queue (process_tx_queue cbor env s)
      ∙ ap (λ l. l.tx_queue) (process_tx_queue-ledger cbor env item rest s e)

  pub run_idle-Sound :
      (cbor : Cbor2) (env : Env) (items : List BundleItem) (s : Agent I)
      → s.tx_queue ≡ items
      → Sound s
      → Sound (run_idle cbor env s)
  unfolding run_idle process_tx_queue
  run_idle-Sound cbor env [] s e h =
      rw (e, run_idle, process_tx_queue)
        (record {
          received = h.received;
          waiting = h.waiting;
          scheduled = omega (arith, ap (λ q. length q) e);
        })
  run_idle-Sound cbor env (item ∷ rest) s e h =
      let p = process_tx_queue-ledger cbor env item rest s e in
      after_idle-Sound (process_tx_queue cbor env s)
        (subst (λ l. IsSound l) (sym p) (first_IsSound item rest (ledger s) e h))
        (omega (
          arith,
          ap (λ l. length l.tx_queue) p,
          ap (λ (l : Ledger I). l.idle) p,
          h.scheduled,
          ap (λ q. length q) e,
        ))

  after_idle-Since :
      (o : Ledger I) (r : Outcome (Agent I) Bool)
      → Since o (ledger (final r))
      → Since o (ledger (after_idle r))
  after_idle-Since o (done true t) q = q
  after_idle-Since o (done false t) q = record {
    tx_grows = q.tx_grows;
    rx_grows = q.rx_grows;
    tx_new = q.tx_new;
    rx_new = q.rx_new;
  }
  after_idle-Since o (raised x t) q = record {
    tx_grows = q.tx_grows;
    rx_grows = q.rx_grows;
    tx_new = q.tx_new;
    rx_new = q.rx_new;
  }

  first-Since :
      (o : Ledger I) (item : BundleItem) (rest : List BundleItem) (l : Ledger I)
      → l.tx_queue ≡ item ∷ rest
      → Since o l
      → Since o (record l { tx_queue = rest })
  first-Since o item rest l e q = record {
    tx_grows = q.tx_grows;
    rx_grows = q.rx_grows;
    tx_new =
        AllSince-tail o.tx_id (transfer_ids o.tx_queue) item rest
          (subst (λ k. AllSince o.tx_id (transfer_ids o.tx_queue) (transfer_ids k)) e q.tx_new);
    rx_new = q.rx_new;
  }

  run_idle-Since :
      (cbor : Cbor2) (env : Env) (o : Ledger I) (items : List BundleItem) (s : Agent I)
      → s.tx_queue ≡ items
      → Since o (ledger s)
      → Since o (ledger (run_idle cbor env s))
  unfolding run_idle process_tx_queue
  run_idle-Since cbor env o [] s e q =
      rw (e, run_idle, process_tx_queue)
        (record {
          tx_grows = q.tx_grows;
          rx_grows = q.rx_grows;
          tx_new = q.tx_new;
          rx_new = q.rx_new;
        })
  run_idle-Since cbor env o (item ∷ rest) s e q = after_idle-Since o (process_tx_queue cbor env s) (
      subst (λ l. Since o l) (sym (process_tx_queue-ledger cbor env item rest s e))
        (first-Since o item rest (ledger s) e q))

  pub run_idle-Kept :
      (cbor : Cbor2) (env : Env) (o : Ledger I) (s : Agent I)
      → Kept o s
      → Kept o (run_idle cbor env s)
  run_idle-Kept cbor env o s (h, q) =
      (run_idle-Sound cbor env s.tx_queue s refl h, run_idle-Since cbor env o s.tx_queue s refl q)

  pub after_idle-config : (o : Outcome (Agent I) Bool) → (after_idle o).config ≡ (final o).config
  after_idle-config (done true t) = refl
  after_idle-config (done false t) = refl
  after_idle-config (raised e t) = refl

  run_idle-config :
      (cbor : Cbor2) (env : Env) (item : BundleItem) (rest : List BundleItem) (s : Agent I)
      → s.tx_queue ≡ item ∷ rest
      → (run_idle cbor env s).config ≡ s.config
  unfolding run_idle process_tx_queue
  run_idle-config cbor env item rest s e =
      after_idle-config (process_tx_queue cbor env s)
      ∙ ap (λ (l : Ledger I). l.config) (process_tx_queue-ledger cbor env item rest s e)

  process_tx_queue-Ends :
      (cbor : Cbor2) (env : Env) (item : BundleItem) (rest : List BundleItem) (s : Agent I)
      → s.tx_queue ≡ item ∷ rest
      → CanSend cbor s.config.mtu_default item
      → Ends (process_tx_queue cbor env s)
  unfolding process_tx_queue
  process_tx_queue-Ends cbor env item rest s e r =
      rw (e, process_tx_queue) (take_item-Ends cbor env item (without_first rest s) r)

  -- So many runs of an idle callback that is there. A run in which the loop over the fragments does not
  -- end is none: the callback does not return, and nothing comes after it.
  pub data Runs (cbor : Cbor2) (env : Env) : ℕ → Agent I → Agent I → Type 0 where
    no_run : {s : Agent I} → Runs cbor env 0 s s
    next_run :
        {n : ℕ} {s t : Agent I}
        → 0 < s.idle
        → Ends (process_tx_queue cbor env s)
        → Runs cbor env n (run_idle cbor env s) t
        → Runs cbor env (suc n) s t

  -- An agent whose numbers and callbacks are in order has, as long as an item waits, a callback to send
  -- it, if each transfer fits in the MTU or the MTU leaves room for data in its fragments: every run
  -- ends, and after as many runs as there are items none waits any more, whatever is raised on any of
  -- them.
  pub idle_drains :
      (cbor : Cbor2) (env : Env) (items : List BundleItem) (s : Agent I)
      → s.tx_queue ≡ items
      → Sound s
      → All (CanSend cbor s.config.mtu_default) items
      → (t : Agent I) × Runs cbor env (length items) s t × (t.tx_queue ≡ [])
  unfolding tail_of
  idle_drains cbor env [] s e h m = (s, no_run, e)
  idle_drains cbor env (item ∷ rest) s e h (m, ms) =
      let (t, r, q) =
        idle_drains cbor env rest (run_idle cbor env s) (run_idle-queue cbor env (item ∷ rest) s e)
          (run_idle-Sound cbor env (item ∷ rest) s e h)
          (subst (λ (k : Config). All (CanSend cbor k.mtu_default) rest)
            (sym (run_idle-config cbor env item rest s e)) ms) in
      (
        t,
        next_run (omega (arith, h.scheduled, ap (λ q. length q) e))
            (process_tx_queue-Ends cbor env item rest s e m) r,
        q,
      )
