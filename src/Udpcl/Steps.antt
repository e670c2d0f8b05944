-- ===== src/Udpcl/Steps.antt =====
-- The steps of the agent of src/udpcl/agent.py: what GLib and D-Bus call.
use dtn_demo_agent.Common.{
  ℕ, zero, suc, ◌+◌, ◌-◌, ◌≡◌, refl, sym, subst, Bool, Option, some, List, [], ◌∷◌, arith,
  Bool-cases, Option-cases, inl, inr, is_some, ltb, ◌==◌,
}
use dtn_demo_agent.Common.Exec.{Exec, final}
use dtn_demo_agent.Common.Exec.Keeps.{Keeps, Keeps-bind, Keeps-modify, Keeps-pure, Keeps-get}
use dtn_demo_agent.Common.Portion.{Portion}
use dtn_demo_agent.Udpcl.Value.{Cbor2}
use dtn_demo_agent.Udpcl.Conversation.{Ip, Address, numeric, name, Conversation, conv_get}
use dtn_demo_agent.Udpcl.State.{Env, Agent}
use dtn_demo_agent.Udpcl.Queue.{addr_from_str, recv_bundle_pop_data, send_bundle_data}
use dtn_demo_agent.Udpcl.Starttls.{make_local_socket}
use dtn_demo_agent.Udpcl.Pmtud.{
  ack_item, forget_probes, probe_sizes, base_plpmtu, pmtud_start, queue_probes, pmtud_send_ack,
  max_plpmtu, pkt_step, probe_item,
}
use dtn_demo_agent.Udpcl.Receive.{sock_recvfrom, dtlsconn_recv}
use dtn_demo_agent.Udpcl.Control.{
  PollConfig, bind_listener, poll_item, listen_conv, join_groups, listen, listen_stop, poll,
}
use dtn_demo_agent.Common.Exec.Ends.{Ends}
use dtn_demo_agent.Udpcl.Send.{process_tx_queue}
use dtn_demo_agent.Udpcl.Idle.{run_idle, run_idle-Kept}
use dtn_demo_agent.Udpcl.Ledger.{Ledger, ledger, Is, make_local_socket-Keeps, addr_from_str-Keeps}
use dtn_demo_agent.Udpcl.Receive.Sound.{sock_recvfrom-Keeps, dtlsconn_recv-Keeps}
use dtn_demo_agent.Udpcl.Numbers.{
  Sound, Since, Since-refl, Kept, Kept-other, Leaves-Kept, message-Keeps, send_bundle_data-Keeps,
  recv_bundle_pop_data-Keeps,
}

module _ {I : Type 0} where
  join_groups-Is :
      (l : Ledger I) (sock : ℕ) (groups : List Address) (s : Agent I)
      → Is l s
      → Is l (join_groups sock groups s)
  join_groups-Is l sock [] s h = h
  join_groups-Is l sock (a ∷ groups) s h = join_groups-Is l sock groups _ h

  listen-Keeps :
      (l : Ledger I) (env : Env) (address : Address) (port : ℕ) (groups : List Address)
      → Keeps (Is l) (listen env address port groups)
  unfolding listen make_local_socket
  listen-Keeps l env (name t) port groups = record { at = λ s h. h }
  listen-Keeps l env (numeric ip) port groups = record {
    at = λ s h. elim (Bool-cases (is_some (conv_get (listen_conv ip port) s.bindsocks))) [
      | inl e ↦ rw (e, listen) h
      | inr e ↦
          rw (e, listen)
            ((Keeps-bind (make_local_socket-Keeps l env (listen_conv ip port)) (λ sock.
                Keeps-bind (Keeps-modify (join_groups sock groups) (join_groups-Is l sock groups))
                  (λ _. Keeps-modify (bind_listener (listen_conv ip port) sock) (λ t q. q)))).at
              s h)
    ];
  }

  listen_stop-Keeps :
      (l : Ledger I) (address : Address) (port : ℕ) → Keeps (Is l) (listen_stop address port)
  unfolding listen_stop
  listen_stop-Keeps l (name t) port = record { at = λ s h. h }
  listen_stop-Keeps l (numeric ip) port = record { at = λ s h. ground arith }

module _ {I : Type 0} (o : Ledger I) where
  queue_probes-Keeps :
      (cbor : Cbor2) (address : Address) (port stop step fuel size : ℕ)
      → Keeps (Kept o) (queue_probes cbor address port stop step fuel size)
  unfolding queue_probes probe_item
  queue_probes-Keeps cbor address port stop step zero size = record { at = λ s h. h }
  queue_probes-Keeps cbor address port stop step (suc fuel) size = record {
    at = λ s h. elim (Bool-cases (ltb size stop)) [
      | inl e ↦
          rw (e, queue_probes)
            ((Keeps-bind (message-Keeps (probe_item cbor address port size) refl)
                (λ _. queue_probes-Keeps cbor address port stop step fuel (size + step))).at
              s h)
      | inr e ↦ rw (e, queue_probes) h
    ];
  }

  probe_sizes-Keeps :
      (cbor : Cbor2) (address : Address) (port stepcount : ℕ) (ip : Option Ip)
      → Keeps (Kept o) (probe_sizes cbor address port stepcount ip)
  unfolding probe_sizes
  probe_sizes-Keeps cbor address port stepcount ip = record {
    at = λ s h. elim (Bool-cases (stepcount == 0)) [
      | inl e ↦ rw (e, probe_sizes) h
      | inr e ↦
          rw (e, probe_sizes)
            ((queue_probes-Keeps cbor address port (max_plpmtu ip) (pkt_step ip stepcount)
                (max_plpmtu ip - base_plpmtu) base_plpmtu).at
              s h)
    ];
  }

  pmtud_start-Keeps :
      (cbor : Cbor2) (env : Env) (address : Address) (port stepcount : ℕ)
      → Keeps (Kept o) (pmtud_start cbor env address port stepcount)
  unfolding pmtud_start
  pmtud_start-Keeps cbor env address port stepcount =
      Keeps-bind
        (Leaves-Kept (addr_from_str env (some address))
          (λ l. addr_from_str-Keeps l env (some address)))
        (probe_sizes-Keeps cbor address port stepcount)

  pmtud_send_ack-Keeps :
      (cbor : Cbor2) (conv : Conversation) → Keeps (Kept o) (pmtud_send_ack cbor conv)
  unfolding pmtud_send_ack ack_item
  pmtud_send_ack-Keeps cbor conv = record {
    at = λ s h. elim (Option-cases (conv_get conv s.pmtud_recv)) [
      | inl e ↦ rw (e, pmtud_send_ack) h
      | inr (state, e) ↦
          rw (e, pmtud_send_ack)
            ((Keeps-bind {P = Kept o}
                (Keeps-modify (forget_probes conv) (λ t q.
                  Kept-other {o = o} (ledger t) t.rx_fragments (forget_probes conv t).pmtud_recv q))
                (λ _.
                  Keeps-bind (message-Keeps (ack_item cbor conv state.pids) refl)
                    (λ _. Keeps-pure tt))).at
              s h)
    ];
  }

  poll-Keeps :
      (cbor : Cbor2) (item : PollConfig) (repeat : Bool) → Keeps (Kept o) (poll cbor item repeat)
  unfolding poll poll_item
  poll-Keeps cbor item repeat =
      Keeps-bind Keeps-get (λ s.
        Keeps-bind (message-Keeps (poll_item cbor item s.config) refl) (λ _. Keeps-pure repeat))

module _ (portion : Portion) (cbor : Cbor2) where
  -- What GLib or D-Bus cause: a datagram or a DTLS record comes, the user takes a bundle or gives one to
  -- send, an idle callback runs and returns, probes are asked for or acknowledged, a peer is polled, or the agent
  -- listens or stops to.
  pub data Step (s u : Agent portion.Interval) : Type 0 where
    on_datagram :
        (env : Env) (sock : ℕ) (octets : List ℕ) (conv : Conversation)
        → u ≡ final (sock_recvfrom portion cbor env sock octets conv s)
        → Step s u
    on_record :
        (env : Env) (octets : List ℕ) (conv : Conversation)
        → u ≡ final (dtlsconn_recv portion cbor env octets conv s)
        → Step s u
    on_pop : (bid : ℕ) → u ≡ final (recv_bundle_pop_data bid s) → Step s u
    on_send :
        (octets : List ℕ) (address : Option Address) (port : Option ℕ)
        (local_address : Option Address) (local_port : Option ℕ)
        → u ≡ final (send_bundle_data octets address port local_address local_port s)
        → Step s u
    on_idle : (env : Env) → Ends (process_tx_queue cbor env s) → u ≡ run_idle cbor env s → Step s u
    on_pmtud :
        (env : Env) (address : Address) (port stepcount : ℕ)
        → u ≡ final (pmtud_start cbor env address port stepcount s)
        → Step s u
    on_timer : (conv : Conversation) → u ≡ final (pmtud_send_ack cbor conv s) → Step s u
    on_poll : (item : PollConfig) (repeat : Bool) → u ≡ final (poll cbor item repeat s) → Step s u
    on_listen :
        (env : Env) (address : Address) (port : ℕ) (groups : List Address)
        → u ≡ final (listen env address port groups s)
        → Step s u
    on_listen_stop :
        (address : Address) (port : ℕ) → u ≡ final (listen_stop address port s) → Step s u

  pub data Reaches (s : Agent portion.Interval) : Agent portion.Interval → Type 0 where
    here : Reaches s s
    next : {t u : Agent portion.Interval} → Reaches s t → Step t u → Reaches s u

  kept :
      (o : Ledger portion.Interval) {A : Type 0} (m : Exec (Agent portion.Interval) A)
      (s u : Agent portion.Interval)
      → Keeps (Kept o) m
      → u ≡ final (m s)
      → Kept o s
      → Kept o u
  kept o m s u p e h = subst (λ t. Kept o t) (sym e) (p.at s h)

  Step-Kept :
      (o : Ledger portion.Interval) {s u : Agent portion.Interval} → Step s u → Kept o s → Kept o u
  Step-Kept o {s} {u} (on_datagram env sock octets conv e) h =
      kept o _ s u (sock_recvfrom-Keeps portion o cbor env sock octets conv) e h
  Step-Kept o {s} {u} (on_record env octets conv e) h =
      kept o _ s u (dtlsconn_recv-Keeps portion o cbor env octets conv) e h
  Step-Kept o {s} {u} (on_pop bid e) h = kept o _ s u (recv_bundle_pop_data-Keeps bid) e h
  Step-Kept o {s} {u} (on_send octets a p la lp e) h =
      kept o _ s u (send_bundle_data-Keeps octets a p la lp) e h
  Step-Kept o {s} {u} (on_idle env i e) h =
      subst (λ t. Kept o t) (sym e) (run_idle-Kept cbor env o s h)
  Step-Kept o {s} {u} (on_pmtud env address port stepcount e) h =
      kept o _ s u (pmtud_start-Keeps o cbor env address port stepcount) e h
  Step-Kept o {s} {u} (on_timer conv e) h = kept o _ s u (pmtud_send_ack-Keeps o cbor conv) e h
  Step-Kept o {s} {u} (on_poll item repeat e) h = kept o _ s u (poll-Keeps o cbor item repeat) e h
  Step-Kept o {s} {u} (on_listen env address port groups e) h =
      kept o _ s u
        (Leaves-Kept (listen env address port groups) (λ l. listen-Keeps l env address port groups))
        e h
  Step-Kept o {s} {u} (on_listen_stop address port e) h =
      kept o _ s u (Leaves-Kept (listen_stop address port) (λ l. listen_stop-Keeps l address port))
        e h

  Reaches-Kept :
      (o : Ledger portion.Interval) {s u : Agent portion.Interval}
      → Reaches s u
      → Kept o s
      → Kept o u
  Reaches-Kept o here h = h
  Reaches-Kept o (next r st) h = Step-Kept o st (Reaches-Kept o r h)

  -- Whatever comes in, and in whatever order, if it holds at the start: the bundles that wait to be taken
  -- have different numbers, as do the transfers that wait to be sent, each in the order in which it was
  -- added, all of them below the next number, and each item that waits has a callback that will send
  -- it. And from any state to any later one the next numbers do not fall, and a number that waits then
  -- waited before or is not below the next number of before: so no number that was given is given
  -- again, also after its bundle or transfer is gone.
  pub Reaches-Sound :
      {s u : Agent portion.Interval} → Reaches s u → Sound s → Sound u × Since (ledger s) (ledger u)
  Reaches-Sound {s} r h = Reaches-Kept (ledger s) r (h, Since-refl (ledger s))
