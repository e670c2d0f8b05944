-- ===== src/Tcpcl/Session/Queue/Steps.antt =====
-- The steps of a session of src/tcpcl/session.py: what GLib and D-Bus call, and what every such call
-- keeps.
use dtn_demo_agent.Common.{
  ℕ, zero, suc, refl, sym, subst, true, false, not, Option, none, some, List, [], ◌∷◌, ◌++◌, arith,
  Bool-cases, drop, length, is_empty, inl, inr,
}
use dtn_demo_agent.Common.Exec.{
  Exn, decode_error, attribute_error, Outcome, done, raised, final, throw, modify, reject_error,
  terminate_error, ◌>>◌,
}
use dtn_demo_agent.Tcpcl.Packet.{
  Codec, Decoded, packet, partial, failed, Pkt, contact, sess_init, sess_term, keepalive_msg,
  reject_msg, xfer_segment, xfer_ack, xfer_refuse,
}
use dtn_demo_agent.Tcpcl.Session.State.{Session, Env, set_msgr}
use dtn_demo_agent.Tcpcl.Session.Connection.{close, idle_reset, idle_stop}
use dtn_demo_agent.Tcpcl.Session.Sending.{terminate, keepalive_timeout, idle_timeout, start}
use dtn_demo_agent.Tcpcl.Session.Transmit.{add_queue_item, process_queue}
use dtn_demo_agent.Tcpcl.Session.Receive.{recv_bundle_pop_data}
use dtn_demo_agent.Tcpcl.Session.Dispatch.{
  recv_body, except_clauses, recv_message, recv_loop, recv_raw, rx_proxy, avail_tx_notls,
  avail_tx_tls,
}
use dtn_demo_agent.Tcpcl.Session.Queue.{
  Leaves-when, Leaves-get, Leaves-modify, queue-close, send_reject-Leaves, send_sess_term-Leaves,
  queue-avail_tx_notls,
}
use dtn_demo_agent.Tcpcl.Session.Queue.Frame.{
  recv_contact-Leaves, recv_sess_init-Leaves, recv_xfer_data-Leaves, queue-avail_tx_tls,
  terminate-Leaves, keepalive_timeout-Leaves, idle_timeout-Leaves, start-Leaves, pop_data-Leaves,
}
use dtn_demo_agent.Tcpcl.Session.Queue.Invariant.{IsConsistent}
use dtn_demo_agent.Tcpcl.Session.Queue.Keeps.{
  IsSound, Keeps, Leaves-Keeps, Keeps-bind, add-Keeps, recv_sess_term-Keeps, recv_xfer_ack-Keeps,
}
use dtn_demo_agent.Tcpcl.Session.Queue.Process.{same-IsSound, process_queue-Keeps}

throw-Keeps : (e : Exn) → Keeps {A = Unit {0}} (throw e)
throw-Keeps e = record { keeps = λ s h. h }

recv_body-Keeps : (codec : Codec) (env : Env) (pkt : Pkt) → Keeps (recv_body codec env pkt)
unfolding recv_body
recv_body-Keeps codec env (contact magic version flags) =
    Leaves-Keeps (recv_contact-Leaves codec env magic version flags)
recv_body-Keeps codec env (sess_init peer) = Leaves-Keeps (recv_sess_init-Leaves codec env peer)
recv_body-Keeps codec env (sess_term flags reason) = record {
  keeps = λ s h.
      (Keeps-bind
          (Leaves-Keeps
            (Leaves-when (not s.msgr.in_term) (send_sess_term-Leaves codec reason true)))
          (λ _. recv_sess_term-Keeps)).keeps
        s h;
}
recv_body-Keeps codec env keepalive_msg = record { keeps = λ s h. h }
recv_body-Keeps codec env (reject_msg i r) = record { keeps = λ s h. h }
recv_body-Keeps codec env (xfer_segment x) =
    Leaves-Keeps (recv_xfer_data-Leaves codec x.transfer_id x.flags x.content)
recv_body-Keeps codec env (xfer_ack f i n) = recv_xfer_ack-Keeps env i f n
recv_body-Keeps codec env (xfer_refuse r i) = throw-Keeps attribute_error

except-IsSound :
    (codec : Codec) (pkt : Pkt) (o : Outcome Session (Unit {0}))
    → IsSound (final o)
    → IsSound (final (except_clauses codec pkt o))
unfolding except_clauses
except-IsSound codec pkt (done _ s) h = h
except-IsSound codec pkt (raised (reject_error r) s) h =
    subst IsConsistent (sym ((send_reject-Leaves codec r pkt).leaves s)) h
except-IsSound codec pkt (raised (terminate_error r) s) h =
    subst IsConsistent (sym ((send_sess_term-Leaves codec r false).leaves s)) h
except-IsSound codec pkt (raised e s) h = h

recv_message-Keeps : (codec : Codec) (env : Env) (pkt : Pkt) → Keeps (recv_message codec env pkt)
unfolding recv_message
recv_message-Keeps codec env pkt = record {
  keeps = λ s h.
      except-IsSound codec pkt (recv_body codec env pkt s)
        ((recv_body-Keeps codec env pkt).keeps s h);
}

loop-IsSound :
    (codec : Codec) (env : Env) (fuel : ℕ) (d : Decoded) (s : Session)
    → Keeps (recv_loop codec env fuel)
    → IsSound s
    → IsSound (
        final (elim d [
          | partial ↦ done tt s
          | failed ↦ raised decode_error s
          | packet pkt ↦
              (do
                modify (
                    set_msgr (λ m. record m { rx_buf = drop (length (codec.encode pkt)) m.rx_buf }))
                recv_message codec env pkt
                recv_loop codec env fuel)
                s
        ]))
loop-IsSound codec env fuel partial s k h = h
loop-IsSound codec env fuel failed s k h = h
loop-IsSound codec env fuel (packet pkt) s k h =
    (Keeps-bind
        (Leaves-Keeps (
          Leaves-modify
            {f = set_msgr (λ m. record m { rx_buf = drop (length (codec.encode pkt)) m.rx_buf })}
            (λ t. refl)))
        (λ _. Keeps-bind (recv_message-Keeps codec env pkt) (λ _. k))).keeps
      s h

recv_loop-IsSound :
    (codec : Codec) (env : Env) (fuel : ℕ) (s : Session)
    → IsSound s
    → IsSound (final (recv_loop codec env fuel s))
unfolding recv_loop
recv_loop-IsSound codec env zero s h = elim (Bool-cases (is_empty s.msgr.rx_buf)) [
  | inl e ↦ same-IsSound (final (recv_loop codec env zero s)) s (ground arith) h
  | inr e ↦ same-IsSound (final (recv_loop codec env zero s)) s (ground arith) h
]
recv_loop-IsSound codec env (suc fuel) s h = elim (Bool-cases (is_empty s.msgr.rx_buf)) [
  | inl e ↦ same-IsSound (final (recv_loop codec env (suc fuel) s)) s (ground arith) h
  | inr e ↦ ground (
    arith,
    loop-IsSound codec env fuel (codec.decode s.msgr.in_conn s.msgr.rx_buf) s
        (record { keeps = recv_loop-IsSound codec env fuel }) h,
  )
]

recv_loop-Keeps : (codec : Codec) (env : Env) (fuel : ℕ) → Keeps (recv_loop codec env fuel)
recv_loop-Keeps codec env fuel = record { keeps = recv_loop-IsSound codec env fuel }

recv_raw-Keeps : (codec : Codec) (env : Env) (octets : List ℕ) → Keeps (recv_raw codec env octets)
unfolding recv_raw idle_reset idle_stop
recv_raw-Keeps codec env octets =
    Keeps-bind (Leaves-Keeps (Leaves-modify {f = idle_reset} (λ t. refl))) (λ _.
      Keeps-bind
        (Leaves-Keeps (
          Leaves-modify {f = set_msgr (λ m. record m { rx_buf = m.rx_buf ++ octets })} (λ t. refl)))
        (λ _.
          Keeps-bind (Leaves-Keeps Leaves-get)
            (λ s. recv_loop-Keeps codec env (length s.msgr.rx_buf))))

rx_proxy-Keeps : (codec : Codec) (env : Env) (o : Option (List ℕ)) → Keeps (rx_proxy codec env o)
unfolding rx_proxy
rx_proxy-Keeps codec env none = record { keeps = λ s h. h }
rx_proxy-Keeps codec env (some []) = record {
  keeps = λ s h. subst IsConsistent (sym (queue-close s)) h;
}
rx_proxy-Keeps codec env (some (b ∷ bs)) =
    Keeps-bind (recv_raw-Keeps codec env (b ∷ bs)) (λ _. record { keeps = λ s h. h })

-- What GLib, D-Bus and the peer make a session do. An exception ends a step with the state it leaves.
pub data Step (codec : Codec) : Session → Session → Type 0 where
  started : (s : Session) → Step codec s (final (start codec s))
  received :
      (env : Env) (octets : Option (List ℕ)) (s : Session)
      → Step codec s (final (rx_proxy codec env octets s))
  queued : (file : List ℕ) (s : Session) → Step codec s (final (add_queue_item file s))
  processed : (now : ℕ) (s : Session) → Step codec s (final (process_queue codec now s))
  written_notls :
      (sock_send : List ℕ → Option ℕ) (s : Session) → Step codec s (avail_tx_notls sock_send s).1
  written_tls :
      (sock_send : List ℕ → Option ℕ) (s : Session) → Step codec s (avail_tx_tls sock_send s).1
  popped : (bid : ℕ) (s : Session) → Step codec s (final (recv_bundle_pop_data bid s))
  terminated : (reason : Option ℕ) (s : Session) → Step codec s (final (terminate codec reason s))
  kept_alive : (s : Session) → Step codec s (final (keepalive_timeout codec s))
  timed_out : (s : Session) → Step codec s (final (idle_timeout codec s))
  closed_now : (s : Session) → Step codec s (close s)

pub data Reaches (codec : Codec) : Session → Session → Type 0 where
  here : (s : Session) → Reaches codec s s
  later : {s t u : Session} → Reaches codec s t → Step codec t u → Reaches codec s u

Step-IsSound : {codec : Codec} {s t : Session} → Step codec s t → IsSound s → IsSound t
Step-IsSound {codec = codec} (started s) h = (Leaves-Keeps (start-Leaves codec)).keeps s h
Step-IsSound {codec = codec} (received env octets s) h = (rx_proxy-Keeps codec env octets).keeps s h
Step-IsSound (queued file s) h = (add-Keeps file).keeps s h
Step-IsSound {codec = codec} (processed now s) h = (process_queue-Keeps codec now).keeps s h
Step-IsSound (written_notls f s) h = subst IsConsistent (sym (queue-avail_tx_notls f s)) h
Step-IsSound (written_tls f s) h = subst IsConsistent (sym (queue-avail_tx_tls f s)) h
Step-IsSound (popped bid s) h = (Leaves-Keeps (pop_data-Leaves bid)).keeps s h
Step-IsSound {codec = codec} (terminated r s) h =
    (Leaves-Keeps (terminate-Leaves codec r)).keeps s h
Step-IsSound {codec = codec} (kept_alive s) h =
    (Leaves-Keeps (keepalive_timeout-Leaves codec)).keeps s h
Step-IsSound {codec = codec} (timed_out s) h = (Leaves-Keeps (idle_timeout-Leaves codec)).keeps s h
Step-IsSound (closed_now s) h = subst IsConsistent (sym (queue-close s)) h

-- Whatever a session does, in whatever order, and with exceptions or not, its transfers stay
-- consistent, if they were so at first: each transfer of the queue is known, it is in one place only,
-- whether it waits, is in progress or waits for its acknowledgement, and no transfer ID that is still to
-- be given is known.
pub Reaches-IsSound : {codec : Codec} {s t : Session} → Reaches codec s t → IsSound s → IsSound t
Reaches-IsSound (here s) h = h
Reaches-IsSound (later r p) h = Step-IsSound p (Reaches-IsSound r h)
