-- ===== src/Tcpcl/Session/Queue/Frame.antt =====
-- The handlers of src/tcpcl/session.py that leave the transmit queue alone.
use dtn_demo_agent.Common.{
  ℕ, ◌≡◌, refl, ap, Bool, true, false, Option, none, some, List, ◌++◌, arith, Bool-cases, inl, inr,
  length, not, if◌then◌else◌, ◌==◌,
}
use dtn_demo_agent.Common.Exec.{
  raised, final, when, modify, throw, ◌>>◌, value_error, attribute_error,
}
use dtn_demo_agent.Tcpcl.Packet.{
  Codec, SessionInit, has_flag, seg_start, seg_end, term_idle_timeout,
}
use dtn_demo_agent.Tcpcl.Session.State.{
  Session, Env, RxItem, set_msgr, contact_negotiating, session_negotiating, established, emit,
  session_start, recv_bundle_intermediate,
}
use dtn_demo_agent.Tcpcl.Session.Connection.{
  is_secure, keepalive_stop, keepalive_reset, idle_stop, idle_reset, update_state, check_sess_term,
}
use dtn_demo_agent.Tcpcl.Session.Sending.{
  contact_flags, magic_head, send_contact_header, require_sess, terminate, keepalive_timeout,
  idle_timeout, start,
}
use dtn_demo_agent.Tcpcl.Session.Receive.{
  rx_setup, rx_teardown, finish_rx, write_segment, resume_segment, recv_xfer_data,
  recv_bundle_pop_data,
}
use dtn_demo_agent.Tcpcl.Session.Negotiate.{
  octets_eq, merge_session_params, authenticate, adopt_params, Identity,
}
use dtn_demo_agent.Tcpcl.Session.Dispatch.{recv_contact, recv_sess_init, avail_tx_tls}
use dtn_demo_agent.Tcpcl.Session.Queue.{
  Leaves, Leaves-bind, Leaves-when, Leaves-get, Leaves-modify, queue, queue-close,
  queue-update_state, queue-tx_proxy, send_contact_header-Leaves, send_sess_init-Leaves,
  send_xfer_ack-Leaves, send_message-Leaves, send_sess_term-Leaves, finish_contact-Leaves,
  merge_contact_params-Leaves,
}

Leaves-throw : Leaves {A = Unit {0}} (throw value_error)
Leaves-throw = record { leaves = λ s. refl }

greet-Leaves :
    (codec : Codec) (b : Bool) (flags : ℕ)
    → Leaves (
        when b (do
          send_contact_header codec
          modify (set_msgr (λ m. record m { conhead_this = some flags }))))
greet-Leaves codec b flags = Leaves-when b (
    Leaves-bind (send_contact_header-Leaves codec)
      (λ _. Leaves-modify {f = set_msgr (λ m. record m { conhead_this = some flags })} (λ s. refl)))

pub recv_contact-Leaves :
    (codec : Codec) (env : Env) (magic : List ℕ) (version : ℕ) (flags : Option ℕ)
    → Leaves (recv_contact codec env magic version flags)
unfolding recv_contact
recv_contact-Leaves codec env magic version flags =
    Leaves-bind (Leaves-when (not (octets_eq magic magic_head)) Leaves-throw) (λ _.
      Leaves-bind (Leaves-when (not (version == 4)) Leaves-throw) (λ _. Leaves-bind Leaves-get (λ s.
        Leaves-bind (greet-Leaves codec s.conn.as_passive (contact_flags s)) (λ _.
          Leaves-bind
            (Leaves-modify {f = set_msgr (λ m. record m { conhead_peer = flags })} (λ t. refl))
            (λ _. Leaves-bind merge_contact_params-Leaves (λ _.
              Leaves-bind
                (Leaves-modify {f = set_msgr (λ m. record m { in_conn = true })} (λ t. refl))
                (λ _.
                  Leaves-bind
                    (Leaves-modify {f = update_state session_negotiating}
                      (queue-update_state session_negotiating))
                    (λ _. finish_contact-Leaves codec env))))))))

queue-authenticate :
    (env : Env) (nodeid : List ℕ) (s : Session) → final (authenticate env nodeid s) ≡ s
unfolding authenticate is_secure
queue-authenticate env nodeid s = ground arith

authenticate-Leaves : (env : Env) (nodeid : List ℕ) → Leaves (authenticate env nodeid)
authenticate-Leaves env nodeid = record { leaves = λ s. ap queue (queue-authenticate env nodeid s) }

queue-adopt_params :
    (env : Env) (own peer : SessionInit) (i : Identity) (s : Session)
    → queue (adopt_params env own peer i s) ≡ queue s
unfolding adopt_params keepalive_reset keepalive_stop idle_reset idle_stop
queue-adopt_params env own peer i s = refl

adopt-Leaves :
    (env : Env) (peer : SessionInit) (i : Identity) (o : Option SessionInit)
    → Leaves (elim o [
      | none ↦ (λ t. raised attribute_error t)
      | some own ↦ modify (adopt_params env own peer i)
    ])
adopt-Leaves env peer i none = record { leaves = λ s. refl }
adopt-Leaves env peer i (some own) = record { leaves = queue-adopt_params env own peer i }

merge_session_params-Leaves :
    (env : Env) (peer : SessionInit) → Leaves (merge_session_params env peer)
unfolding merge_session_params
merge_session_params-Leaves env peer = record {
  leaves = λ s. ground (
    arith,
    (Leaves-bind (authenticate-Leaves env peer.nodeid_data)
          (λ i. adopt-Leaves env peer i s.msgr.sessinit_this)).leaves
        s,
  );
}

pub recv_sess_init-Leaves :
    (codec : Codec) (env : Env) (peer : SessionInit) → Leaves (recv_sess_init codec env peer)
unfolding recv_sess_init
recv_sess_init-Leaves codec env peer = Leaves-bind Leaves-get (λ s.
    Leaves-bind (Leaves-when s.conn.as_passive (send_sess_init-Leaves codec)) (λ _.
      Leaves-bind
        (Leaves-modify {f = set_msgr (λ m. record m { sessinit_peer = some peer; in_sess = true })}
          (λ t. refl))
        (λ _. Leaves-bind (merge_session_params-Leaves env peer) (λ _.
          Leaves-bind
            (Leaves-modify {f = update_state established} (queue-update_state established))
            (λ _.
              Leaves-modify {f = λ t. if t.msgr.in_sess_func then emit session_start t else t}
                (λ t. ground arith))))))

pub queue-check_sess_term : (s : Session) → queue (check_sess_term s) ≡ queue s
unfolding check_sess_term
queue-check_sess_term s = ground (arith, queue-close s)

queue-finish_rx : (item : RxItem) (s : Session) → queue (finish_rx item s) ≡ queue s
unfolding finish_rx rx_teardown
queue-finish_rx item s = queue-check_sess_term _

write_segment-Leaves :
    (codec : Codec) (i f : ℕ) (content : List ℕ) (item : RxItem)
    → Leaves (write_segment codec i f content item)
unfolding write_segment
write_segment-Leaves codec i f content item = record {
  leaves = λ s.
      let n = length (item.file ++ content) in
      let t = record s {
        hdl = record (s.hdl) { rx_tmp = some (record item { file = item.file ++ content }) };
      } in
      elim (Bool-cases (has_flag f seg_end)) [
        | inl e ↦ ground (
          arith,
          (Leaves-bind (Leaves-when s.msgr.do_send_ack_final (send_xfer_ack-Leaves codec i n f))
                (λ _.
                  Leaves-modify {f = finish_rx (record item { file = item.file ++ content })}
                    (queue-finish_rx (record item { file = item.file ++ content })))).leaves
              t,
        )
        | inr e ↦ ground (
          arith,
          (Leaves-when s.msgr.do_send_ack_inter (
                Leaves-bind (send_xfer_ack-Leaves codec i n f) (λ _.
                  Leaves-modify {f = emit (recv_bundle_intermediate item.transfer_id n)}
                    (λ u. refl)))).leaves
              t,
        )
      ];
}

resume_segment-Leaves :
    (codec : Codec) (i f : ℕ) (content : List ℕ) (o : Option RxItem)
    → Leaves (resume_segment codec i f content o)
unfolding resume_segment
resume_segment-Leaves codec i f content none = record { leaves = λ s. refl }
resume_segment-Leaves codec i f content (some item) = record {
  leaves = λ s. ground (arith, (write_segment-Leaves codec i f content item).leaves s);
}

pub require_sess-Leaves : Leaves require_sess
unfolding require_sess
require_sess-Leaves = record { leaves = λ s. ground arith }

pub recv_xfer_data-Leaves :
    (codec : Codec) (i f : ℕ) (content : List ℕ) → Leaves (recv_xfer_data codec i f content)
unfolding recv_xfer_data rx_setup
recv_xfer_data-Leaves codec i f content = Leaves-bind require_sess-Leaves (λ _.
    Leaves-bind
      (Leaves-when (has_flag f seg_start) (Leaves-modify {f = rx_setup i none} (λ t. refl)))
      (λ _. Leaves-bind Leaves-get (λ t. resume_segment-Leaves codec i f content t.hdl.rx_tmp)))

pub queue-avail_tx_tls :
    (f : List ℕ → Option ℕ) (s : Session) → queue (avail_tx_tls f s).1 ≡ queue s
unfolding avail_tx_tls
queue-avail_tx_tls f s =
    ground
      (arith, queue-tx_proxy f (record s { conn = record (s.conn) { avail_tx_tls_pend = false } }))

pub terminate-Leaves : (codec : Codec) (r : Option ℕ) → Leaves (terminate codec r)
unfolding terminate
terminate-Leaves codec none = send_sess_term-Leaves codec _ _
terminate-Leaves codec (some r) = send_sess_term-Leaves codec _ _

pub keepalive_timeout-Leaves : (codec : Codec) → Leaves (keepalive_timeout codec)
unfolding keepalive_timeout
keepalive_timeout-Leaves codec = send_message-Leaves codec _

pub idle_timeout-Leaves : (codec : Codec) → Leaves (idle_timeout codec)
unfolding idle_timeout idle_stop
idle_timeout-Leaves codec =
    Leaves-bind (Leaves-modify {f = idle_stop} (λ t. refl))
      (λ _. send_sess_term-Leaves codec term_idle_timeout false)

pub pop_data-Leaves : (bid : ℕ) → Leaves (recv_bundle_pop_data bid)
unfolding recv_bundle_pop_data
pop_data-Leaves bid = record { leaves = λ s. ground arith }

pub start-Leaves : (codec : Codec) → Leaves (start codec)
unfolding start
start-Leaves codec = record {
  leaves = λ s.
      (Leaves-bind
          (Leaves-modify
            {f = set_msgr (λ m. record m {
              conhead_peer = none;
              conhead_this = none;
              in_conn = false;
              sessinit_peer = none;
              sessinit_this = none;
              in_sess = false;
              in_term = false;
            })}
            (λ t. refl))
          (λ _. Leaves-bind (greet-Leaves codec (not s.conn.as_passive) (contact_flags s)) (λ _.
            Leaves-modify {f = update_state contact_negotiating}
              (queue-update_state contact_negotiating)))).leaves
        s;
}
