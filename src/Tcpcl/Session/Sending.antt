-- ===== src/Tcpcl/Session/Sending.antt =====
-- The `send_*` methods of `Messenger` in src/tcpcl/session.py, and what starts and ends a session.
use dtn_demo_agent.Common.{
  ℕ, ◌^◌, ◌-◌, Bool, true, false, not, ◌&&◌, Option, none, some, List, [], ◌∷◌, ◌++◌, is_empty,
  if◌then◌else◌,
}
use dtn_demo_agent.Common.Exec.{Exec, done, raised, modify, when, runtime_error, reject_error, ◌>>◌}
use dtn_demo_agent.Tcpcl.Packet.{
  Pkt, Codec, SessionInit, ExtItem, can_tls, critical, seg_start, term_reply, term_idle_timeout,
  term_unknown, reject_unexpected, has_flag, contact, xfer_segment, xfer_ack, keepalive_msg,
  sess_term, reject_msg, sess_init, private_dummy, msg_id,
}
use dtn_demo_agent.Tcpcl.Session.State.{
  Session, emit, set_msgr, tx, session_terminate, ending, contact_negotiating,
}
use dtn_demo_agent.Tcpcl.Session.Connection.{
  send_ready, keepalive_reset, idle_reset, idle_stop, update_state,
}

-- The packet's octets join the buffer before the socket is woken.
unfoldable pub send_message : Codec → Pkt → Exec Session (Unit {0})
send_message codec pkt = do
  modify (emit (tx pkt))
  modify (set_msgr (λ m. record m { tx_buf = m.tx_buf ++ codec.encode pkt }))
  send_ready
  modify keepalive_reset
  modify idle_reset

unfoldable pub send_reject : Codec → ℕ → Pkt → Exec Session (Unit {0})
send_reject codec reason pkt = send_message codec (reject_msg (msg_id pkt) reason)

unfoldable pub send_sess_term : Codec → ℕ → Bool → Exec Session (Unit {0})
send_sess_term codec reason is_reply s =
    if not s.msgr.in_sess
    then raised runtime_error s
    else if s.msgr.in_term
    then raised runtime_error s
    else (do
      modify (set_msgr (λ m. record m { in_term = true }))
      modify (update_state ending)
      modify (λ t. if t.msgr.in_term_func then emit session_terminate t else t)
      send_message codec (sess_term (if is_reply then term_reply else 0) reason))
        s

-- The contact header's flags, as they are kept in `_conhead_this`.
unfoldable pub contact_flags : Session → ℕ
contact_flags s = if s.config.tls_enable then can_tls else 0

abbrev pub magic_head : List ℕ
magic_head = b'd' ∷ b't' ∷ b'n' ∷ b'!' ∷ []

unfoldable pub send_contact_header : Codec → Exec Session (Unit {0})
send_contact_header codec s = send_message codec (contact magic_head 4 (some (contact_flags s))) s

-- The message that `send_sess_init` sends and returns.
unfoldable pub own_sess_init : Session → SessionInit
own_sess_init s = record {
  keepalive = s.config.keepalive_time;
  segment_mru = s.config.segment_size_mru;
  transfer_mru = 2 ^ 64 - 1;
  nodeid_data = s.config.node_id;
  ext_items = if s.config.private_extensions then private_dummy critical ∷ [] else [];
}

-- The callers keep the payload in `_sessinit_this`, once the message is sent.
unfoldable pub send_sess_init : Codec → Exec Session (Unit {0})
send_sess_init codec s =
    (do
      send_message codec (sess_init (own_sess_init s))
      modify (set_msgr (λ m. record m { sessinit_this = some (own_sess_init s) })))
      s

-- `terminate`, with the reason that it has by default
unfoldable pub terminate : Codec → Option ℕ → Exec Session (Unit {0})
terminate codec none = send_sess_term codec term_unknown false
terminate codec (some reason) = send_sess_term codec reason false

-- `_keepalive_timeout`
unfoldable pub keepalive_timeout : Codec → Exec Session (Unit {0})
keepalive_timeout codec = send_message codec keepalive_msg

-- `_idle_timeout`
unfoldable pub idle_timeout : Codec → Exec Session (Unit {0})
idle_timeout codec = do modify idle_stop; send_sess_term codec term_idle_timeout false

unfoldable pub start : Codec → Exec Session (Unit {0})
start codec s =
    (do
      modify (
          set_msgr (λ m. record m {
            conhead_peer = none;
            conhead_this = none;
            in_conn = false;
            sessinit_peer = none;
            sessinit_this = none;
            in_sess = false;
            in_term = false;
          }))
      when (not s.conn.as_passive) (do
        send_contact_header codec
        modify (set_msgr (λ m. record m { conhead_this = some (contact_flags s) })))
      modify (update_state contact_negotiating))
      s

unfoldable pub send_xfer_data : Codec → ℕ → List ℕ → ℕ → List ExtItem → Exec Session (Unit {0})
send_xfer_data codec transfer_id content flg ext_items s =
    if not s.msgr.in_sess
    then raised runtime_error s
    else if not (is_empty ext_items) && not (has_flag flg seg_start)
    then raised runtime_error s
    else send_message codec
        (xfer_segment (record {
          flags = flg;
          transfer_id = transfer_id;
          ext_items = ext_items;
          content = content;
        }))
        s

unfoldable pub send_xfer_ack : Codec → ℕ → ℕ → ℕ → Exec Session (Unit {0})
send_xfer_ack codec transfer_id length flg s =
    if not s.msgr.in_sess
    then raised runtime_error s
    else send_message codec (xfer_ack flg transfer_id length) s

-- The guard that `Messenger.recv_sess_term` and `Messenger.recv_xfer_*` share.
unfoldable pub require_sess : Exec Session (Unit {0})
require_sess s = if s.msgr.in_sess then done tt s else raised (reject_error reject_unexpected) s
