-- ===== src/Tcpcl/Session/Dispatch.antt =====
-- The octet streams of src/tcpcl/session.py: what a received message does, and the two buffers.
use dtn_demo_agent.Common.{
  ℕ, zero, suc, ◌+◌, Bool, true, false, not, ◌||◌, Option, none, some, List, [], ◌∷◌, ◌++◌,
  if◌then◌else◌, ◌==◌, length, take, drop, is_empty, ltb,
}
use dtn_demo_agent.Common.Exec.{
  Exec, Outcome, done, raised, pure, throw, modify, get, when, value_error, decode_error, stuck,
  ssl_error, attribute_error, reject_error, terminate_error, ◌>>=◌, ◌>>◌,
}
use dtn_demo_agent.Tcpcl.Packet.{
  Pkt, Codec, SessionInit, contact, xfer_segment, xfer_ack, xfer_refuse, keepalive_msg, sess_term,
  reject_msg, sess_init, packet, partial, failed,
}
use dtn_demo_agent.Tcpcl.Session.State.{
  Session, Env, emit, set_conn, set_msgr, session_start, session_negotiating, established,
}
use dtn_demo_agent.Tcpcl.Session.Connection.{
  is_secure, close, secure, get_ssl_context, update_state, idle_reset,
}
use dtn_demo_agent.Tcpcl.Session.Sending.{
  magic_head, contact_flags, send_contact_header, send_sess_init, send_reject, send_sess_term,
}
use dtn_demo_agent.Tcpcl.Session.Negotiate.{octets_eq, merge_contact_params, merge_session_params}
use dtn_demo_agent.Tcpcl.Session.Transmit.{recv_xfer_ack, send_buffer_decreased}
use dtn_demo_agent.Tcpcl.Session.Receive.{recv_xfer_data, recv_sess_term}

abbrev pub chunk_size : ℕ
chunk_size = 10240

-- `send_raw`: the front of the message buffer
unfoldable pub send_raw : ℕ → Session → List ℕ × Session
send_raw size s =
    let chunk = take size s.msgr.tx_buf in
    let rest = drop (length chunk) s.msgr.tx_buf in
    (chunk, send_buffer_decreased (length rest) (set_msgr (λ m. record m { tx_buf = rest }) s))

-- The first half of `_tx_proxy`: the connection's buffer is filled up, and it is told whether the
-- messages were empty.
unfoldable pub tx_fill : Session → Bool × Session
tx_fill s =
    let (chunk, s') = send_raw chunk_size s in
    if ltb (length s.conn.tx_buf) chunk_size
    then (is_empty chunk, set_conn (λ c. record c { tx_buf = c.tx_buf ++ chunk }) s')
    else (false, s)

-- The second half: one chunk goes to the socket. A refusal, or a send of nothing, closes.
unfoldable pub tx_flush : (List ℕ → Option ℕ) → Bool → Session → Bool × Session
tx_flush sock_send up_empty s =
    if is_empty s.conn.tx_buf
    then (not up_empty, s)
    else elim (sock_send (take chunk_size s.conn.tx_buf)) [
      | none ↦ (false, close s)
      | some zero ↦ (false, close s)
      | some (suc n) ↦
          let rest = drop (suc n) s.conn.tx_buf in
          (not (is_empty rest) || not up_empty, set_conn (λ c. record c { tx_buf = rest }) s)
    ]

unfoldable pub tx_proxy : (List ℕ → Option ℕ) → Session → Bool × Session
tx_proxy sock_send s = let (up_empty, s') = tx_fill s in tx_flush sock_send up_empty s'

unfoldable pub avail_tx_notls : (List ℕ → Option ℕ) → Session → Bool × Session
avail_tx_notls sock_send s =
    let s' = set_conn (λ c. record c { avail_tx_notls_pend = false }) s in
    let (cont, t) = tx_proxy sock_send s' in
    if s.conn.s_tls || not s.conn.s_notls
    then (false, s')
    else (cont, if cont then t else set_conn (λ c. record c { avail_tx_notls_id = false }) t)

unfoldable pub avail_tx_tls : (List ℕ → Option ℕ) → Session → Bool × Session
avail_tx_tls sock_send s =
    let s' = set_conn (λ c. record c { avail_tx_tls_pend = false }) s in
    let (cont, t) = tx_proxy sock_send s' in
    if not s.conn.s_tls
    then (false, s')
    else (cont, if cont then t else set_conn (λ c. record c { avail_tx_tls_id = false }) t)

-- `while self.__tx_buf: self._avail_tx_notls()`
unfoldable pub flush_tx : ℕ → (List ℕ → Option ℕ) → Exec Session (Unit {0})
flush_tx zero sock_send s = if is_empty s.msgr.tx_buf then done tt s else raised stuck s
flush_tx (suc fuel) sock_send s =
    let rest = flush_tx fuel sock_send (avail_tx_notls sock_send s).1 in
    if is_empty s.msgr.tx_buf then done tt s else rest

-- Is there a policy, and does the state differ from it?
abbrev pub violates : Option Bool → Bool → Bool
violates none b = false
violates (some r) b = if r then not b else b

-- From the handshake on: the policy is checked, and the active side begins the session.
unfoldable pub after_tls : Codec → Exec Session (Unit {0})
after_tls codec s =
    if violates s.config.require_tls (is_secure s)
    then done tt (close s)
    else when (not s.conn.as_passive) (send_sess_init codec) s

-- An `ssl.SSLError` of the handshake closes, and other exceptions go on.
unfoldable pub after_handshake : Codec → Outcome Session (Unit {0}) → Outcome Session (Unit {0})
after_handshake codec (done _ s) = after_tls codec s
after_handshake codec (raised ssl_error s) = done tt (close s)
after_handshake codec (raised e s) = raised e s

unfoldable pub attempt_tls : Codec → Env → Exec Session (Unit {0})
attempt_tls codec env = do
  s ← get
  flush_tx (length s.conn.tx_buf + length s.msgr.tx_buf) env.sock_send
  λ t. after_handshake codec ((get_ssl_context env >> secure env) t)

-- After the merge: the policy is checked before TLS is tried.
unfoldable pub finish_contact : Codec → Env → Exec Session (Unit {0})
finish_contact codec env s =
    if violates s.config.require_tls s.msgr.tls_attempt
    then done tt (close s)
    else if s.msgr.tls_attempt
    then attempt_tls codec env s
    else after_tls codec s

-- `recv_message` of a contact header
unfoldable pub recv_contact : Codec → Env → List ℕ → ℕ → Option ℕ → Exec Session (Unit {0})
recv_contact codec env magic version flags = do
  when (not (octets_eq magic magic_head)) (throw value_error)
  when (not (version == 4)) (throw value_error)
  s ← get
  when s.conn.as_passive (do
    send_contact_header codec
    modify (set_msgr (λ m. record m { conhead_this = some (contact_flags s) })))
  modify (set_msgr (λ m. record m { conhead_peer = flags }))
  merge_contact_params
  modify (set_msgr (λ m. record m { in_conn = true }))
  modify (update_state session_negotiating)
  finish_contact codec env

-- The SESS_INIT branch of `recv_message`
unfoldable pub recv_sess_init : Codec → Env → SessionInit → Exec Session (Unit {0})
recv_sess_init codec env peer = do
  s ← get
  when s.conn.as_passive (send_sess_init codec)
  modify (set_msgr (λ m. record m { sessinit_peer = some peer; in_sess = true }))
  merge_session_params env peer
  modify (update_state established)
  modify (λ t. if t.msgr.in_sess_func then emit session_start t else t)

-- The branches under the `try` of `recv_message`. XFER_REFUSE has no field `flags`, which the call of
-- its handler reads.
unfoldable pub recv_body : Codec → Env → Pkt → Exec Session (Unit {0})
recv_body codec env (contact magic version flags) = recv_contact codec env magic version flags
recv_body codec env (sess_init peer) = recv_sess_init codec env peer
recv_body codec env (sess_term flags reason) = do
  s ← get
  when (not s.msgr.in_term) (send_sess_term codec reason true)
  recv_sess_term
recv_body codec env keepalive_msg = pure tt
recv_body codec env (reject_msg rej_msg_id reason) = pure tt
recv_body codec env (xfer_segment x) = recv_xfer_data codec x.transfer_id x.flags x.content
recv_body codec env (xfer_ack flags transfer_id acked) = recv_xfer_ack env transfer_id flags acked
recv_body codec env (xfer_refuse reason transfer_id) = throw attribute_error

-- The `except` clauses: a rejection and a termination are sent, other exceptions go on.
unfoldable pub except_clauses :
    Codec → Pkt → Outcome Session (Unit {0}) → Outcome Session (Unit {0})
except_clauses codec pkt (done _ s) = done tt s
except_clauses codec pkt (raised (reject_error reason) s) = send_reject codec reason pkt s
except_clauses codec pkt (raised (terminate_error reason) s) = send_sess_term codec reason false s
except_clauses codec pkt (raised e s) = raised e s

-- A contact header is handled outside the `try`, and raises none of the two exceptions.
unfoldable pub recv_message : Codec → Env → Pkt → Exec Session (Unit {0})
recv_message codec env pkt s = except_clauses codec pkt (recv_body codec env pkt s)

-- The `while` of `recv_raw`. Each packet takes octets, so the length of the buffer is enough fuel.
unfoldable pub recv_loop : Codec → Env → ℕ → Exec Session (Unit {0})
recv_loop codec env zero s = if is_empty s.msgr.rx_buf then done tt s else raised stuck s
recv_loop codec env (suc fuel) s =
    if is_empty s.msgr.rx_buf then done tt s else elim (codec.decode s.msgr.in_conn s.msgr.rx_buf) [
      | partial ↦ done tt s
      | failed ↦ raised decode_error s
      | packet pkt ↦
          (do
            modify (set_msgr (λ m. record m { rx_buf = drop (length (codec.encode pkt)) m.rx_buf }))
            recv_message codec env pkt
            recv_loop codec env fuel)
            s
    ]

unfoldable pub recv_raw : Codec → Env → List ℕ → Exec Session (Unit {0})
recv_raw codec env octets = do
  modify idle_reset
  modify (set_msgr (λ m. record m { rx_buf = m.rx_buf ++ octets }))
  s ← get
  recv_loop codec env (length s.msgr.rx_buf)

-- `_rx_proxy`: a socket that would block (`none`) is tried again, and nothing received is the end.
unfoldable pub rx_proxy : Codec → Env → Option (List ℕ) → Exec Session Bool
rx_proxy codec env none = pure true
rx_proxy codec env (some []) = do modify close; pure false
rx_proxy codec env (some (b ∷ bs)) = do recv_raw codec env (b ∷ bs); pure true
