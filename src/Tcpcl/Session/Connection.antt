-- ===== src/Tcpcl/Session/Connection.antt =====
-- `Connection` of src/tcpcl/session.py without its buffers, and the timers of `Messenger`.
use dtn_demo_agent.Common.{
  ◌*◌, Bool, true, false, not, ◌||◌, ◌&&◌, none, some, ltb, is_none, is_empty, if◌then◌else◌,
}
use dtn_demo_agent.Common.Exec.{
  Exec, done, raised, type_error, attribute_error, ssl_error, value_error,
}
use dtn_demo_agent.Tcpcl.Session.State.{
  Session, Connection, SessState, Env, emit, set_conn, set_msgr, set_hdl, connecting,
  contact_negotiating, session_negotiating, established, ending, closed, session_state_changed,
}

unfoldable pub is_secure : Session → Bool
is_secure s = s.conn.s_tls

unfoldable pub unlisten_notls : Connection → Connection
unlisten_notls c = record c { avail_rx_notls_id = false; avail_tx_notls_id = false }

unfoldable pub unlisten_tls : Connection → Connection
unlisten_tls c = record c { avail_rx_tls_id = false; avail_tx_tls_id = false }

unfoldable pub keepalive_stop : Session → Session
keepalive_stop = set_msgr (λ m. record m { keepalive_timer = none })

unfoldable pub keepalive_reset : Session → Session
unfolding keepalive_stop
keepalive_reset s =
    set_msgr
      (λ m. record m {
        keepalive_timer = if ltb 0 m.keepalive_time then some (m.keepalive_time * 1000) else none;
      })
      (keepalive_stop s)

unfoldable pub idle_stop : Session → Session
idle_stop = set_msgr (λ m. record m { idle_timer = none })

unfoldable pub idle_reset : Session → Session
unfolding idle_stop
idle_reset s =
    set_msgr
      (λ m. record m { idle_timer = if ltb 0 m.idle_time then some (m.idle_time * 1000) else none })
      (idle_stop s)

-- `Connection.close`
unfoldable pub conn_close : Session → Session
unfolding unlisten_notls unlisten_tls
conn_close s =
    if not s.conn.s_notls
    then s
    else let s' =
        set_conn (λ c. record (unlisten_notls (unlisten_tls c)) { s_notls = false; s_tls = false })
          s in
      if s.conn.on_close then emit closed s' else s'

-- `ContactHandler.close`, over `Messenger.close`
unfoldable pub close : Session → Session
unfolding conn_close keepalive_stop idle_stop
close s = conn_close (keepalive_stop (idle_stop (set_hdl (λ h. record h { on_bus = false }) s)))

-- `config.get_ssl_context`, which raises if the configuration is wrong
unfoldable pub get_ssl_context : Env → Exec Session (Unit {0})
get_ssl_context env s = if env.ssl_context then done tt s else raised value_error s

-- `secure`; a failed handshake leaves the plain socket without listeners
unfoldable pub secure : Env → Exec Session (Unit {0})
unfolding unlisten_notls
secure env s =
    let s' = set_conn unlisten_notls s in
    if s.conn.s_tls
    then done tt s
    else if not s.conn.s_notls
    then raised attribute_error s'
    else if env.do_handshake
    then done tt (set_conn (λ c. record c { s_tls = true; avail_rx_tls_id = true }) s')
    else raised ssl_error s'

-- A watch of a socket that is closed cannot be made.
unfoldable pub send_ready : Exec Session (Unit {0})
send_ready s =
    if s.conn.s_tls
    then done tt (set_conn (λ c. record c { avail_tx_tls_id = true; avail_tx_tls_pend = true }) s)
    else if s.conn.avail_tx_notls_id || s.conn.s_notls
    then done tt
        (set_conn (λ c. record c { avail_tx_notls_id = true; avail_tx_notls_pend = true }) s)
    else raised type_error s

abbrev pub same_state : SessState → SessState → Bool
same_state connecting connecting = true
same_state contact_negotiating contact_negotiating = true
same_state session_negotiating session_negotiating = true
same_state established established = true
same_state ending ending = true
same_state a b = false

-- The D-Bus signal is bound to the change of state.
unfoldable pub update_state : SessState → Session → Session
update_state state s =
    if same_state s.msgr.state state
    then s
    else emit (session_state_changed state) (set_msgr (λ m. record m { state = state }) s)

-- `ContactHandler.is_sess_idle`, over `Messenger.is_sess_idle`
unfoldable pub is_sess_idle : Session → Bool
is_sess_idle s =
    is_empty s.msgr.rx_buf
    && is_empty s.msgr.tx_buf
    && is_none s.hdl.rx_tmp
    && is_none s.hdl.tx_tmp
    && is_empty s.hdl.tx_pend_start
    && is_empty s.hdl.tx_pend_ack

unfoldable pub check_sess_term : Session → Session
unfolding is_sess_idle close
check_sess_term s = if s.msgr.in_term && is_sess_idle s then close s else s
