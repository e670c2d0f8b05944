-- ===== src/Tcpcl/Session/Policy.antt =====
-- The security policy of src/tcpcl/session.py: what a session that goes on has been shown.
use dtn_demo_agent.Common.{
  ℕ, zero, suc, ◌+◌, length, ap, ◌∙◌, ◌≡◌, ◌⊎◌, inl, inr, Bool, true, false, Option, none, some,
  List, [], ◌∷◌, String, str_eq, arith, Bool-cases,
}
use dtn_demo_agent.Common.Exec.{Outcome, done, raised, final, continue, ◌>>◌}
use dtn_demo_agent.Tcpcl.Packet.{Codec}
use dtn_demo_agent.Tcpcl.Session.State.{Session, Env, Cert, absent, mismatched, matched, set_conn}
use dtn_demo_agent.Tcpcl.Session.Connection.{
  send_ready, keepalive_reset, idle_reset, unlisten_notls, is_secure, close, conn_close, secure,
  get_ssl_context, keepalive_stop, idle_stop,
}
use dtn_demo_agent.Tcpcl.Session.Transmit.{send_buffer_decreased, process_queue_trigger}
use dtn_demo_agent.Tcpcl.Session.Sending.{send_sess_init, send_message}
use dtn_demo_agent.Tcpcl.Session.Negotiate.{
  match_id, any_eq, octets_eq, Identity, authenticate, cert_identity, is_refused, peer_dnsid,
}
use dtn_demo_agent.Tcpcl.Session.Dispatch.{
  violates, send_raw, tx_fill, tx_flush, tx_proxy, avail_tx_notls, flush_tx, after_tls,
  after_handshake, finish_contact, attempt_tls,
}

-- Is the reference name among those that the certificate has?
abbrev pub Names {ℓ} : {A : Type ℓ} → (A → A → Bool) → Option (List A) → A → Type 0
Names eq none a = ⊥
Names eq (some xs) a = any_eq eq a xs ≡ true

-- A secured session that authentication lets pass, where the node must be authenticated, has a
-- certificate of the peer that names the node ID of its SESS_INIT.
pub authenticate_node :
    (env : Env) (nodeid : List ℕ) (s t : Session) (i : Identity) (cert : Cert)
    → s.conn.s_tls ≡ true
    → env.peer_cert ≡ some cert
    → s.config.require_node_authn ≡ true
    → authenticate env nodeid s ≡ done i t
    → (i.nodeid ≡ matched nodeid) × Names octets_eq cert.uris nodeid
unfolding authenticate is_secure cert_identity is_refused match_id
authenticate_node env nodeid s t i cert tls c req e = ground arith

-- A secured active side that looks for a host name, where the host must be authenticated, and that
-- authentication lets pass: the certificate names that host or the peer's address.
pub authenticate_host_active :
    (env : Env) (nodeid : List ℕ) (host : String) (s t : Session) (i : Identity) (cert : Cert)
    → s.conn.s_tls ≡ true
    → env.peer_cert ≡ some cert
    → s.config.require_host_authn ≡ true
    → peer_dnsid env s ≡ some host
    → str_eq host "" ≡ false
    → authenticate env nodeid s ≡ done i t
    → Names str_eq cert.dns_names host ⊎ Names str_eq cert.ip_addresses env.peer_addr
unfolding authenticate is_secure cert_identity is_refused match_id
authenticate_host_active env nodeid host s t i cert tls c req h ne e = ground arith

-- A passive side looks for no host name. A certificate whose alternative names are one or more DNS
-- names, and no address and no URI, is then taken for a host that is there, although nothing of it
-- matched: with TLS, and host authentication required but not node authentication, the session passes.
pub authenticate_host_passive :
    (env : Env) (nodeid : List ℕ) (name : String) (names : List String) (s : Session)
    → s.conn.s_tls ≡ true
    → s.conn.as_passive ≡ true
    → env.peer_cert
      ≡ some (record { ip_addresses = some []; dns_names = some (name ∷ names); uris = some [] })
    → s.config.require_host_authn ≡ true
    → s.config.require_node_authn ≡ false
    → authenticate env nodeid s
      ≡ done (record { nodeid = absent; dnsid = mismatched; ipaddrid = absent }) s
unfolding authenticate is_secure cert_identity is_refused match_id peer_dnsid
authenticate_host_passive env nodeid name names s tls p c req n = ground arith

-- The socket is closed, or it is secured exactly if `r` says so.
abbrev pub Obeys : Bool → Session → Type 0
Obeys r t = (t.conn.s_notls ≡ false) ⊎ (t.conn.s_tls ≡ r)

close_lem : (s : Session) → (close s).conn.s_notls ≡ false
unfolding close conn_close keepalive_stop idle_stop
close_lem s = ground arith

after_tls-Obeys :
    (codec : Codec) (r : Bool) (s t : Session)
    → s.config.require_tls ≡ some r
    → after_tls codec s ≡ done tt t
    → Obeys r t
unfolding after_tls is_secure send_sess_init send_message send_ready keepalive_reset idle_reset
after_tls-Obeys codec r s t p e = ground (arith, close_lem s)

tx_flush-config :
    (sock_send : List ℕ → Option ℕ) (b : Bool) (s : Session)
    → (tx_flush sock_send b s).1.config ≡ s.config
unfolding tx_flush close conn_close keepalive_stop idle_stop
tx_flush-config sock_send b s = ground arith

tx_fill-config : (s : Session) → (tx_fill s).1.config ≡ s.config
unfolding tx_fill send_raw send_buffer_decreased process_queue_trigger
tx_fill-config s = ground arith

avail_tx_notls-config :
    (sock_send : List ℕ → Option ℕ) (s : Session) → (avail_tx_notls sock_send s).1.config ≡ s.config
unfolding avail_tx_notls tx_proxy
avail_tx_notls-config sock_send s =
    let s' = set_conn (λ c. record c { avail_tx_notls_pend = false }) s in
    ground (arith, tx_flush-config sock_send (tx_fill s').0 (tx_fill s').1, tx_fill-config s')

flush_tx-config :
    (fuel : ℕ) (sock_send : List ℕ → Option ℕ) (s : Session)
    → (final (flush_tx fuel sock_send s)).config ≡ s.config
unfolding flush_tx
flush_tx-config zero sock_send s = ground arith
flush_tx-config (suc fuel) sock_send s = ground (
  arith,
  flush_tx-config fuel sock_send (avail_tx_notls sock_send s).1,
  avail_tx_notls-config sock_send s,
)

secured-Obeys :
    (codec : Codec) (env : Env) (r : Bool) (s t : Session)
    → s.config.require_tls ≡ some r
    → after_handshake codec (continue (get_ssl_context env s) (λ _. secure env)) ≡ done tt t
    → Obeys r t
unfolding after_handshake get_ssl_context secure unlisten_notls
secured-Obeys codec env r s t p e =
    let u = set_conn unlisten_notls s in
    let v = set_conn (λ c. record c { s_tls = true; avail_rx_tls_id = true }) u in
    ground (arith, after_tls-Obeys codec r s t p, after_tls-Obeys codec r v t p, close_lem u)

flushed-Obeys :
    (codec : Codec) (env : Env) (r : Bool) (t : Session) (o : Outcome Session (Unit {0}))
    → (final o).config.require_tls ≡ some r
    → continue o (λ _ u. after_handshake codec ((get_ssl_context env >> secure env) u)) ≡ done tt t
    → Obeys r t
flushed-Obeys codec env r t (done _ u) p e = secured-Obeys codec env r u t p e
flushed-Obeys codec env r t (raised x u) p e = cc

attempt_tls-Obeys :
    (codec : Codec) (env : Env) (r : Bool) (s t : Session)
    → s.config.require_tls ≡ some r
    → attempt_tls codec env s ≡ done tt t
    → Obeys r t
unfolding attempt_tls
attempt_tls-Obeys codec env r s t p e =
    let fuel = length s.conn.tx_buf + length s.msgr.tx_buf in
    flushed-Obeys codec env r t (flush_tx fuel env.sock_send s)
      (ap (λ c. c.require_tls) (flush_tx-config fuel env.sock_send s) ∙ p) e

-- Where the configuration requires TLS or forbids it, the negotiation after a contact header ends,
-- if it raises nothing, with the plain socket closed, or with the connection secured exactly if TLS
-- is required.
pub finish_contact-Obeys :
    (codec : Codec) (env : Env) (r : Bool) (s t : Session)
    → s.config.require_tls ≡ some r
    → finish_contact codec env s ≡ done tt t
    → Obeys r t
unfolding finish_contact
finish_contact-Obeys codec env r s t p e =
    elim (Bool-cases (violates s.config.require_tls s.msgr.tls_attempt)) [
      | inl v ↦ ground (arith, close_lem s)
      | inr v ↦ ground (arith, attempt_tls-Obeys codec env r s t p, after_tls-Obeys codec r s t p)
    ]
