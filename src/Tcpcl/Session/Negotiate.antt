-- ===== src/Tcpcl/Session/Negotiate.antt =====
-- The negotiation of a session in src/tcpcl/session.py: `match_id` and the merge of the parameters.
use dtn_demo_agent.Common.{
  ℕ, Bool, true, false, not, ◌||◌, ◌&&◌, Option, none, some, List, [], ◌∷◌, if◌then◌else◌, ◌==◌,
  min, String, str_eq,
}
use dtn_demo_agent.Common.Exec.{
  Exec, done, raised, modify, attribute_error, type_error, terminate_error, ◌>>=◌,
}
use dtn_demo_agent.Tcpcl.Packet.{SessionInit, can_tls, has_flag, term_contact_failure}
use dtn_demo_agent.Tcpcl.Session.State.{
  Session, Config, Env, Cert, Authn, absent, mismatched, matched, set_msgr,
}
use dtn_demo_agent.Tcpcl.Session.Connection.{keepalive_reset, idle_reset, is_secure}

-- `ref_id in cert_ids`
abbrev pub any_eq {ℓ} : {A : Type ℓ} → (A → A → Bool) → A → List A → Bool
any_eq eq a [] = false
any_eq eq a (x ∷ xs) = eq x a || any_eq eq a xs

unfoldable pub match_id {ℓ} : {A : Type ℓ} → (A → A → Bool) → Option A → Option (List A) → Authn A
match_id eq ref_id none = absent
match_id eq ref_id (some []) = absent
match_id eq none (some (x ∷ xs)) = mismatched
match_id eq (some r) (some (x ∷ xs)) = if any_eq eq r (x ∷ xs) then matched r else mismatched

abbrev pub octets_eq : List ℕ → List ℕ → Bool
octets_eq [] [] = true
octets_eq (x ∷ xs) (y ∷ ys) = x == y && octets_eq xs ys
octets_eq xs ys = false

abbrev pub is_absent {ℓ} : {A : Type ℓ} → Authn A → Bool
is_absent absent = true
is_absent mismatched = false
is_absent (matched a) = false

abbrev pub is_mismatched {ℓ} : {A : Type ℓ} → Authn A → Bool
is_mismatched absent = false
is_mismatched mismatched = true
is_mismatched (matched a) = false

pub record Identity : Type 0 where
  pub nodeid : Authn (List ℕ)
  pub dnsid : Authn String
  pub ipaddrid : Authn String

-- The name to authenticate: an active side that was not given an address has one.
unfoldable pub peer_dnsid : Env → Session → Option String
peer_dnsid env s =
    if s.conn.as_passive
    then none
    else if str_eq s.conn.peer_name env.peer_addr
    then none
    else some s.conn.peer_name

-- An empty name is no name to fail at.
abbrev pub is_given : Option String → Bool
is_given none = false
is_given (some d) = not (str_eq d "")

unfoldable pub is_refused : Config → Option String → Identity → Bool
is_refused config dnsid i =
    let any_fail =
      is_mismatched i.ipaddrid
      || (is_given dnsid && is_mismatched i.dnsid)
      || is_mismatched i.nodeid in
    let netname_absent = is_absent i.ipaddrid && is_absent i.dnsid in
    any_fail
    || (netname_absent && config.require_host_authn)
    || (is_absent i.nodeid && config.require_node_authn)

unfoldable pub cert_identity : Env → Option String → List ℕ → Cert → Identity
cert_identity env dnsid nodeid cert = record {
  nodeid = match_id octets_eq (some nodeid) cert.uris;
  dnsid = match_id str_eq dnsid cert.dns_names;
  ipaddrid = match_id str_eq (some env.peer_addr) cert.ip_addresses;
}

-- Without TLS nothing is authenticated, and nothing is required to be.
unfoldable pub authenticate : Env → List ℕ → Exec Session Identity
authenticate env nodeid s =
    if not (is_secure s)
    then done (record { nodeid = absent; dnsid = absent; ipaddrid = absent }) s
    else elim env.peer_cert [
      | none ↦ raised type_error s
      | some cert ↦
          let i = cert_identity env (peer_dnsid env s) nodeid cert in
          if is_refused s.config (peer_dnsid env s) i
          then raised (terminate_error term_contact_failure) s
          else done i s
    ]

-- The parameters that both sides agree on.
unfoldable pub adopt_params : Env → SessionInit → SessionInit → Identity → Session → Session
adopt_params env own peer i s =
    let s' = idle_reset (
      keepalive_reset (
        set_msgr
          (λ m. record m {
            keepalive_time = min own.keepalive peer.keepalive;
            idle_time = s.config.idle_time;
          })
          s)) in
    set_msgr
      (λ m. record m {
        send_segment_size = min s.config.segment_size_tx_initial peer.segment_mru;
        segment_tx_times = [];
        segment_last_ack_len = some 0;
        sess_parameters = some (record {
          peer_nodeid = peer.nodeid_data;
          peer_dnsid = peer_dnsid env s;
          peer_ipaddrid = env.peer_addr;
          authn_nodeid = i.nodeid;
          authn_dnsid = i.dnsid;
          authn_ipaddrid = i.ipaddrid;
          keepalive = min own.keepalive peer.keepalive;
          peer_transfer_mru = peer.transfer_mru;
          peer_segment_mru = peer.segment_mru;
        });
      })
      s'

-- `merge_session_params` for the peer's SESS_INIT; a closed socket has no peer name.
unfoldable pub merge_session_params : Env → SessionInit → Exec Session (Unit {0})
merge_session_params env peer s =
    if not (s.conn.s_tls || s.conn.s_notls)
    then raised attribute_error s
    else (do
      i ← authenticate env peer.nodeid_data
      elim s.msgr.sessinit_this [
        | none ↦ (λ t. raised attribute_error t)
        | some own ↦ modify (adopt_params env own peer i)
      ])
        s

-- `merge_contact_params`; a contact header that is not whole has no flags.
unfoldable pub merge_contact_params : Exec Session (Unit {0})
merge_contact_params s = elim s.msgr.conhead_this [
  | none ↦ raised attribute_error s
  | some this ↦ elim s.msgr.conhead_peer [
    | none ↦ raised attribute_error s
    | some peer ↦ done tt (
        set_msgr (λ m. record m { tls_attempt = has_flag this can_tls && has_flag peer can_tls }) s)
  ]
]
