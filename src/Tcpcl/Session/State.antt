-- ===== src/Tcpcl/Session/State.antt =====
-- The state of a `ContactHandler` of src/tcpcl/session.py, with what it inherits.
use dtn_demo_agent.Common.{ℕ, Bool, Option, List, ◌∷◌, String}
use dtn_demo_agent.Common.Int.{ℤ}
use dtn_demo_agent.Tcpcl.Packet.{Pkt, SessionInit}

-- config.Config: the fields that a session reads. `private_extensions` is the test mode of that name.
pub record Config : Type 0 where
  pub private_extensions : Bool
  pub tls_enable : Bool
  pub require_tls : Option Bool
  pub require_host_authn : Bool
  pub require_node_authn : Bool
  pub node_id : List ℕ
  pub keepalive_time : ℕ
  pub idle_time : ℕ
  pub segment_size_mru : ℕ
  pub segment_size_tx_initial : ℕ
  pub modulate_target_ack_time : Option ℕ

-- A socket is there or not, and so is a GLib source.
pub record Connection : Type 0 where
  pub as_passive : Bool
  pub peer_name : String
  pub s_notls : Bool
  pub s_tls : Bool
  pub avail_rx_notls_id : Bool
  pub avail_tx_notls_id : Bool
  pub avail_tx_notls_pend : Bool
  pub avail_rx_tls_id : Bool
  pub avail_tx_tls_id : Bool
  pub avail_tx_tls_pend : Bool
  pub tx_buf : List ℕ
  pub on_close : Bool

pub data SessState : Type 0 where
  connecting contact_negotiating session_negotiating established ending : SessState

-- What `match_id` answers: `None`, `False` or the matched name.
pub data Authn {ℓ} (A : Type ℓ) : Type ℓ where
  absent : Authn A
  mismatched : Authn A
  matched : A → Authn A

pub record SessParameters : Type 0 where
  pub peer_nodeid : List ℕ
  pub peer_dnsid : Option String
  pub peer_ipaddrid : String
  pub authn_nodeid : Authn (List ℕ)
  pub authn_dnsid : Authn String
  pub authn_ipaddrid : Authn String
  pub keepalive : ℕ
  pub peer_transfer_mru : ℕ
  pub peer_segment_mru : ℕ

-- A timer holds its interval in milliseconds. The two callbacks are set or not. The floating-point
-- errors of the segment size control are not kept: its result is an answer of `Env`.
pub record Messenger : Type 0 where
  pub state : SessState
  pub do_send_ack_inter : Bool
  pub do_send_ack_final : Bool
  pub keepalive_time : ℕ
  pub idle_time : ℕ
  pub send_segment_size_min : ℕ
  pub send_segment_size : ℕ
  pub segment_tx_times : List (ℕ × ℕ)
  pub segment_last_ack_len : Option ℕ
  pub keepalive_timer : Option ℕ
  pub idle_timer : Option ℕ
  pub conhead_peer : Option ℕ
  pub conhead_this : Option ℕ
  pub in_conn : Bool
  pub sessinit_peer : Option SessionInit
  pub sessinit_this : Option SessionInit
  pub sess_parameters : Option SessParameters
  pub in_sess : Bool
  pub in_sess_func : Bool
  pub in_term : Bool
  pub in_term_func : Bool
  pub tls_attempt : Bool
  pub rx_buf : List ℕ
  pub tx_buf : List ℕ

-- A bundle to send. A file is its octets and the read position.
pub record TxItem : Type 0 where
  pub total_length : Option ℕ
  pub ack_length : ℕ
  pub file : List ℕ
  pub position : ℕ

-- A bundle that is received; `object` tells two objects with the same transfer ID apart.
pub record RxItem : Type 0 where
  pub object : ℕ
  pub transfer_id : ℕ
  pub total_length : Option ℕ
  pub file : List ℕ

-- The items to send are shared by the queue, the set and the map, so these hold transfer IDs, and
-- `tx_items` the objects. An ID is given once, and it is the key of its item in `tx_map`.
pub record Handler : Type 0 where
  pub on_bus : Bool
  pub tx_next_id : ℕ
  pub tx_pend_start : List ℕ
  pub tx_pend_ack : List ℕ
  pub tx_map : List ℕ
  pub tx_items : ℕ → TxItem
  pub tx_tmp : Option ℕ
  pub tx_length : Option ℕ
  pub process_queue_pend : Bool
  pub rx_tmp : Option RxItem
  pub rx_bundles : List RxItem
  pub rx_map : List (ℕ × RxItem)
  pub rx_objects : ℕ

pub data FinishResult : Type 0 where
  success session_terminating unacknowledged : FinishResult

-- What the outside sees: packets given to the transmit buffer (the log line "TX"), D-Bus signals, and
-- calls of the callbacks that the agent sets.
pub data Event : Type 0 where
  tx : Pkt → Event
  session_state_changed : SessState → Event
  session_start session_terminate closed : Event
  send_bundle_started : ℕ → ℕ → Event
  send_bundle_intermediate : ℕ → ℕ → Event
  send_bundle_finished : ℕ → ℕ → FinishResult → Event
  recv_bundle_started : ℕ → Option ℕ → Event
  recv_bundle_intermediate : ℕ → ℕ → Event
  recv_bundle_finished : ℕ → ℕ → FinishResult → Event

-- The newest event is the first.
pub record Session : Type 0 where
  pub config : Config
  pub conn : Connection
  pub msgr : Messenger
  pub hdl : Handler
  pub events : List Event

-- The certificate of the peer: for each kind of alternative name, the names, if the extension is there.
pub record Cert : Type 0 where
  pub ip_addresses : Option (List String)
  pub dns_names : Option (List String)
  pub uris : Option (List (List ℕ))

-- The answers of the outside during one callback: the clock, the size that the floating-point control
-- computes (`none`: it divided by zero), whether the TLS context can be built and the handshake succeeds,
-- the peer's address and certificate, and how many octets a socket takes (`none`: an error).
pub record Env : Type 0 where
  pub now : ℕ
  pub next_seg_size : Option ℤ
  pub ssl_context : Bool
  pub do_handshake : Bool
  pub peer_addr : String
  pub peer_cert : Option Cert
  pub sock_send : List ℕ → Option ℕ

abbrev pub emit : Event → Session → Session
emit e s = record s { events = e ∷ s.events }

abbrev pub set_conn : (Connection → Connection) → Session → Session
set_conn f s = record s { conn = f s.conn }

abbrev pub set_msgr : (Messenger → Messenger) → Session → Session
set_msgr f s = record s { msgr = f s.msgr }

abbrev pub set_hdl : (Handler → Handler) → Session → Session
set_hdl f s = record s { hdl = f s.hdl }
