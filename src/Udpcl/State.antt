-- ===== src/Udpcl/State.antt =====
-- The state of the `Agent` of src/udpcl/agent.py. Sockets, DTLS connections and timers are numbers, made
-- in order. A callback that GLib holds is the fact that it is there.
use dtn_demo_agent.Common.{ℕ, Bool, Option, List, [], ◌∷◌, ◌++◌, String}
use dtn_demo_agent.Udpcl.Value.{Value}
use dtn_demo_agent.Udpcl.Conversation.{Ip, Address, Conversation}

-- What the agent reads of its configuration. `multicast_ttl` is `multicast.ttl`.
pub record Config : Type 0 where
  pub dtls_enable_tx : Bool
  pub require_tls : Bool
  pub node_id : String
  pub default_tx_address : Option Address
  pub default_tx_port : Option ℕ
  pub mtu_default : Option ℕ
  pub multicast_ttl : Option ℕ

-- Answers of the outside: name resolution, whether a socket can be bound, whether a DTLS handshake
-- succeeds (in the server's role or not), and whether a datagram can be sent.
pub record Env : Type 0 where
  pub getaddrinfo : String → Option Ip
  pub bind_ok : Conversation → Bool
  pub handshake_ok : Conversation → Bool → Bool
  pub send_ok : List ℕ → Bool

pub record BundleItem : Type 0 where
  pub address : Address
  pub port : Option ℕ
  pub file : List ℕ
  pub local_address : Option Address
  pub local_port : Option ℕ
  pub transfer_id : Option ℕ
  pub total_length : Option ℕ
  pub sock_opts : List (ℕ × ℕ × ℕ)

pub record TransferKey : Type 0 where
  pub address : Address
  pub port : Option ℕ
  pub xfer_id : ℕ

-- `data` is `octets` here.
pub record Transfer (I : Type 0) : Type 0 where
  pub key : TransferKey
  pub total_length : ℕ
  pub total_valid : I
  pub valid : I
  pub octets : List ℕ

-- Probes that wait to be acknowledged
pub record Probes : Type 0 where
  pub timer : Option ℕ
  pub pids : List Value

pub record Metadata : Type 0 where
  pub address : Address
  pub port : Option ℕ
  pub local_address : Option Address
  pub local_port : Option ℕ

-- What the outside sees: D-Bus signals, datagrams, DTLS writes, socket options.
pub data Event : Type 0 where
  recv_bundle_finished : ℕ → Option ℕ → Metadata → Event
  send_bundle_started send_bundle_finished : ℕ → Option ℕ → Event
  polling_received : Value → Value → Address → Option ℕ → Event
  sent_plain : ℕ → Conversation → List ℕ → Event
  sent_dtls : ℕ → List ℕ → Event
  set_option : ℕ → ℕ × ℕ × ℕ → Event
  multicast_loop multicast_ttl : ℕ → Bool → ℕ → Event
  joined_group : ℕ → Address → Event
  socket_closed : ℕ → Event

pub record Agent (I : Type 0) : Type 0 where
  pub config : Config
  pub bindsocks : List (Conversation × ℕ)
  pub listen_plain : List ℕ
  pub plain_sock : List (Conversation × ℕ)
  pub dtls_prep : List (Conversation × ℕ)
  pub dtls_sess : List (Conversation × ℕ)
  pub tx_id : ℕ
  pub tx_queue : List BundleItem
  pub rx_fragments : List (TransferKey × Transfer I)
  pub rx_id : ℕ
  pub rx_queue : List (ℕ × BundleItem)
  pub pmtud_recv : List (Conversation × Probes)
  -- handles that were made so far
  pub next_sock : ℕ
  pub next_timer : ℕ
  -- callbacks of GLib: watches of DTLS connections, `_process_tx_queue`, timers
  pub dtls_watch : List (ℕ × Conversation)
  pub idle : ℕ
  pub timers : List (ℕ × Conversation)
  pub events : List Event

abbrev pub emit : {I : Type 0} → Event → Agent I → Agent I
emit e s = record s { events = s.events ++ e ∷ [] }
