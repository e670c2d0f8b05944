-- ===== src/Udpcl/Receive.antt =====
-- What src/udpcl/agent.py does with a datagram.
pub mod Sound
pub mod Tables
pub mod Assembly
pub mod Policy
pub mod Ends
pub mod Downgrade
use dtn_demo_agent.Common.{
  ℕ, zero, suc, ◌+◌, ◌-◌, ◌/◌, Bool, true, false, not, ◌&&◌, ◌||◌, Option, none, some, List, [],
  ◌∷◌, String, ◌==◌, length, take, is_none, is_some, contains, if◌then◌else◌,
}
use dtn_demo_agent.Common.Exec.{
  Exec, Outcome, done, raised, throw, pure, get, modify, when, continue, ◌>>=◌, ◌>>◌, type_error,
  value_error, decode_error, stuck,
}
use dtn_demo_agent.Common.Nth.{splice}
use dtn_demo_agent.Common.Portion.{Portion, zeros}
use dtn_demo_agent.Udpcl.Value.{
  Value, uint, nint, bstr, tstr, dict, entry, end, Entries, array, cons, nil, Cbor2, key_value,
  ext_get, transfer, sender_listen, sender_nodeid, starttls, pmtud_probe, pmtud_ack,
}
use dtn_demo_agent.Udpcl.Conversation.{
  Ip, Address, Conversation, addr_str, numeric, conv_get, conv_set, same_address, same_opt,
}
use dtn_demo_agent.Udpcl.State.{
  Config, Env, BundleItem, TransferKey, Transfer, Agent, emit, polling_received,
}
use dtn_demo_agent.Udpcl.Queue.{add_rx_item, add_tx_item, message, received_item}
use dtn_demo_agent.Udpcl.Starttls.{start_tls}
use dtn_demo_agent.Udpcl.Pmtud.{pmtud_recv_probe}

abbrev pub same_key : TransferKey → TransferKey → Bool
same_key a b =
    same_address a.address b.address && (same_opt ◌==◌ a.port b.port && a.xfer_id == b.xfer_id)

-- The table of transfers
module _ {V : Type 0} where
  abbrev pub key_get : TransferKey → List (TransferKey × V) → Option V
  key_get k [] = none
  key_get k ((j, v) ∷ m) = if same_key j k then some v else key_get k m

  abbrev pub key_set : TransferKey → V → List (TransferKey × V) → List (TransferKey × V)
  key_set k v [] = (k, v) ∷ []
  key_set k v ((j, w) ∷ m) = if same_key j k then (j, v) ∷ m else (j, w) ∷ key_set k v m

  abbrev pub key_del : TransferKey → List (TransferKey × V) → List (TransferKey × V)
  key_del k [] = []
  key_del k ((j, w) ∷ m) = if same_key j k then m else (j, w) ∷ key_del k m

-- The items of a fragment: the number and the length of the transfer, the offset, and the data.
unfoldable pub transfer_items : Value → Option (ℕ × ℕ × ℕ × List ℕ)
transfer_items
      (array (cons (uint i) (cons (uint total) (cons (uint off) (cons (bstr octets) nil))))) =
    some (i, total, off, octets)
transfer_items _ = none

unfoldable pub as_dict : Value → Option Entries
as_dict (dict m) = some m
as_dict _ = none

-- `int(value)`
abbrev pub is_int : Value → Bool
is_int (uint n) = true
is_int (nint n) = true
is_int _ = false

abbrev pub or_empty : Option Value → Value
or_empty none = tstr ""
or_empty (some v) = v

-- `sock` is there for a plain datagram only: what is not secured.
abbrev pub rejects : Option ℕ → Bool → Bool
rejects sock require_tls = is_some sock && require_tls

abbrev local_text : Option Ip → Option Address
local_text none = none
local_text (some a) = some (numeric a)

-- The answer to `SENDER_LISTEN`
unfoldable pub listen_answer : Cbor2 → Conversation → Config → BundleItem
listen_answer cbor conv config =
    record (message (addr_str conv.peer_address) conv.peer_port
      (cbor.dumps (dict (entry (key_value sender_nodeid) (tstr config.node_id) end))) []) {
        local_address = local_text conv.local_address;
        local_port = conv.local_port;
      }

abbrev is_dtls : ℕ → Bool
is_dtls b = contains b (20 ∷ 21 ∷ 22 ∷ 23 ∷ [])

-- What a message is, by its first octet: padding, a DTLS record, a bundle of version 6 or 7, an extension
-- map, or none of these.
pub data Kind : Type 0 where
  padding handshake bpv6 bundle extension unknown : Kind

unfoldable pub message_kind : ℕ → Kind
message_kind b =
    if b == 0
    then padding
    else if is_dtls b
    then handshake
    else if b == 6
    then bpv6
    else if b / 32 == 4
    then bundle
    else if b / 32 == 5
    then extension
    else unknown

module _ (portion : Portion) where
  unfoldable pub new_transfer : TransferKey → ℕ → Transfer portion.Interval
  new_transfer key total = record {
    key = key;
    total_length = total;
    total_valid = portion.closedopen 0 total;
    valid = portion.empty;
    octets = zeros total;
  }

  -- A fragment that is written. A slice past the end grows the data.
  unfoldable pub add_fragment : ℕ → List ℕ → Transfer portion.Interval → Transfer portion.Interval
  add_fragment frag_offset frag_data x = record x {
    octets = splice frag_offset frag_data x.octets;
    valid = portion.union x.valid (portion.closedopen frag_offset (frag_offset + length frag_data));
  }

  -- A transfer with a fragment more: it is kept, or it is complete and becomes a bundle.
  unfoldable pub settle_transfer :
      Transfer portion.Interval → Agent portion.Interval → Agent portion.Interval
  unfolding add_rx_item
  settle_transfer x s =
      if portion.equal x.valid x.total_valid
      then add_rx_item (received_item x.key.address x.key.port x.octets x.total_length)
          (record s { rx_fragments = key_del x.key s.rx_fragments })
      else record s { rx_fragments = key_set x.key x s.rx_fragments }

  unfoldable pub recv_fragment :
      TransferKey → ℕ → ℕ → List ℕ → Exec (Agent portion.Interval) (Unit {0})
  unfolding new_transfer add_fragment settle_transfer
  recv_fragment key total frag_offset frag_data s = elim (key_get key s.rx_fragments) [
    | none ↦
        done tt (settle_transfer (add_fragment frag_offset frag_data (new_transfer key total)) s)
    | some x ↦
        if x.total_length == total
        then done tt (settle_transfer (add_fragment frag_offset frag_data x) s)
        else raised value_error s
  ]

  -- `TRANSFER`: an array of the four items. Other items raise.
  unfoldable pub recv_transfer : Conversation → Value → Exec (Agent portion.Interval) (Unit {0})
  unfolding recv_fragment transfer_items
  recv_transfer conv v = elim (transfer_items v) [
    | none ↦ throw type_error
    | some (i, total, off, octets) ↦
        recv_fragment
          (record { address = addr_str conv.peer_address; port = conv.peer_port; xfer_id = i })
          total off octets
  ]

  -- `SENDER_LISTEN`: the answer, and the signal.
  unfoldable pub recv_listen :
      Cbor2 → Conversation → Value → Value → Exec (Agent portion.Interval) (Unit {0})
  unfolding add_tx_item listen_answer
  recv_listen cbor conv interval_ms node_id =
      if is_int interval_ms
      then (do
        s ← get
        _ ← add_tx_item (listen_answer cbor conv s.config) false
        modify (
            emit
              (polling_received interval_ms node_id (addr_str conv.peer_address) conv.peer_port)))
      else throw type_error

  -- `if key in extmap`
  abbrev pub on_key :
      Option Value
      → (Value → Exec (Agent portion.Interval) (Unit {0}))
      → Exec (Agent portion.Interval) (Unit {0})
  on_key none f = pure tt
  on_key (some v) f = f v

  -- The part of `_recv_ext_map` after the guard
  unfoldable pub recv_extensions :
      Cbor2 → Conversation → Entries → Exec (Agent portion.Interval) (Unit {0})
  unfolding recv_transfer recv_listen pmtud_recv_probe
  recv_extensions cbor conv extmap = do
    on_key (ext_get sender_listen extmap)
        (λ v. recv_listen cbor conv v (or_empty (ext_get sender_nodeid extmap)))
    on_key (ext_get transfer extmap) (recv_transfer conv)
    on_key (ext_get pmtud_probe extmap) (pmtud_recv_probe conv)

  unfoldable pub serve_tls :
      Env → Option ℕ → Conversation → Exec (Agent portion.Interval) (Unit {0})
  unfolding start_tls
  serve_tls env none conv = pure tt
  serve_tls env (some sock) conv = do _ ← start_tls env conv sock true; pure tt

  unfoldable pub recv_ext_map :
      Cbor2 → Env → Option ℕ → Conversation → Entries → Exec (Agent portion.Interval) (Unit {0})
  unfolding recv_extensions serve_tls
  recv_ext_map cbor env sock conv extmap s =
      if is_some (ext_get starttls extmap)
      then (do serve_tls env sock conv; recv_extensions cbor conv extmap) s
      else if rejects sock s.config.require_tls
      then done tt s
      else recv_extensions cbor conv extmap s

  unfoldable pub recv_item :
      Cbor2
      → Env
      → Option ℕ
      → Conversation
      → Bool
      → List ℕ
      → Value
      → List ℕ
      → Exec (Agent portion.Interval) (Unit {0})
  unfolding add_rx_item as_dict recv_ext_map
  recv_item cbor env sock conv true buf v rest =
      let msg_data = take (length buf - length rest) buf in
      modify (
        add_rx_item
          (received_item (addr_str conv.peer_address) conv.peer_port msg_data (length msg_data)))
  recv_item cbor env sock conv false buf v rest = elim (as_dict v) [
    | none ↦ throw type_error
    | some extmap ↦ recv_ext_map cbor env sock conv extmap
  ]

  -- The item at the start of the buffer is read, and then the rest of the buffer.
  unfoldable pub read_item :
      Cbor2
      → Env
      → Option ℕ
      → Conversation
      → Bool
      → List ℕ
      → (List ℕ → Exec (Agent portion.Interval) (Unit {0}))
      → Exec (Agent portion.Interval) (Unit {0})
  unfolding recv_item
  read_item cbor env sock conv is_bundle buf read_rest = elim (cbor.load buf) [
    | none ↦ throw decode_error
    | some (v, rest) ↦ (do recv_item cbor env sock conv is_bundle buf v rest; read_rest rest)
  ]

  unfoldable pub handle_message :
      Kind
      → Cbor2
      → Env
      → Option ℕ
      → Conversation
      → List ℕ
      → (List ℕ → Exec (Agent portion.Interval) (Unit {0}))
      → Exec (Agent portion.Interval) (Unit {0})
  unfolding serve_tls read_item
  handle_message padding cbor env sock conv buf read_rest s = done tt s
  handle_message handshake cbor env sock conv buf read_rest s = serve_tls env sock conv s
  handle_message bpv6 cbor env sock conv buf read_rest s = done tt s
  handle_message bundle cbor env sock conv buf read_rest s =
      if rejects sock s.config.require_tls
      then done tt s
      else read_item cbor env sock conv true buf read_rest s
  handle_message extension cbor env sock conv buf read_rest s =
      read_item cbor env sock conv false buf read_rest s
  handle_message unknown cbor env sock conv buf read_rest s = done tt s

  -- The loop of `_recv_datagram`, on fuel. The list is what is left of the buffer.
  unfoldable pub recv_messages :
      Cbor2 → Env → Option ℕ → Conversation → ℕ → List ℕ → Exec (Agent portion.Interval) (Unit {0})
  unfolding message_kind handle_message
  recv_messages cbor env sock conv fuel [] s = done tt s
  recv_messages cbor env sock conv zero (b ∷ bs) s = raised stuck s
  recv_messages cbor env sock conv (suc fuel) (b ∷ bs) s =
      handle_message (message_kind b) cbor env sock conv (b ∷ bs)
        (λ rest t. recv_messages cbor env sock conv fuel rest t) s

  -- Each message takes an octet or more, so that the length is enough fuel.
  unfoldable pub recv_datagram :
      Cbor2 → Env → Option ℕ → List ℕ → Conversation → Exec (Agent portion.Interval) (Unit {0})
  unfolding recv_messages
  recv_datagram cbor env sock octets conv = recv_messages cbor env sock conv (length octets) octets

  -- `_sock_recvfrom`, of a datagram with the addresses of both sides
  unfoldable pub sock_recvfrom :
      Cbor2 → Env → ℕ → List ℕ → Conversation → Exec (Agent portion.Interval) Bool
  unfolding recv_datagram
  sock_recvfrom cbor env sock octets conv s =
      if is_some (conv_get conv s.dtls_prep) || is_some (conv_get conv s.dtls_sess)
      then done true s
      else (do
        modify (λ t. record t { plain_sock = conv_set conv sock t.plain_sock })
        recv_datagram cbor env (some sock) octets conv
        pure true)
          s

  -- `_dtlsconn_recv`
  unfoldable pub dtlsconn_recv :
      Cbor2 → Env → List ℕ → Conversation → Exec (Agent portion.Interval) Bool
  unfolding recv_datagram
  dtlsconn_recv cbor env octets conv = do recv_datagram cbor env none octets conv; pure true
