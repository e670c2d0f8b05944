-- ===== src/Udpcl/Send.antt =====
-- `_send_transfer` and `_process_tx_queue` of src/udpcl/agent.py.
pub mod Loop
pub mod Bounds
pub mod Order
pub mod Ends
use dtn_demo_agent.Common.{
  ℕ, zero, suc, ◌+◌, ◌-◌, Bool, true, false, not, Option, none, some, List, [], ◌∷◌, ◌++◌, length,
  take, drop, ltb, is_empty, if◌then◌else◌,
}
use dtn_demo_agent.Common.Exec.{
  Exec, Outcome, done, raised, throw, pure, get, modify, when, ◌>>=◌, ◌>>◌, attribute_error,
  os_error, stuck,
}
use dtn_demo_agent.Udpcl.Value.{
  Value, uint, null, dict, entry, end, Cbor2, transfer_map, key_value, starttls,
}
use dtn_demo_agent.Udpcl.Conversation.{Ip, Address, Conversation, conv_get, is_multicast, is_ipv4}
use dtn_demo_agent.Udpcl.State.{
  Config, Env, BundleItem, Event, Agent, emit, sent_plain, sent_dtls, set_option, multicast_loop,
  multicast_ttl, send_bundle_started, send_bundle_finished,
}
use dtn_demo_agent.Udpcl.Queue.{addr_from_str, given_text, given_port, first_of}
use dtn_demo_agent.Udpcl.Starttls.{start_tls, plain_socket, listen_on}

-- The room for data in a fragment. Where it is 0, or negative in the code, the loop does not end.
unfoldable pub remain_size : Cbor2 → ℕ → ℕ → ℕ → ℕ
remain_size cbor mtu transfer_id total_length =
    let ext_base_encsize =
      length (cbor.dumps (transfer_map transfer_id total_length total_length [])) in
    let data_size_encsize = length (cbor.dumps (uint total_length)) in
    (mtu + 1) - (ext_base_encsize + data_size_encsize)

-- The loop of `_send_transfer`, on fuel; `none` is a loop that has not ended.
unfoldable pub fragment_loop : Cbor2 → ℕ → ℕ → List ℕ → ℕ → ℕ → ℕ → Option (List (List ℕ))
fragment_loop cbor transfer_id total_length content remain zero frag_offset =
    if ltb frag_offset (length content) then none else some []
fragment_loop cbor transfer_id total_length content remain (suc fuel) frag_offset =
    let rest =
      fragment_loop cbor transfer_id total_length content remain fuel (frag_offset + remain) in
    if ltb frag_offset (length content)
    then elim rest [
      | none ↦ none
      | some segments ↦ some (
          cbor.dumps (
            transfer_map transfer_id total_length frag_offset
              (take remain (drop frag_offset content)))
          ∷ segments)
    ]
    else some []

-- The segments of an item. Each round but the last takes an octet or more, so that the length is
-- enough fuel.
unfoldable pub send_segments : Cbor2 → Option ℕ → ℕ → ℕ → List ℕ → Option (List (List ℕ))
unfolding remain_size fragment_loop
send_segments cbor none transfer_id total_length content = some (content ∷ [])
send_segments cbor (some mtu) transfer_id total_length content =
    if ltb (length content) mtu
    then some (content ∷ [])
    else fragment_loop cbor transfer_id total_length content
        (remain_size cbor mtu transfer_id total_length) (length content) 0

-- A function that sends one datagram: over a socket, or a DTLS connection.
pub data Sender : Type 0 where
  plain : ℕ → Sender
  dtls : ℕ → Sender

abbrev pub sent : Sender → Conversation → List ℕ → Event
sent (plain sock) conv octets = sent_plain sock conv octets
sent (dtls conn) conv octets = sent_dtls conn octets

-- The source address of an item, or the default one.
abbrev pub source_text : Config → BundleItem → Option Address
source_text config item = first_of (given_text item.local_address) config.default_tx_address

module _ {I : Type 0} where
  unfoldable pub send_datagram : Env → Sender → Conversation → List ℕ → Exec (Agent I) (Unit {0})
  send_datagram env sender conv octets s =
      if env.send_ok octets then done tt (emit (sent sender conv octets) s) else raised os_error s

  unfoldable pub send_all : Env → Sender → Conversation → List (List ℕ) → Exec (Agent I) (Unit {0})
  unfolding send_datagram
  send_all env sender conv [] = pure tt
  send_all env sender conv (seg ∷ segments) = do
    send_datagram env sender conv seg
    send_all env sender conv segments

  -- The loop over the segments, if the loop that makes them has ended. If it has not, the call does not
  -- return, for which `stuck` stands: nothing comes after it.
  unfoldable pub send_some :
      Env → Sender → Conversation → Option (List (List ℕ)) → Exec (Agent I) (Unit {0})
  unfolding send_all
  send_some env sender conv none = throw stuck
  send_some env sender conv (some segments) = send_all env sender conv segments

  -- `_send_transfer`, with the number and the length of the item
  unfoldable pub send_transfer :
      Cbor2 → Env → Sender → Conversation → ℕ → ℕ → List ℕ → Exec (Agent I) (Unit {0})
  unfolding send_segments send_some
  send_transfer cbor env sender conv transfer_id total_length content s =
      send_some env sender conv
        (send_segments cbor s.config.mtu_default transfer_id total_length content) s

  abbrev pub set_options : ℕ → List (ℕ × ℕ × ℕ) → Agent I → Agent I
  set_options sock [] s = s
  set_options sock (o ∷ opts) s = set_options sock opts (emit (set_option sock o) s)

  unfoldable pub multicast_sender : Conversation → ℕ → Exec (Agent I) Sender
  multicast_sender conv sock = do
    modify (emit (multicast_loop sock (is_ipv4 conv) 0))
    s ← get
    modify (λ s. elim s.config.multicast_ttl [
      | none ↦ s
      | some ttl ↦ emit (multicast_ttl sock (is_ipv4 conv) ttl) s
    ])
    pure (plain sock)

  -- A new DTLS session is asked for by a plain message.
  unfoldable pub new_session : Cbor2 → Env → Conversation → ℕ → Exec (Agent I) Sender
  unfolding start_tls send_datagram
  new_session cbor env conv sock = do
    send_datagram env (plain sock) conv (cbor.dumps (dict (entry (key_value starttls) null end)))
    conn ← start_tls env conv sock false
    pure (dtls conn)

  unfoldable pub unicast_sender : Cbor2 → Env → Conversation → ℕ → Exec (Agent I) Sender
  unfolding new_session
  unicast_sender cbor env conv sock s =
      if not s.config.dtls_enable_tx
      then done (plain sock) s
      else elim (conv_get conv s.dtls_sess) [
        | some conn ↦ done (dtls conn) s
        | none ↦ new_session cbor env conv sock s
      ]

  -- `conv.peer_address.is_multicast` wants an address.
  unfoldable pub choose_sender : Cbor2 → Env → Conversation → ℕ → Exec (Agent I) Sender
  unfolding multicast_sender unicast_sender
  choose_sender cbor env conv sock s = elim conv.peer_address [
    | none ↦ raised attribute_error s
    | some peer ↦
        if is_multicast peer
        then multicast_sender conv sock s
        else unicast_sender cbor env conv sock s
  ]

  -- Only transfers are cut, and are told of.
  unfoldable pub transmit :
      Cbor2 → Env → Sender → Conversation → BundleItem → Exec (Agent I) (Unit {0})
  unfolding send_transfer send_datagram
  transmit cbor env sender conv item = elim item.transfer_id [
    | none ↦ send_datagram env sender conv item.file
    | some i ↦ (do
      send_transfer cbor env sender conv i (length item.file) item.file
      modify (emit (send_bundle_finished i item.total_length)))
  ]

  unfoldable pub tell_started : BundleItem → Agent I → Agent I
  tell_started item s = elim item.transfer_id [
    | none ↦ s
    | some i ↦ emit (send_bundle_started i item.total_length) s
  ]

  unfoldable pub item_conversation : Config → Env → BundleItem → Exec (Agent I) Conversation
  unfolding addr_from_str
  item_conversation config env item = do
    peer_address ← addr_from_str env (some item.address)
    local_address ← addr_from_str env (source_text config item)
    pure (record {
      peer_address = peer_address;
      peer_port = item.port;
      local_address = local_address;
      local_port = first_of (given_port item.local_port) config.default_tx_port;
    })

  -- An item on the socket of its conversation
  unfoldable pub send_item : Cbor2 → Env → BundleItem → Conversation → Exec (Agent I) (Unit {0})
  unfolding plain_socket listen_on choose_sender transmit
  send_item cbor env item conv = do
    sock ← plain_socket env conv
    modify (listen_on sock)
    modify (set_options sock item.sock_opts)
    sender ← choose_sender cbor env conv sock
    transmit cbor env sender conv item

  -- The item is not in the queue any more.
  unfoldable pub process_item : Cbor2 → Env → BundleItem → Exec (Agent I) (Unit {0})
  unfolding tell_started item_conversation send_item
  process_item cbor env item = do
    modify (tell_started item)
    s ← get
    conv ← item_conversation s.config env item
    send_item cbor env item conv

  -- Whether there is more to send after an item
  unfoldable pub take_item : Cbor2 → Env → BundleItem → Exec (Agent I) Bool
  unfolding process_item
  take_item cbor env item = do process_item cbor env item; s ← get; pure (not (is_empty s.tx_queue))

  -- `_process_tx_queue`; nothing to do returns `None`.
  unfoldable pub process_tx_queue : Cbor2 → Env → Exec (Agent I) Bool
  unfolding take_item
  process_tx_queue cbor env s = elim s.tx_queue [
    | [] ↦ done false s
    | item ∷ rest ↦ take_item cbor env item (record s { tx_queue = rest })
  ]
