-- ===== src/Udpcl/Ledger.antt =====
-- What the sending side of src/udpcl/agent.py leaves alone.
use dtn_demo_agent.Common.{
  ℕ, ◌≡◌, Bool, false, not, Option, none, some, List, [], ◌∷◌, arith, Option-cases, inl, inr,
  length, is_none, is_empty,
}
use dtn_demo_agent.Common.Exec.{throw, os_error, runtime_error, ssl_error, stuck}
use dtn_demo_agent.Common.Exec.Keeps.{
  Keeps, Keeps-bind, Keeps-modify, Keeps-when, Keeps-throw, Keeps-pure, Keeps-get,
}
use dtn_demo_agent.Udpcl.Value.{Cbor2}
use dtn_demo_agent.Udpcl.Conversation.{Address, numeric, name, Conversation}
use dtn_demo_agent.Udpcl.State.{Env, BundleItem, TransferKey, Transfer, Probes, Agent, Config}
use dtn_demo_agent.Udpcl.Queue.{addr_from_str}
use dtn_demo_agent.Udpcl.Starttls.{establish, make_local_socket, start_tls, plain_socket, listen_on}
use dtn_demo_agent.Udpcl.Send.{
  Sender, plain, dtls, send_some, new_session, source_text, send_datagram, send_all, send_transfer,
  send_segments, multicast_sender, unicast_sender, choose_sender, transmit, tell_started,
  item_conversation, send_item, process_item, take_item, set_options,
}

-- The bundles and transfers of an agent, its configuration, and the callbacks that are to send.
pub record Ledger (I : Type 0) : Type 0 where
  pub config : Config
  pub tx_id : ℕ
  pub tx_queue : List BundleItem
  pub rx_fragments : List (TransferKey × Transfer I)
  pub rx_id : ℕ
  pub rx_queue : List (ℕ × BundleItem)
  pub pmtud_recv : List (Conversation × Probes)
  pub idle : ℕ

module _ {I : Type 0} where
  abbrev pub ledger : Agent I → Ledger I
  ledger s = record {
    config = s.config;
    tx_id = s.tx_id;
    tx_queue = s.tx_queue;
    rx_fragments = s.rx_fragments;
    rx_id = s.rx_id;
    rx_queue = s.rx_queue;
    pmtud_recv = s.pmtud_recv;
    idle = s.idle;
  }

  abbrev pub Is : Ledger I → Agent I → Type 0
  Is l s = ledger s ≡ l

  pub addr_from_str-Keeps :
      (l : Ledger I) (env : Env) (a : Option Address) → Keeps (Is l) (addr_from_str env a)
  unfolding addr_from_str
  addr_from_str-Keeps l env none = Keeps-pure none
  addr_from_str-Keeps l env (some (numeric a)) = record { at = λ s h. h }
  addr_from_str-Keeps l env (some (name t)) = record { at = λ s h. ground arith }

  establish-Keeps : (l : Ledger I) (conv : Conversation) → Keeps (Is l) (establish conv)
  unfolding establish
  establish-Keeps l conv = record { at = λ s h. h }

  pub start_tls-Keeps :
      (l : Ledger I) (env : Env) (conv : Conversation) (sock : ℕ) (server_side : Bool)
      → Keeps (Is l) (start_tls env conv sock server_side)
  unfolding start_tls
  start_tls-Keeps l env conv sock server_side = Keeps-bind (Keeps-modify _ (λ s h. h)) (λ _.
      Keeps-bind (Keeps-when (not (env.bind_ok conv)) (throw os_error) (Keeps-throw os_error)) (λ _.
        Keeps-bind
          (Keeps-when (is_none conv.peer_address) (throw runtime_error) (Keeps-throw runtime_error))
          (λ _.
            Keeps-bind
              (Keeps-when (not (env.handshake_ok conv server_side)) (throw ssl_error)
                (Keeps-throw ssl_error))
              (λ _. establish-Keeps l conv))))

  pub make_local_socket-Keeps :
      (l : Ledger I) (env : Env) (conv : Conversation) → Keeps (Is l) (make_local_socket env conv)
  unfolding make_local_socket
  make_local_socket-Keeps l env conv = record { at = λ s h. ground arith }

  pub plain_socket-Keeps :
      (l : Ledger I) (env : Env) (conv : Conversation) → Keeps (Is l) (plain_socket env conv)
  unfolding plain_socket make_local_socket
  plain_socket-Keeps l env conv = record { at = λ s h. ground arith }

  pub listen_on-Is : (l : Ledger I) (sock : ℕ) (s : Agent I) → Is l s → Is l (listen_on sock s)
  unfolding listen_on
  listen_on-Is l sock s h = ground arith

  pub set_options-Is :
      (l : Ledger I) (sock : ℕ) (opts : List (ℕ × ℕ × ℕ)) (s : Agent I)
      → Is l s
      → Is l (set_options sock opts s)
  set_options-Is l sock [] s h = h
  set_options-Is l sock (o ∷ opts) s h = set_options-Is l sock opts _ h

  send_datagram-Keeps :
      (l : Ledger I) (env : Env) (sender : Sender) (conv : Conversation) (octets : List ℕ)
      → Keeps (Is l) (send_datagram env sender conv octets)
  unfolding send_datagram
  send_datagram-Keeps l env sender conv octets = record { at = λ s h. ground arith }

  send_all-Keeps :
      (l : Ledger I) (env : Env) (sender : Sender) (conv : Conversation) (segments : List (List ℕ))
      → Keeps (Is l) (send_all env sender conv segments)
  unfolding send_all
  send_all-Keeps l env sender conv [] = Keeps-pure tt
  send_all-Keeps l env sender conv (seg ∷ segments) =
      Keeps-bind (send_datagram-Keeps l env sender conv seg)
        (λ _. send_all-Keeps l env sender conv segments)

  multicast_sender-Keeps :
      (l : Ledger I) (conv : Conversation) (sock : ℕ) → Keeps (Is l) (multicast_sender conv sock)
  unfolding multicast_sender
  multicast_sender-Keeps l conv sock = record { at = λ s h. ground arith }

  new_session-Keeps :
      (l : Ledger I) (cbor : Cbor2) (env : Env) (conv : Conversation) (sock : ℕ)
      → Keeps (Is l) (new_session cbor env conv sock)
  unfolding new_session
  new_session-Keeps l cbor env conv sock =
      Keeps-bind (send_datagram-Keeps l env (plain sock) conv _)
        (λ _. Keeps-bind (start_tls-Keeps l env conv sock false) (λ conn. Keeps-pure (dtls conn)))

  unicast_sender-Keeps :
      (l : Ledger I) (cbor : Cbor2) (env : Env) (conv : Conversation) (sock : ℕ)
      → Keeps (Is l) (unicast_sender cbor env conv sock)
  unfolding unicast_sender
  unicast_sender-Keeps l cbor env conv sock = record {
    at = λ s h. ground (arith, (new_session-Keeps l cbor env conv sock).at s h);
  }

  pub choose_sender-Keeps :
      (l : Ledger I) (cbor : Cbor2) (env : Env) (conv : Conversation) (sock : ℕ)
      → Keeps (Is l) (choose_sender cbor env conv sock)
  unfolding choose_sender
  choose_sender-Keeps l cbor env conv sock = record {
    at = λ s h. ground (
      arith,
      (unicast_sender-Keeps l cbor env conv sock).at s h,
      (multicast_sender-Keeps l conv sock).at s h,
    );
  }

  segments-Keeps :
      (l : Ledger I) (env : Env) (sender : Sender) (conv : Conversation)
      (o : Option (List (List ℕ)))
      → Keeps (Is l) (send_some env sender conv o)
  unfolding send_some
  segments-Keeps l env sender conv none = Keeps-throw stuck
  segments-Keeps l env sender conv (some segments) = send_all-Keeps l env sender conv segments

  transmit-Keeps :
      (l : Ledger I) (cbor : Cbor2) (env : Env) (sender : Sender) (conv : Conversation)
      (item : BundleItem)
      → Keeps (Is l) (transmit cbor env sender conv item)
  unfolding transmit send_transfer
  transmit-Keeps l cbor env sender conv item = elim (Option-cases item.transfer_id) [
    | inl e ↦ rw (e, transmit) (send_datagram-Keeps l env sender conv item.file)
    | inr (i, e) ↦
        rw (e, transmit)
          (Keeps-bind
            (record {
              at = λ s h.
                  (segments-Keeps l env sender conv
                      (send_segments cbor s.config.mtu_default i (length item.file) item.file)).at
                    s h;
            })
            (λ _. Keeps-modify _ (λ s h. h)))
  ]

  pub item_conversation-Keeps :
      (l : Ledger I) (config : Config) (env : Env) (item : BundleItem)
      → Keeps (Is l) (item_conversation config env item)
  unfolding item_conversation
  item_conversation-Keeps l config env item =
      Keeps-bind (addr_from_str-Keeps l env (some item.address)) (λ peer.
        Keeps-bind (addr_from_str-Keeps l env (source_text config item)) (λ a. Keeps-pure _))

  -- An item that is sent, or on which something is raised, leaves the queue and the bundles alone.
  pub process_item-Keeps :
      (l : Ledger I) (cbor : Cbor2) (env : Env) (item : BundleItem)
      → Keeps (Is l) (process_item cbor env item)
  unfolding process_item send_item tell_started
  process_item-Keeps l cbor env item =
      Keeps-bind (Keeps-modify (tell_started item) (λ s h. ground arith)) (λ _.
        Keeps-bind Keeps-get (λ s. Keeps-bind (item_conversation-Keeps l s.config env item) (λ conv.
          Keeps-bind (plain_socket-Keeps l env conv) (λ sock.
            Keeps-bind (Keeps-modify (listen_on sock) (listen_on-Is l sock)) (λ _.
              Keeps-bind
                (Keeps-modify (set_options sock item.sock_opts)
                  (set_options-Is l sock item.sock_opts))
                (λ _.
                  Keeps-bind (choose_sender-Keeps l cbor env conv sock)
                    (λ sender. transmit-Keeps l cbor env sender conv item)))))))

  pub take_item-Keeps :
      (l : Ledger I) (cbor : Cbor2) (env : Env) (item : BundleItem)
      → Keeps (Is l) (take_item cbor env item)
  unfolding take_item
  take_item-Keeps l cbor env item =
      Keeps-bind (process_item-Keeps l cbor env item)
        (λ _. Keeps-bind Keeps-get (λ s. Keeps-pure (not (is_empty s.tx_queue))))
