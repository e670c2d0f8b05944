-- ===== src/Udpcl/Send/Ends.antt =====
-- The calls of src/udpcl/agent.py that send an item end, if the MTU leaves room for data.
use dtn_demo_agent.Common.{
  ℕ, ◌<◌, ◌≡◌, ◌⊎◌, refl, ap, ◌∙◌, subst, sym, Bool, false, not, Option, none, some, List, [], ◌∷◌,
  arith, Bool-cases, Option-cases, inl, inr, length, is_none, lt→ltb,
}
use dtn_demo_agent.Common.Exec.{
  Exec, Outcome, done, raised, final, continue, os_error, runtime_error, ssl_error,
}
use dtn_demo_agent.Common.Exec.Ends.{Ends, when-Ends, continue-Ends}
use dtn_demo_agent.Common.Exec.Keeps.{Keeps}
use dtn_demo_agent.Udpcl.Value.{Cbor2}
use dtn_demo_agent.Udpcl.Conversation.{Address, numeric, name, Conversation, conv_get, is_multicast}
use dtn_demo_agent.Udpcl.State.{Env, Config, BundleItem, Agent}
use dtn_demo_agent.Udpcl.Queue.{addr_from_str}
use dtn_demo_agent.Udpcl.Starttls.{start_tls, establish, make_local_socket, plain_socket, listen_on}
use dtn_demo_agent.Udpcl.Send.Loop.{segments_end}
use dtn_demo_agent.Udpcl.Send.{
  Sender, plain, source_text, remain_size, send_segments, send_datagram, send_all, send_some,
  send_transfer, multicast_sender, new_session, unicast_sender, choose_sender, transmit,
  tell_started, item_conversation, send_item, process_item, take_item, set_options,
}
use dtn_demo_agent.Udpcl.Ledger.{
  Ledger, ledger, Is, plain_socket-Keeps, choose_sender-Keeps, item_conversation-Keeps,
  listen_on-Is, set_options-Is,
}

-- A transfer fits in one datagram, or there is room for data in its fragments.
abbrev pub TransferRoom : Cbor2 → Option ℕ → ℕ → List ℕ → Type 0
TransferRoom cbor none i content = Unit
TransferRoom cbor (some mtu) i content =
    (length content < mtu) ⊎ (0 < remain_size cbor mtu i (length content))

abbrev ItemRoom : Cbor2 → Option ℕ → Option ℕ → List ℕ → Type 0
ItemRoom cbor mtu none content = Unit
ItemRoom cbor mtu (some i) content = TransferRoom cbor mtu i content

-- Of an item; a message that is no transfer is not cut.
abbrev pub CanSend : Cbor2 → Option ℕ → BundleItem → Type 0
CanSend cbor mtu item = ItemRoom cbor mtu item.transfer_id item.file

transfer_ends :
    (cbor : Cbor2) (mtu : Option ℕ) (i : ℕ) (content : List ℕ)
    → TransferRoom cbor mtu i content
    → (segs : List (List ℕ)) × (send_segments cbor mtu i (length content) content ≡ some segs)
unfolding send_segments
transfer_ends cbor none i content r = (content ∷ [], refl)
transfer_ends cbor (some mtu) i content (inl lt) =
    (content ∷ [], rw (lt→ltb (length content) mtu lt, send_segments) refl)
transfer_ends cbor (some mtu) i content (inr r) =
    segments_end cbor (some mtu) i (length content) content r

module _ {I : Type 0} where
  pub start_tls-Ends :
      (env : Env) (conv : Conversation) (sock : ℕ) (b : Bool) (s : Agent I)
      → Ends (start_tls env conv sock b s)
  unfolding start_tls establish
  start_tls-Ends env conv sock b s =
      continue-Ends _ _ (when-Ends (not (env.bind_ok conv)) os_error _ refl) (λ _ t.
        continue-Ends _ _ (when-Ends (is_none conv.peer_address) runtime_error t refl) (λ _ u.
          continue-Ends _ _ (when-Ends (not (env.handshake_ok conv b)) ssl_error u refl)
            (λ _ v. tt)))

  addr_from_str-Ends : (env : Env) (a : Option Address) (s : Agent I) → Ends (addr_from_str env a s)
  unfolding addr_from_str
  addr_from_str-Ends env none s = tt
  addr_from_str-Ends env (some (numeric a)) s = tt
  addr_from_str-Ends env (some (name t)) s = elim (Option-cases (env.getaddrinfo t)) [
    | inl e ↦ rw (e, addr_from_str) refl
    | inr (a, e) ↦ rw (e, addr_from_str) tt
  ]

  plain_socket-Ends :
      (env : Env) (conv : Conversation) (s : Agent I) → Ends (plain_socket env conv s)
  unfolding plain_socket make_local_socket
  plain_socket-Ends env conv s = ground arith

  send_datagram-Ends :
      (env : Env) (sender : Sender) (conv : Conversation) (xs : List ℕ) (s : Agent I)
      → Ends (send_datagram env sender conv xs s)
  unfolding send_datagram
  send_datagram-Ends env sender conv xs s = elim (Bool-cases (env.send_ok xs)) [
    | inl e ↦ rw (e, send_datagram) tt
    | inr e ↦ rw (e, send_datagram) refl
  ]

  send_all-Ends :
      (env : Env) (sender : Sender) (conv : Conversation) (segs : List (List ℕ)) (s : Agent I)
      → Ends (send_all env sender conv segs s)
  unfolding send_all
  send_all-Ends env sender conv [] s = tt
  send_all-Ends env sender conv (seg ∷ segs) s =
      continue-Ends (send_datagram env sender conv seg s) _
        (send_datagram-Ends env sender conv seg s) (λ _ t. send_all-Ends env sender conv segs t)

  unicast_sender-Ends :
      (cbor : Cbor2) (env : Env) (conv : Conversation) (sock : ℕ) (s : Agent I)
      → Ends (unicast_sender cbor env conv sock s)
  unfolding unicast_sender new_session
  unicast_sender-Ends cbor env conv sock s = elim (Bool-cases s.config.dtls_enable_tx) [
    | inr e ↦ rw (e, unicast_sender) tt
    | inl e ↦ elim (Option-cases (conv_get conv s.dtls_sess)) [
      | inr (c, f) ↦ rw (e, unicast_sender, f) tt
      | inl f ↦
          rw (e, unicast_sender, f)
            (continue-Ends _ _ (send_datagram-Ends env (plain sock) conv _ s)
              (λ _ t. continue-Ends _ _ (start_tls-Ends env conv sock false t) (λ _ u. tt)))
    ]
  ]

  choose_sender-Ends :
      (cbor : Cbor2) (env : Env) (conv : Conversation) (sock : ℕ) (s : Agent I)
      → Ends (choose_sender cbor env conv sock s)
  unfolding choose_sender multicast_sender
  choose_sender-Ends cbor env conv sock s = elim (Option-cases conv.peer_address) [
    | inl e ↦ rw (e, choose_sender) refl
    | inr (peer, e) ↦ elim (Bool-cases (is_multicast peer)) [
      | inl m ↦ rw (e, choose_sender, m) tt
      | inr m ↦ rw (e, choose_sender, m) (unicast_sender-Ends cbor env conv sock s)
    ]
  ]

  send_transfer-Ends :
      (cbor : Cbor2) (env : Env) (sender : Sender) (conv : Conversation) (i : ℕ) (content : List ℕ)
      (s : Agent I)
      → TransferRoom cbor s.config.mtu_default i content
      → Ends (send_transfer cbor env sender conv i (length content) content s)
  unfolding send_transfer send_some
  send_transfer-Ends cbor env sender conv i content s r =
      let (segs, e) = transfer_ends cbor s.config.mtu_default i content r in
      rw (e, send_transfer, send_some) (send_all-Ends env sender conv segs s)

  transmit-Ends :
      (cbor : Cbor2) (env : Env) (sender : Sender) (conv : Conversation) (item : BundleItem)
      (s : Agent I)
      → CanSend cbor s.config.mtu_default item
      → Ends (transmit cbor env sender conv item s)
  unfolding transmit
  transmit-Ends cbor env sender conv item s r = elim (Option-cases item.transfer_id) [
    | inl e ↦ rw (e, transmit) (send_datagram-Ends env sender conv item.file s)
    | inr (i, e) ↦
        rw (e, transmit)
          (continue-Ends _ _
            (send_transfer-Ends cbor env sender conv i item.file s
              (subst (λ o. ItemRoom cbor s.config.mtu_default o item.file) e r))
            (λ _ t. tt))
  ]

  item_conversation-Ends :
      (config : Config) (env : Env) (item : BundleItem) (s : Agent I)
      → Ends (item_conversation config env item s)
  unfolding item_conversation
  item_conversation-Ends config env item s =
      continue-Ends _ _ (addr_from_str-Ends env (some item.address) s)
        (λ a t. continue-Ends _ _ (addr_from_str-Ends env (source_text config item) t) (λ b u. tt))

  -- A call that leaves the ledger leaves the configuration.
  config-kept :
      {A : Type 0} (m : Exec (Agent I) A) (s : Agent I)
      → ((l : Ledger I) → Keeps (Is l) m)
      → (final (m s)).config ≡ s.config
  config-kept m s p = ap (λ (l : Ledger I). l.config) ((p (ledger s)).at s refl)

  -- The next call of a chain knows the configuration.
  configured-Ends :
      {A B : Type 0} (config : Config) (o : Outcome (Agent I) A) (f : A → Exec (Agent I) B)
      → Ends o
      → (final o).config ≡ config
      → ((a : A) (s : Agent I) → s.config ≡ config → Ends (f a s))
      → Ends (continue o f)
  configured-Ends config (done a s) f h e k = k a s e
  configured-Ends config (raised x s) f h e k = h

  plain_config :
      (sock : ℕ) (opts : List (ℕ × ℕ × ℕ)) (s : Agent I)
      → (set_options sock opts (listen_on sock s)).config ≡ s.config
  plain_config sock opts s =
      ap (λ (l : Ledger I). l.config)
        (set_options-Is (ledger s) sock opts (listen_on sock s)
          (listen_on-Is (ledger s) sock s refl))

  send_item-Ends :
      (cbor : Cbor2) (env : Env) (item : BundleItem) (conv : Conversation) (config : Config)
      (s : Agent I)
      → s.config ≡ config
      → CanSend cbor config.mtu_default item
      → Ends (send_item cbor env item conv s)
  unfolding send_item
  send_item-Ends cbor env item conv config s e r =
      configured-Ends config (plain_socket env conv s) _ (plain_socket-Ends env conv s)
        (config-kept (plain_socket env conv) s (λ l. plain_socket-Keeps l env conv) ∙ e)
        (λ sock t f.
          let u = set_options sock item.sock_opts (listen_on sock t) in
          configured-Ends config (choose_sender cbor env conv sock u) _
            (choose_sender-Ends cbor env conv sock u)
            (config-kept (choose_sender cbor env conv sock) u
                (λ l. choose_sender-Keeps l cbor env conv sock)
              ∙ plain_config sock item.sock_opts t
              ∙ f)
            (λ sender v g.
              transmit-Ends cbor env sender conv item v
                (subst (λ (k : Config). CanSend cbor k.mtu_default item) (sym g) r)))

  tell_started-config : (item : BundleItem) (s : Agent I) → (tell_started item s).config ≡ s.config
  unfolding tell_started
  tell_started-config item s = ground arith

  process_item-Ends :
      (cbor : Cbor2) (env : Env) (item : BundleItem) (s : Agent I)
      → CanSend cbor s.config.mtu_default item
      → Ends (process_item cbor env item s)
  unfolding process_item
  process_item-Ends cbor env item s r =
      let t = tell_started item s in
      configured-Ends s.config (item_conversation t.config env item t) _
        (item_conversation-Ends t.config env item t)
        (config-kept (item_conversation t.config env item) t
            (λ l. item_conversation-Keeps l t.config env item)
          ∙ tell_started-config item s)
        (λ conv u e. send_item-Ends cbor env item conv s.config u e r)

  -- Sending an item ends, whatever is raised.
  pub take_item-Ends :
      (cbor : Cbor2) (env : Env) (item : BundleItem) (s : Agent I)
      → CanSend cbor s.config.mtu_default item
      → Ends (take_item cbor env item s)
  unfolding take_item
  take_item-Ends cbor env item s r =
      continue-Ends _ _ (process_item-Ends cbor env item s r) (λ _ t. tt)
