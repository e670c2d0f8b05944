-- ===== src/Udpcl/Send/Order.antt =====
-- The order in which src/udpcl/agent.py sends the items of its queue.
use dtn_demo_agent.Common.{
  ℕ, ◌+◌, ◌≡◌, refl, sym, ap, ◌∙◌, subst, true, false, Option, none, some, List, [], ◌∷◌, ◌++◌,
  append-nil, append_assoc, arith, Bool-cases, Option-cases, inl, inr, length, contains,
}
use dtn_demo_agent.Common.Exec.{Exec, Outcome, done, continue}
use dtn_demo_agent.Udpcl.Value.{Cbor2}
use dtn_demo_agent.Udpcl.Conversation.{Ip, Conversation, is_multicast, find_in}
use dtn_demo_agent.Udpcl.State.{
  Env, Config, BundleItem, Event, Agent, emit, sent_plain, set_option, send_bundle_finished,
}
use dtn_demo_agent.Udpcl.Starttls.{make_local_socket, plain_socket, listen_on}
use dtn_demo_agent.Udpcl.Send.Loop.{some_inj}
use dtn_demo_agent.Udpcl.Send.{
  plain, send_datagram, send_all, send_some, send_segments, send_transfer, unicast_sender,
  choose_sender, transmit, tell_started, send_item, item_conversation, process_item, set_options,
}

abbrev pub payload : Event → List (List ℕ) → List (List ℕ)
payload (sent_plain sock conv octets) log = octets ∷ log
payload _ log = log

-- The datagrams among the events
unfoldable pub sent_log : List Event → List (List ℕ)
sent_log [] = []
sent_log (e ∷ es) = payload e (sent_log es)

payload-append : (e : Event) (xs ys : List (List ℕ)) → payload e (xs ++ ys) ≡ payload e xs ++ ys
payload-append e xs ys = ground arith

sent_log-append : (es fs : List Event) → sent_log (es ++ fs) ≡ sent_log es ++ sent_log fs
unfolding sent_log
sent_log-append [] fs = refl
sent_log-append (e ∷ es) fs =
    ap (λ l. payload e l) (sent_log-append es fs) ∙ payload-append e (sent_log es) (sent_log fs)

-- The datagrams of an item, if the loop that makes them ends.
unfoldable pub item_datagrams : Cbor2 → Option ℕ → BundleItem → Option (List (List ℕ))
item_datagrams cbor mtu item = elim item.transfer_id [
  | none ↦ some (item.file ∷ [])
  | some i ↦ send_segments cbor mtu i (length item.file) item.file
]

datagrams_none :
    (cbor : Cbor2) (mtu : Option ℕ) (item : BundleItem)
    → item.transfer_id ≡ none
    → item_datagrams cbor mtu item ≡ some (item.file ∷ [])
unfolding item_datagrams
datagrams_none cbor mtu item n = rw (n, item_datagrams) refl

datagrams_some :
    (cbor : Cbor2) (mtu : Option ℕ) (item : BundleItem) (i : ℕ)
    → item.transfer_id ≡ some i
    → item_datagrams cbor mtu item ≡ send_segments cbor mtu i (length item.file) item.file
unfolding item_datagrams
datagrams_some cbor mtu item i n = rw (n, item_datagrams) refl

-- An item to an address that can be resolved, is not a multicast address, and needs no DTLS, while
-- sockets can be bound and datagrams be sent.
pub record Sendable (I : Type 0) (cbor : Cbor2) (env : Env) (config : Config) (item : BundleItem)
    (segs : List (List ℕ)) : Type 0 where
  pub conv : Conversation
  pub peer : Ip
  pub resolved : (s : Agent I) → item_conversation config env item s ≡ done conv s
  pub to_peer : conv.peer_address ≡ some peer
  pub unicast : is_multicast peer ≡ false
  pub no_dtls : config.dtls_enable_tx ≡ false
  pub bound : env.bind_ok conv ≡ true
  pub sendable : (xs : List ℕ) → env.send_ok xs ≡ true
  pub cut : item_datagrams cbor config.mtu_default item ≡ some segs

module _ {I : Type 0} where
  -- The call returns, and has sent these datagrams. The configuration stays.
  pub record Sends {A : Type 0} (o : Outcome (Agent I) A) (s : Agent I) (xs : List (List ℕ))
      : Type 0 where
    pub value : A
    pub left : Agent I
    pub returns : o ≡ done value left
    pub log : sent_log left.events ≡ sent_log s.events ++ xs
    pub same_config : left.config ≡ s.config

  Sends-bind :
      {A B : Type 0} (m : Exec (Agent I) A) (f : A → Exec (Agent I) B) (s : Agent I)
      (xs ys : List (List ℕ))
      → Sends (m s) s xs
      → ((a : A) (t : Agent I) → t.config ≡ s.config → m s ≡ done a t → Sends (f a t) t ys)
      → Sends (continue (m s) f) s (xs ++ ys)
  Sends-bind m f s xs ys p q =
      let r = q p.value p.left p.same_config p.returns in
      record {
        value = r.value;
        left = r.left;
        returns = ap (λ o. continue o f) p.returns ∙ r.returns;
        log = r.log ∙ ap (λ l. l ++ ys) p.log ∙ append_assoc (sent_log s.events) xs ys;
        same_config = r.same_config ∙ p.same_config;
      }

  -- One event
  emit-Sends : (e : Event) (s : Agent I) → Sends (done tt (emit e s)) s (sent_log (e ∷ []))
  emit-Sends e s = record {
    value = tt;
    left = emit e s;
    returns = refl;
    log = sent_log-append s.events (e ∷ []);
    same_config = refl;
  }

  send_datagram-Sends :
      (env : Env) (sock : ℕ) (conv : Conversation) (octets : List ℕ) (s : Agent I)
      → ((xs : List ℕ) → env.send_ok xs ≡ true)
      → Sends (send_datagram env (plain sock) conv octets s) s (octets ∷ [])
  unfolding send_datagram sent_log
  send_datagram-Sends env sock conv octets s ok =
      rw (ok octets) (emit-Sends (sent_plain sock conv octets) s)

  quiet :
      {A : Type 0} (a : A) (s t : Agent I)
      → sent_log t.events ≡ sent_log s.events
      → t.config ≡ s.config
      → Sends (done a t) s []
  quiet a s t e c = record {
    value = a;
    left = t;
    returns = refl;
    log = e ∙ sym (append-nil (sent_log s.events));
    same_config = c;
  }

  send_all-Sends :
      (env : Env) (sock : ℕ) (conv : Conversation) (segs : List (List ℕ)) (s : Agent I)
      → ((xs : List ℕ) → env.send_ok xs ≡ true)
      → Sends (send_all env (plain sock) conv segs s) s segs
  unfolding send_all
  send_all-Sends env sock conv [] s ok = quiet tt s s refl refl
  send_all-Sends env sock conv (seg ∷ segs) s ok =
      Sends-bind (send_datagram env (plain sock) conv seg)
        (λ _. send_all env (plain sock) conv segs) s (seg ∷ []) segs
        (send_datagram-Sends env sock conv seg s ok)
        (λ _ t c e. send_all-Sends env sock conv segs t ok)

  quiet_event :
      (e : Event) (s : Agent I)
      → sent_log (e ∷ []) ≡ []
      → sent_log (s.events ++ e ∷ []) ≡ sent_log s.events
  quiet_event e s q =
      sent_log-append s.events (e ∷ [])
      ∙ ap (λ l. sent_log s.events ++ l) q
      ∙ append-nil (sent_log s.events)

  finish-Sends :
      (m : Exec (Agent I) (Unit {0})) (e : Event) (s : Agent I) (segs : List (List ℕ))
      → sent_log (e ∷ []) ≡ []
      → Sends (m s) s segs
      → Sends (continue (m s) (λ _ t. done tt (emit e t))) s segs
  finish-Sends m e s segs q p =
      subst (λ l. Sends (continue (m s) (λ _ t. done tt (emit e t))) s l) (append-nil segs)
        (Sends-bind m (λ _ t. done tt (emit e t)) s segs [] p
          (λ _ t c r. quiet tt t (emit e t) (quiet_event e t q) refl))

  transmit-Sends :
      (cbor : Cbor2) (env : Env) (sock : ℕ) (conv : Conversation) (item : BundleItem)
      (segs : List (List ℕ)) (s : Agent I)
      → ((xs : List ℕ) → env.send_ok xs ≡ true)
      → item_datagrams cbor s.config.mtu_default item ≡ some segs
      → Sends (transmit cbor env (plain sock) conv item s) s segs
  unfolding transmit send_transfer send_some sent_log
  transmit-Sends cbor env sock conv item segs s ok e = elim (Option-cases item.transfer_id) [
    | inl n ↦
        rw (n, transmit)
          (subst (λ l. Sends (send_datagram env (plain sock) conv item.file s) s l)
            (some_inj _ segs (sym (datagrams_none cbor s.config.mtu_default item n) ∙ e))
            (send_datagram-Sends env sock conv item.file s ok))
    | inr (i, n) ↦
        rw (n, transmit)
          (finish-Sends (send_transfer cbor env (plain sock) conv i (length item.file) item.file)
            (send_bundle_finished i item.total_length) s segs refl
            (rw (sym (datagrams_some cbor s.config.mtu_default item i n) ∙ e, send_transfer)
              (send_all-Sends env sock conv segs s ok)))
  ]

  tell_started-Sends :
      (item : BundleItem) (s : Agent I) → Sends (done tt (tell_started item s)) s []
  unfolding tell_started sent_log
  tell_started-Sends item s = elim (Option-cases item.transfer_id) [
    | inl n ↦ rw (n, tell_started) (quiet tt s s refl refl)
    | inr (i, n) ↦ rw (n, tell_started) (quiet tt s _ (quiet_event _ s refl) refl)
  ]

  set_options-log :
      (sock : ℕ) (opts : List (ℕ × ℕ × ℕ)) (s : Agent I)
      → sent_log (set_options sock opts s).events ≡ sent_log s.events
  unfolding sent_log
  set_options-log sock [] s = refl
  set_options-log sock (o ∷ opts) s =
      set_options-log sock opts (emit (set_option sock o) s)
      ∙ quiet_event (set_option sock o) s refl

  set_options-config :
      (sock : ℕ) (opts : List (ℕ × ℕ × ℕ)) (s : Agent I)
      → (set_options sock opts s).config ≡ s.config
  set_options-config sock [] s = refl
  set_options-config sock (o ∷ opts) s = set_options-config sock opts (emit (set_option sock o) s)

  make_local_socket_done :
      (env : Env) (conv : Conversation) (s : Agent I)
      → env.bind_ok conv ≡ true
      → make_local_socket env conv s ≡ done s.next_sock (record s { next_sock = s.next_sock + 1 })
  unfolding make_local_socket
  make_local_socket_done env conv s ok = ground arith

  plain_socket-Sends :
      (env : Env) (conv : Conversation) (s : Agent I)
      → env.bind_ok conv ≡ true
      → Sends (plain_socket env conv s) s []
  unfolding plain_socket
  plain_socket-Sends env conv s ok = elim (Option-cases (find_in conv s.plain_sock)) [
    | inl e ↦
        rw (e, plain_socket, make_local_socket_done env conv s ok) (quiet s.next_sock s _ refl refl)
    | inr (sock, e) ↦ rw (e, plain_socket) (quiet sock s s refl refl)
  ]

  listen_on-Sends : (sock : ℕ) (s : Agent I) → Sends (done tt (listen_on sock s)) s []
  unfolding listen_on
  listen_on-Sends sock s = elim (Bool-cases (contains sock s.listen_plain)) [
    | inl e ↦ rw (e, listen_on) (quiet tt s s refl refl)
    | inr e ↦ rw (e, listen_on) (quiet tt s _ refl refl)
  ]

  choose_sender-plain :
      (cbor : Cbor2) (env : Env) (conv : Conversation) (sock : ℕ) (peer : Ip) (s : Agent I)
      → conv.peer_address ≡ some peer
      → is_multicast peer ≡ false
      → s.config.dtls_enable_tx ≡ false
      → choose_sender cbor env conv sock s ≡ done (plain sock) s
  unfolding choose_sender unicast_sender
  choose_sender-plain cbor env conv sock peer s p m d = ground arith

  send_item-Sends :
      (cbor : Cbor2) (env : Env) (config : Config) (item : BundleItem) (segs : List (List ℕ))
      (s : Agent I)
      → s.config ≡ config
      → (p : Sendable I cbor env config item segs) → Sends (send_item cbor env item p.conv s) s segs
  unfolding send_item
  send_item-Sends cbor env config item segs s c p =
      Sends-bind (plain_socket env p.conv) _ s [] segs (plain_socket-Sends env p.conv s p.bound)
        (λ sock t d _.
          Sends-bind (λ u. done tt (listen_on sock u)) _ t [] segs (listen_on-Sends sock t)
            (λ _ u e _.
              Sends-bind (λ v. done tt (set_options sock item.sock_opts v)) _ u [] segs
                (quiet tt u _ (set_options-log sock item.sock_opts u)
                  (set_options-config sock item.sock_opts u))
                (λ _ v f _. chosen sock v (f ∙ e ∙ d ∙ c))))
    where
      chosen :
          (sock : ℕ) (v : Agent I)
          → v.config ≡ config
          → Sends
              (continue
                (choose_sender cbor env p.conv sock v)
                (λ sender. transmit cbor env sender p.conv item))
              v
              segs
      chosen sock v g =
          rw
            (choose_sender-plain cbor env p.conv sock p.peer v p.to_peer p.unicast
              (ap (λ k. k.dtls_enable_tx) g ∙ p.no_dtls))
            (transmit-Sends cbor env sock p.conv item segs v p.sendable
              (ap (λ (k : Config). item_datagrams cbor k.mtu_default item) g ∙ p.cut))

  -- Such an item is sent: the call returns, and the datagrams of the item are sent in their order, and
  -- nothing else.
  pub process_item-Sends :
      (cbor : Cbor2) (env : Env) (item : BundleItem) (segs : List (List ℕ)) (s : Agent I)
      → Sendable I cbor env s.config item segs
      → Sends (process_item cbor env item s) s segs
  unfolding process_item
  process_item-Sends cbor env item segs s p =
      Sends-bind (λ t. done tt (tell_started item t))
        (λ _ t.
          continue (item_conversation t.config env item t) (λ conv. send_item cbor env item conv))
        s [] segs (tell_started-Sends item s)
        (λ _ t c e.
          rw (ap (λ k. item_conversation k env item t) c ∙ p.resolved t)
            (send_item-Sends cbor env s.config item segs t c p))
