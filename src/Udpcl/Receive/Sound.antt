-- ===== src/Udpcl/Receive/Sound.antt =====
-- The numbers of src/udpcl/agent.py while datagrams are received.
use dtn_demo_agent.Common.{
  ℕ, zero, suc, refl, Bool, true, false, ◌||◌, Option, none, some, List, [], ◌∷◌, Bool-cases,
  Option-cases, inl, inr, length, is_some, ◌==◌,
}
use dtn_demo_agent.Common.Exec.{Exec, decode_error, type_error}
use dtn_demo_agent.Common.Exec.Keeps.{
  Keeps, Keeps-bind, Keeps-modify, Keeps-throw, Keeps-pure, Keeps-get,
}
use dtn_demo_agent.Common.Portion.{Portion}
use dtn_demo_agent.Udpcl.Value.{
  Value, Entries, Cbor2, ext_get, sender_listen, sender_nodeid, transfer, pmtud_probe, starttls,
}
use dtn_demo_agent.Udpcl.Conversation.{addr_str, Conversation, conv_get, conv_set}
use dtn_demo_agent.Udpcl.State.{emit, polling_received, Env, TransferKey, Transfer, Agent}
use dtn_demo_agent.Udpcl.Starttls.{start_tls}
use dtn_demo_agent.Udpcl.Pmtud.{probe_items, pmtud_recv_probe}
use dtn_demo_agent.Udpcl.Receive.{
  listen_answer, settle_transfer, recv_fragment, recv_transfer, recv_listen, recv_extensions,
  serve_tls, recv_ext_map, recv_messages, recv_datagram, sock_recvfrom, transfer_items, as_dict,
  dtlsconn_recv, key_get, key_del, recv_item, on_key, or_empty, rejects, is_int, read_item,
  handle_message, message_kind, Kind, padding, handshake, bpv6, bundle, extension, unknown,
}
use dtn_demo_agent.Udpcl.Ledger.{Ledger, ledger, start_tls-Keeps}
use dtn_demo_agent.Udpcl.Numbers.{Kept, Kept-other, Leaves-Kept, add_rx_item-Kept, message-Keeps}

module _ (portion : Portion) (o : Ledger portion.Interval) where
  settle_transfer-Kept :
      (x : Transfer portion.Interval) (s : Agent portion.Interval)
      → Kept o s
      → Kept o (settle_transfer portion x s)
  unfolding settle_transfer
  settle_transfer-Kept x s h = elim (Bool-cases (portion.equal x.valid x.total_valid)) [
    | inl e ↦
        rw (e, settle_transfer)
          (add_rx_item-Kept x.key.address x.key.port x.octets x.total_length
            (record s { rx_fragments = key_del x.key s.rx_fragments })
            (Kept-other (ledger s) _ _ h))
    | inr e ↦ rw (e, settle_transfer) (Kept-other (ledger s) _ _ h)
  ]

  recv_fragment-Keeps :
      (key : TransferKey) (total off : ℕ) (octets : List ℕ)
      → Keeps (Kept o) (recv_fragment portion key total off octets)
  unfolding recv_fragment
  recv_fragment-Keeps key total off octets = record {
    at = λ s h. elim (Option-cases (key_get key s.rx_fragments)) [
      | inl e ↦ rw (e, recv_fragment) (settle_transfer-Kept _ s h)
      | inr (x, e) ↦ elim (Bool-cases (x.total_length == total)) [
        | inl q ↦ rw (e, recv_fragment, q) (settle_transfer-Kept _ s h)
        | inr q ↦ rw (e, recv_fragment, q) h
      ]
    ];
  }

  recv_transfer-Keeps :
      (conv : Conversation) (v : Value) → Keeps (Kept o) (recv_transfer portion conv v)
  unfolding recv_transfer
  recv_transfer-Keeps conv v = elim (Option-cases (transfer_items v)) [
    | inl e ↦ rw (e, recv_transfer) (Keeps-throw type_error)
    | inr ((i, total, off, octets), e) ↦
        rw (e, recv_transfer) (recv_fragment-Keeps _ total off octets)
  ]

  recv_listen-Keeps :
      (cbor : Cbor2) (conv : Conversation) (v w : Value)
      → Keeps (Kept o) (recv_listen portion cbor conv v w)
  unfolding recv_listen listen_answer
  recv_listen-Keeps cbor conv v w = elim (Bool-cases (is_int v)) [
    | inl e ↦
        rw (e, recv_listen)
          (Keeps-bind Keeps-get (λ s.
            Keeps-bind (message-Keeps (listen_answer cbor conv s.config) refl) (λ _.
              Keeps-modify (emit (polling_received v w (addr_str conv.peer_address) conv.peer_port))
                (λ s h. h))))
    | inr e ↦ rw (e, recv_listen) (Keeps-throw type_error)
  ]

  pmtud_recv_probe-Keeps :
      (conv : Conversation) (v : Value) → Keeps (Kept o) (pmtud_recv_probe conv v)
  unfolding pmtud_recv_probe
  pmtud_recv_probe-Keeps conv v = record {
    at = λ s h. elim (Option-cases (probe_items v)) [
      | inl e ↦ rw (e, pmtud_recv_probe) (Kept-other (ledger s) _ _ h)
      | inr (pid, e) ↦ rw (e, pmtud_recv_probe) (Kept-other (ledger s) _ _ h)
    ];
  }

  on_key-Keeps :
      (x : Option Value) (f : Value → Exec (Agent portion.Interval) (Unit {0}))
      → ((v : Value) → Keeps (Kept o) (f v))
      → Keeps (Kept o) (on_key portion x f)
  on_key-Keeps none f p = Keeps-pure tt
  on_key-Keeps (some v) f p = p v

  recv_extensions-Keeps :
      (cbor : Cbor2) (conv : Conversation) (m : Entries)
      → Keeps (Kept o) (recv_extensions portion cbor conv m)
  unfolding recv_extensions
  recv_extensions-Keeps cbor conv m =
      Keeps-bind
        (on_key-Keeps (ext_get sender_listen m) _
          (λ v. recv_listen-Keeps cbor conv v (or_empty (ext_get sender_nodeid m))))
        (λ _.
          Keeps-bind
            (on_key-Keeps (ext_get transfer m) (recv_transfer portion conv)
              (recv_transfer-Keeps conv))
            (λ _.
              on_key-Keeps (ext_get pmtud_probe m) (pmtud_recv_probe conv)
                (pmtud_recv_probe-Keeps conv)))

  serve_tls-Keeps :
      (env : Env) (sock : Option ℕ) (conv : Conversation)
      → Keeps (Kept o) (serve_tls portion env sock conv)
  unfolding serve_tls
  serve_tls-Keeps env none conv = Keeps-pure tt
  serve_tls-Keeps env (some sock) conv =
      Keeps-bind
        (Leaves-Kept (start_tls env conv sock true) (λ l. start_tls-Keeps l env conv sock true))
        (λ _. Keeps-pure tt)

  recv_ext_map-Keeps :
      (cbor : Cbor2) (env : Env) (sock : Option ℕ) (conv : Conversation) (m : Entries)
      → Keeps (Kept o) (recv_ext_map portion cbor env sock conv m)
  unfolding recv_ext_map
  recv_ext_map-Keeps cbor env sock conv m = record {
    at = λ s h. elim (Bool-cases (is_some (ext_get starttls m))) [
      | inl e ↦
          rw (e, recv_ext_map)
            ((Keeps-bind (serve_tls-Keeps env sock conv)
                (λ _. recv_extensions-Keeps cbor conv m)).at
              s h)
      | inr e ↦ elim (Bool-cases (rejects sock s.config.require_tls)) [
        | inl q ↦ rw (e, recv_ext_map, q) h
        | inr q ↦ rw (e, recv_ext_map, q) ((recv_extensions-Keeps cbor conv m).at s h)
      ]
    ];
  }

  recv_item-Keeps :
      (cbor : Cbor2) (env : Env) (sock : Option ℕ) (conv : Conversation) (b : Bool) (buf : List ℕ)
      (v : Value) (rest : List ℕ)
      → Keeps (Kept o) (recv_item portion cbor env sock conv b buf v rest)
  unfolding recv_item
  recv_item-Keeps cbor env sock conv true buf v rest =
      Keeps-modify _ (add_rx_item-Kept (addr_str conv.peer_address) conv.peer_port _ _)
  recv_item-Keeps cbor env sock conv false buf v rest = elim (Option-cases (as_dict v)) [
    | inl e ↦ rw (e, recv_item) (Keeps-throw type_error)
    | inr (m, e) ↦ rw (e, recv_item) (recv_ext_map-Keeps cbor env sock conv m)
  ]

  read_item-Keeps :
      (cbor : Cbor2) (env : Env) (sock : Option ℕ) (conv : Conversation) (b : Bool) (buf : List ℕ)
      (k : List ℕ → Exec (Agent portion.Interval) (Unit {0}))
      → ((rest : List ℕ) → Keeps (Kept o) (k rest))
      → Keeps (Kept o) (read_item portion cbor env sock conv b buf k)
  unfolding read_item
  read_item-Keeps cbor env sock conv b buf k p = elim (Option-cases (cbor.load buf)) [
    | inl e ↦ rw (e, read_item) (Keeps-throw decode_error)
    | inr ((v, rest), e) ↦
        rw (e, read_item)
          (Keeps-bind (recv_item-Keeps cbor env sock conv b buf v rest) (λ _. p rest))
  ]

  handle_message-Keeps :
      (kind : Kind) (cbor : Cbor2) (env : Env) (sock : Option ℕ) (conv : Conversation)
      (buf : List ℕ) (k : List ℕ → Exec (Agent portion.Interval) (Unit {0}))
      → ((rest : List ℕ) → Keeps (Kept o) (k rest))
      → Keeps (Kept o) (handle_message portion kind cbor env sock conv buf k)
  unfolding handle_message
  handle_message-Keeps padding cbor env sock conv buf k p = record { at = λ s h. h }
  handle_message-Keeps handshake cbor env sock conv buf k p = record {
    at = (serve_tls-Keeps env sock conv).at;
  }
  handle_message-Keeps bpv6 cbor env sock conv buf k p = record { at = λ s h. h }
  handle_message-Keeps bundle cbor env sock conv buf k p = record {
    at = λ s h. elim (Bool-cases (rejects sock s.config.require_tls)) [
      | inl e ↦ rw (e, handle_message) h
      | inr e ↦ rw (e, handle_message) ((read_item-Keeps cbor env sock conv true buf k p).at s h)
    ];
  }
  handle_message-Keeps extension cbor env sock conv buf k p = record {
    at = (read_item-Keeps cbor env sock conv false buf k p).at;
  }
  handle_message-Keeps unknown cbor env sock conv buf k p = record { at = λ s h. h }

  recv_messages-Keeps :
      (cbor : Cbor2) (env : Env) (sock : Option ℕ) (conv : Conversation) (fuel : ℕ) (buf : List ℕ)
      → Keeps (Kept o) (recv_messages portion cbor env sock conv fuel buf)
  unfolding recv_messages
  recv_messages-Keeps cbor env sock conv fuel [] = record { at = λ s h. h }
  recv_messages-Keeps cbor env sock conv zero (b ∷ bs) = record { at = λ s h. h }
  recv_messages-Keeps cbor env sock conv (suc fuel) (b ∷ bs) =
      handle_message-Keeps (message_kind b) cbor env sock conv (b ∷ bs)
        (λ rest t. recv_messages portion cbor env sock conv fuel rest t)
        (λ rest. record { at = (recv_messages-Keeps cbor env sock conv fuel rest).at })

  pub sock_recvfrom-Keeps :
      (cbor : Cbor2) (env : Env) (sock : ℕ) (octets : List ℕ) (conv : Conversation)
      → Keeps (Kept o) (sock_recvfrom portion cbor env sock octets conv)
  unfolding sock_recvfrom recv_datagram
  sock_recvfrom-Keeps cbor env sock octets conv = record {
    at = λ s h.
        elim (Bool-cases
          (is_some (conv_get conv s.dtls_prep) || is_some (conv_get conv s.dtls_sess))) [
            | inl e ↦ rw (e, sock_recvfrom) h
            | inr e ↦
                rw (e, sock_recvfrom)
                  ((Keeps-bind
                      (recv_messages-Keeps cbor env (some sock) conv (length octets) octets)
                      (λ _. Keeps-pure true)).at
                    (record s { plain_sock = conv_set conv sock s.plain_sock })
                    (Kept-other (ledger s) _ _ h))
          ];
  }

  pub dtlsconn_recv-Keeps :
      (cbor : Cbor2) (env : Env) (octets : List ℕ) (conv : Conversation)
      → Keeps (Kept o) (dtlsconn_recv portion cbor env octets conv)
  unfolding dtlsconn_recv recv_datagram
  dtlsconn_recv-Keeps cbor env octets conv =
      Keeps-bind (recv_messages-Keeps cbor env none conv (length octets) octets)
        (λ _. Keeps-pure true)
