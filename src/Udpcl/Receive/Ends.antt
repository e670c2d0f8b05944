-- ===== src/Udpcl/Receive/Ends.antt =====
-- The loop of `_recv_datagram` of src/udpcl/agent.py ends.
use dtn_demo_agent.Common.{
  ℕ, zero, suc, ◌≤◌, ◌<◌, refl, Bool, true, false, Option, none, some, List, [], ◌∷◌, arith,
  Bool-cases, Option-cases, inl, inr, length, is_some, ◌==◌,
}
use dtn_demo_agent.Common.Exec.{Exec}
use dtn_demo_agent.Common.Exec.Ends.{Ends, continue-Ends}
use dtn_demo_agent.Common.Portion.{Portion}
use dtn_demo_agent.Udpcl.Value.{
  Value, Cbor2, IsCbor, Entries, ext_get, sender_listen, sender_nodeid, transfer, pmtud_probe,
  starttls,
}
use dtn_demo_agent.Udpcl.Conversation.{Conversation}
use dtn_demo_agent.Udpcl.State.{Env, TransferKey, Agent}
use dtn_demo_agent.Udpcl.Queue.{add_tx_item}
use dtn_demo_agent.Udpcl.Starttls.{start_tls}
use dtn_demo_agent.Udpcl.Send.Ends.{start_tls-Ends}
use dtn_demo_agent.Udpcl.Pmtud.{pmtud_recv_probe, probe_items}
use dtn_demo_agent.Udpcl.Receive.{
  Kind, padding, handshake, bpv6, bundle, extension, unknown, message_kind, transfer_items, as_dict,
  recv_fragment, key_get, recv_transfer, recv_listen, is_int, on_key, or_empty, recv_extensions,
  serve_tls, recv_ext_map, recv_item, read_item, handle_message, recv_messages, recv_datagram,
  rejects,
}

module _ (portion : Portion) where
  recv_fragment-Ends :
      (key : TransferKey) (total off : ℕ) (xs : List ℕ) (s : Agent portion.Interval)
      → Ends (recv_fragment portion key total off xs s)
  unfolding recv_fragment
  recv_fragment-Ends key total off xs s = elim (Option-cases (key_get key s.rx_fragments)) [
    | inl e ↦ rw (e, recv_fragment) tt
    | inr (x, e) ↦ elim (Bool-cases (x.total_length == total)) [
      | inl q ↦ rw (e, recv_fragment, q) tt
      | inr q ↦ rw (e, recv_fragment, q) refl
    ]
  ]

  recv_transfer-Ends :
      (conv : Conversation) (v : Value) (s : Agent portion.Interval)
      → Ends (recv_transfer portion conv v s)
  unfolding recv_transfer
  recv_transfer-Ends conv v s = elim (Option-cases (transfer_items v)) [
    | inl e ↦ rw (e, recv_transfer) refl
    | inr ((i, total, off, xs), e) ↦ rw (e, recv_transfer) (recv_fragment-Ends _ total off xs s)
  ]

  recv_listen-Ends :
      (cbor : Cbor2) (conv : Conversation) (v w : Value) (s : Agent portion.Interval)
      → Ends (recv_listen portion cbor conv v w s)
  unfolding recv_listen add_tx_item
  recv_listen-Ends cbor conv v w s = elim (Bool-cases (is_int v)) [
    | inl e ↦ rw (e, recv_listen) tt
    | inr e ↦ rw (e, recv_listen) refl
  ]

  pmtud_recv_probe-Ends :
      (conv : Conversation) (v : Value) (s : Agent portion.Interval)
      → Ends (pmtud_recv_probe conv v s)
  unfolding pmtud_recv_probe
  pmtud_recv_probe-Ends conv v s = elim (Option-cases (probe_items v)) [
    | inl e ↦ rw (e, pmtud_recv_probe) refl
    | inr (p, e) ↦ rw (e, pmtud_recv_probe) tt
  ]

  on_key-Ends :
      (o : Option Value) (f : Value → Exec (Agent portion.Interval) (Unit {0}))
      (s : Agent portion.Interval)
      → ((v : Value) → Ends (f v s))
      → Ends (on_key portion o f s)
  on_key-Ends none f s p = tt
  on_key-Ends (some v) f s p = p v

  recv_extensions-Ends :
      (cbor : Cbor2) (conv : Conversation) (m : Entries) (s : Agent portion.Interval)
      → Ends (recv_extensions portion cbor conv m s)
  unfolding recv_extensions
  recv_extensions-Ends cbor conv m s =
      continue-Ends (on_key portion (ext_get sender_listen m) _ s) _
        (on_key-Ends (ext_get sender_listen m) _ s
          (λ v. recv_listen-Ends cbor conv v (or_empty (ext_get sender_nodeid m)) s))
        (λ _ t.
          continue-Ends (on_key portion (ext_get transfer m) (recv_transfer portion conv) t) _
            (on_key-Ends (ext_get transfer m) _ t (λ v. recv_transfer-Ends conv v t))
            (λ _ u. on_key-Ends (ext_get pmtud_probe m) _ u (λ v. pmtud_recv_probe-Ends conv v u)))

  serve_tls-Ends :
      (env : Env) (sock : Option ℕ) (conv : Conversation) (s : Agent portion.Interval)
      → Ends (serve_tls portion env sock conv s)
  unfolding serve_tls
  serve_tls-Ends env none conv s = tt
  serve_tls-Ends env (some sock) conv s =
      continue-Ends (start_tls env conv sock true s) _ (start_tls-Ends env conv sock true s)
        (λ _ t. tt)

  recv_ext_map-Ends :
      (cbor : Cbor2) (env : Env) (sock : Option ℕ) (conv : Conversation) (m : Entries)
      (s : Agent portion.Interval)
      → Ends (recv_ext_map portion cbor env sock conv m s)
  unfolding recv_ext_map
  recv_ext_map-Ends cbor env sock conv m s = elim (Bool-cases (is_some (ext_get starttls m))) [
    | inl e ↦
        rw (e, recv_ext_map)
          (continue-Ends (serve_tls portion env sock conv s) _ (serve_tls-Ends env sock conv s)
            (λ _ t. recv_extensions-Ends cbor conv m t))
    | inr e ↦ elim (Bool-cases (rejects sock s.config.require_tls)) [
      | inl q ↦ rw (e, recv_ext_map, q) tt
      | inr q ↦ rw (e, recv_ext_map, q) (recv_extensions-Ends cbor conv m s)
    ]
  ]

  recv_item-Ends :
      (cbor : Cbor2) (env : Env) (sock : Option ℕ) (conv : Conversation) (b : Bool) (buf : List ℕ)
      (v : Value) (rest : List ℕ) (s : Agent portion.Interval)
      → Ends (recv_item portion cbor env sock conv b buf v rest s)
  unfolding recv_item
  recv_item-Ends cbor env sock conv true buf v rest s = tt
  recv_item-Ends cbor env sock conv false buf v rest s = elim (Option-cases (as_dict v)) [
    | inl e ↦ rw (e, recv_item) refl
    | inr (m, e) ↦ rw (e, recv_item) (recv_ext_map-Ends cbor env sock conv m s)
  ]

  read_item-Ends :
      (cbor : Cbor2) (env : Env) (sock : Option ℕ) (conv : Conversation) (b : Bool) (buf : List ℕ)
      (k : List ℕ → Exec (Agent portion.Interval) (Unit {0})) (s : Agent portion.Interval)
      → IsCbor cbor
      → ((rest : List ℕ) (t : Agent portion.Interval) → length rest < length buf → Ends (k rest t))
      → Ends (read_item portion cbor env sock conv b buf k s)
  unfolding read_item
  read_item-Ends cbor env sock conv b buf k s c p = elim (Option-cases (cbor.load buf)) [
    | inl e ↦ rw (e, read_item) refl
    | inr ((v, rest), e) ↦
        rw (e, read_item)
          (continue-Ends (recv_item portion cbor env sock conv b buf v rest s) _
            (recv_item-Ends cbor env sock conv b buf v rest s)
            (λ _ t. p rest t (c.load_shrinks buf v rest e)))
  ]

  handle_message-Ends :
      (kind : Kind) (cbor : Cbor2) (env : Env) (sock : Option ℕ) (conv : Conversation)
      (buf : List ℕ) (k : List ℕ → Exec (Agent portion.Interval) (Unit {0}))
      (s : Agent portion.Interval)
      → IsCbor cbor
      → ((rest : List ℕ) (t : Agent portion.Interval) → length rest < length buf → Ends (k rest t))
      → Ends (handle_message portion kind cbor env sock conv buf k s)
  unfolding handle_message
  handle_message-Ends padding cbor env sock conv buf k s c p = tt
  handle_message-Ends handshake cbor env sock conv buf k s c p = serve_tls-Ends env sock conv s
  handle_message-Ends bpv6 cbor env sock conv buf k s c p = tt
  handle_message-Ends bundle cbor env sock conv buf k s c p =
      elim (Bool-cases (rejects sock s.config.require_tls)) [
        | inl q ↦ rw (q, handle_message) tt
        | inr q ↦ rw (q, handle_message) (read_item-Ends cbor env sock conv true buf k s c p)
      ]
  handle_message-Ends extension cbor env sock conv buf k s c p =
      read_item-Ends cbor env sock conv false buf k s c p
  handle_message-Ends unknown cbor env sock conv buf k s c p = tt

  recv_messages-Ends :
      (cbor : Cbor2) (env : Env) (sock : Option ℕ) (conv : Conversation) (fuel : ℕ) (buf : List ℕ)
      (s : Agent portion.Interval)
      → IsCbor cbor
      → length buf ≤ fuel
      → Ends (recv_messages portion cbor env sock conv fuel buf s)
  unfolding recv_messages
  recv_messages-Ends cbor env sock conv fuel [] s c h = tt
  recv_messages-Ends cbor env sock conv zero (b ∷ bs) s c h = absurd (omega (arith, h))
  recv_messages-Ends cbor env sock conv (suc fuel) (b ∷ bs) s c h =
      handle_message-Ends (message_kind b) cbor env sock conv (b ∷ bs)
        (λ rest t. recv_messages portion cbor env sock conv fuel rest t) s c
        (λ rest t lt. recv_messages-Ends cbor env sock conv fuel rest t c (omega (arith, lt, h)))

  -- The loop over the messages of a datagram ends for any octets, whatever its messages do: the call
  -- returns, or it raises what a message raised.
  pub recv_datagram-Ends :
      (cbor : Cbor2) (env : Env) (sock : Option ℕ) (octets : List ℕ) (conv : Conversation)
      (s : Agent portion.Interval)
      → IsCbor cbor
      → Ends (recv_datagram portion cbor env sock octets conv s)
  unfolding recv_datagram
  recv_datagram-Ends cbor env sock octets conv s c =
      recv_messages-Ends cbor env sock conv (length octets) octets s c (omega arith)
