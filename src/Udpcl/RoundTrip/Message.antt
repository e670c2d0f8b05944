-- ===== src/Udpcl/RoundTrip/Message.antt =====
-- A datagram of src/udpcl/agent.py that has one message.
use dtn_demo_agent.Common.{
  ℕ, zero, suc, ◌-◌, ◌/◌, ◌≡◌, refl, ap, ◌∙◌, subst, Bool, true, false, Option, some, List, [], ◌∷◌,
  append-nil, arith, length, take_all,
}
use dtn_demo_agent.Common.Exec.{done, continue-done}
use dtn_demo_agent.Common.Portion.{Portion}
use dtn_demo_agent.Udpcl.Value.{Value, Cbor2, IsCbor, transfer_map, major_type}
use dtn_demo_agent.Udpcl.Conversation.{Conversation, addr_str}
use dtn_demo_agent.Udpcl.State.{Env, TransferKey, Agent}
use dtn_demo_agent.Udpcl.Queue.{add_rx_item, received_item}
use dtn_demo_agent.Udpcl.Receive.{
  extension, bundle, message_kind, transfer_items, as_dict, recv_fragment, recv_transfer,
  recv_extensions, recv_ext_map, recv_item, read_item, handle_message, recv_messages, recv_datagram,
  rejects,
}

extension_kind : (b : ℕ) → b / 32 ≡ 5 → message_kind b ≡ extension
unfolding message_kind
extension_kind b e = ground arith

bundle_kind : (b : ℕ) → b / 32 ≡ 4 → message_kind b ≡ bundle
unfolding message_kind
bundle_kind b e = ground arith

some_inj : {A : Type 0} (a b : A) → some a ≡ some b → a ≡ b
some_inj a b e = cc

-- The key of a transfer with this number from the peer of a conversation
abbrev pub peer_key : Conversation → ℕ → TransferKey
peer_key conv i = record {
  address = addr_str conv.peer_address;
  port = conv.peer_port;
  xfer_id = i;
}

module _ (portion : Portion) (cbor : Cbor2) (env : Env) (sock : Option ℕ)
    (conv : Conversation) where
  map_received :
      (i n off : ℕ) (xs : List ℕ) (s : Agent portion.Interval)
      → rejects sock s.config.require_tls ≡ false
      → (buf : List ℕ)
      → recv_item portion cbor env sock conv false buf (transfer_map i n off xs) [] s
        ≡ recv_fragment portion (peer_key conv i) n off xs s
  unfolding recv_item as_dict recv_ext_map recv_extensions recv_transfer transfer_items transfer_map
  map_received i n off xs s e buf =
      rw e (continue-done (recv_fragment portion (peer_key conv i) n off xs s))

  one_item :
      (b : Bool) (v : Value) (buf : List ℕ) (fuel : ℕ) (s : Agent portion.Interval)
      → cbor.load buf ≡ some (v, [])
      → read_item portion cbor env sock conv b buf
          (λ rest t. recv_messages portion cbor env sock conv fuel rest t)
          s
        ≡ recv_item portion cbor env sock conv b buf v [] s
  unfolding read_item recv_messages
  one_item b v buf fuel s e = rw (e, read_item) (continue-done _)

  one_map :
      (v : Value) (buf : List ℕ) (fuel : ℕ) (s : Agent portion.Interval)
      → length buf ≡ fuel
      → major_type buf ≡ some 5
      → cbor.load buf ≡ some (v, [])
      → recv_messages portion cbor env sock conv fuel buf s
        ≡ recv_item portion cbor env sock conv false buf v [] s
  unfolding recv_messages handle_message major_type
  one_map v [] fuel s l m e = absurd cc
  one_map v (b ∷ bs) zero s l m e = absurd (omega (arith, l))
  one_map v (b ∷ bs) (suc fuel) s l m e =
      rw (extension_kind b (some_inj (b / 32) 5 m), handle_message)
        (one_item false v (b ∷ bs) fuel s e)

  one_bundle :
      (v : Value) (buf : List ℕ) (fuel : ℕ) (s : Agent portion.Interval)
      → length buf ≡ fuel
      → rejects sock s.config.require_tls ≡ false
      → major_type buf ≡ some 4
      → cbor.load buf ≡ some (v, [])
      → recv_messages portion cbor env sock conv fuel buf s
        ≡ recv_item portion cbor env sock conv true buf v [] s
  unfolding recv_messages handle_message major_type
  one_bundle v [] fuel s l q m e = absurd cc
  one_bundle v (b ∷ bs) zero s l q m e = absurd (omega (arith, l))
  one_bundle v (b ∷ bs) (suc fuel) s l q m e =
      rw (bundle_kind b (some_inj (b / 32) 4 m), handle_message, q)
        (one_item true v (b ∷ bs) fuel s e)

  -- A datagram with a fragment
  pub map_datagram :
      (i n off : ℕ) (xs : List ℕ) (s : Agent portion.Interval)
      → IsCbor cbor
      → rejects sock s.config.require_tls ≡ false
      → recv_datagram portion cbor env sock (cbor.dumps (transfer_map i n off xs)) conv s
        ≡ recv_fragment portion (peer_key conv i) n off xs s
  unfolding recv_datagram
  map_datagram i n off xs s c e =
      one_map (transfer_map i n off xs) (cbor.dumps (transfer_map i n off xs)) _ s refl
        (c.map_major i n off xs)
        (subst (λ buf. cbor.load buf ≡ some (transfer_map i n off xs, []))
          (append-nil (cbor.dumps (transfer_map i n off xs))) (c.load-dumps i n off xs []))
      ∙ map_received i n off xs s e (cbor.dumps (transfer_map i n off xs))

  -- A datagram with a bundle
  pub bundle_datagram :
      (v : Value) (content : List ℕ) (s : Agent portion.Interval)
      → rejects sock s.config.require_tls ≡ false
      → major_type content ≡ some 4
      → cbor.load content ≡ some (v, [])
      → recv_datagram portion cbor env sock content conv s
        ≡ done tt (
            add_rx_item
              (received_item (addr_str conv.peer_address) conv.peer_port content (length content))
              s)
  unfolding recv_datagram recv_item
  bundle_datagram v content s q m e =
      one_bundle v content (length content) s refl q m e
      ∙ ap
          (λ xs. done tt (
            add_rx_item (received_item (addr_str conv.peer_address) conv.peer_port xs (length xs))
              s))
          (take_all (length content - 0) content (omega arith))
