-- ===== src/Udpcl/RoundTrip/Whole.antt =====
-- From `_send_transfer` to `_recv_datagram` of src/udpcl/agent.py.
use dtn_demo_agent.Common.{
  ℕ, zero, suc, ◌+◌, ◌<◌, ◌≡◌, refl, sym, ap, ◌∙◌, subst, false, Option, none, some, List, [], ◌∷◌,
  arith, Bool-cases, inl, inr, length, ltb, dec_lt,
}
use dtn_demo_agent.Common.Exec.{Exec, done, pure, ◌>>◌}
use dtn_demo_agent.Common.Portion.{Portion}
use dtn_demo_agent.Udpcl.Value.{Value, Cbor2, IsCbor, transfer_map, major_type}
use dtn_demo_agent.Udpcl.Conversation.{Conversation}
use dtn_demo_agent.Udpcl.State.{Env, Transfer, Agent}
use dtn_demo_agent.Udpcl.Queue.{add_rx_item}
use dtn_demo_agent.Udpcl.Send.{fragment_loop, remain_size, send_segments}
use dtn_demo_agent.Udpcl.Send.Loop.{
  piece, length-piece, loop_past, loop_cons, some_inj, HasRoom, segments_end,
}
use dtn_demo_agent.Udpcl.Receive.{key_get, new_transfer, add_fragment, recv_datagram, rejects}
use dtn_demo_agent.Udpcl.Receive.Assembly.{new-Agrees, whole}
use dtn_demo_agent.Udpcl.RoundTrip.Message.{peer_key, map_datagram, bundle_datagram}
use dtn_demo_agent.Udpcl.RoundTrip.Pieces.{
  InProgress, add-InProgress, with_transfer, Holds, start-Holds, with-Holds, last_piece,
  inner_piece,
}

-- Octets that are one item, an array: a bundle.
pub record IsBundle (cbor : Cbor2) (content : List ℕ) : Type 0 where
  pub item : Value
  pub loaded : cbor.load content ≡ some (item, [])
  pub is_array : major_type content ≡ some 4

module _ (portion : Portion) (cbor : Cbor2) (env : Env) (sock : Option ℕ)
    (conv : Conversation) where
  -- Datagrams of a conversation, one after the other
  unfoldable pub recv_each : List (List ℕ) → Exec (Agent portion.Interval) (Unit {0})
  unfolding recv_datagram
  recv_each [] = pure tt
  recv_each (seg ∷ segs) = do recv_datagram portion cbor env sock seg conv; recv_each segs

  module _ (i : ℕ) (content : List ℕ) (s : Agent portion.Interval) where
    -- One fragment, and what follows it
    round_received :
        (remain fuel off : ℕ) (x : Transfer portion.Interval) (t : Agent portion.Interval)
        (rest : List (List ℕ))
        → IsCbor cbor
        → rejects sock s.config.require_tls ≡ false
        → Holds portion (peer_key conv i) content s x t
        → InProgress portion (peer_key conv i) content off x
        → off < length content
        → fragment_loop cbor i (length content) content remain fuel (off + remain) ≡ some rest
        → ((y : Transfer portion.Interval)
            → InProgress portion (peer_key conv i) content (off + remain) y
            → off + remain < length content
            → recv_each rest (with_transfer portion (peer_key conv i) content s y)
              ≡ done tt (add_rx_item (whole portion (peer_key conv i) content) s))
        → recv_each
            (cbor.dumps (transfer_map i (length content) off (piece content remain off)) ∷ rest)
            t
          ≡ done tt (add_rx_item (whole portion (peer_key conv i) content) s)
    unfolding recv_each
    round_received remain fuel off x t rest c q h p lt f next =
        let xs = piece content remain off in
        let d =
          map_datagram portion cbor env sock conv i (length content) off xs t c
            (ap (λ g. rejects sock g.require_tls) h.same_config ∙ q) in
        let p' = add-InProgress portion (peer_key conv i) content remain off x (omega arith) p in
        elim (dec_lt (off + remain) (length content)) [
          | yes inner ↦
              let n : off + length xs ≡ off + remain =
                omega (arith, length-piece content remain off) in
              rw
                (d
                  ∙ inner_piece portion (peer_key conv i) content s off (off + length xs) xs x t h
                      p' (omega arith))
                (next (add_fragment portion off xs x)
                  (subst
                    (λ o.
                      InProgress portion (peer_key conv i) content o
                        (add_fragment portion off xs x))
                    n p')
                  inner)
          | no past ↦
              rw
                (d
                  ∙ last_piece portion (peer_key conv i) content s off (off + length xs) xs x t h p'
                      (omega (arith, length-piece content remain off)))
                (ap (λ l. recv_each l (add_rx_item (whole portion (peer_key conv i) content) s))
                  (some_inj rest [] (
                    sym f
                    ∙ loop_past cbor i (length content) content remain fuel (off + remain)
                        (omega arith))))
        ]

    loop_received :
        (remain fuel off : ℕ) (x : Transfer portion.Interval) (t : Agent portion.Interval)
        (segs : List (List ℕ))
        → IsCbor cbor
        → rejects sock s.config.require_tls ≡ false
        → key_get (peer_key conv i) s.rx_fragments ≡ none
        → Holds portion (peer_key conv i) content s x t
        → InProgress portion (peer_key conv i) content off x
        → off < length content
        → fragment_loop cbor i (length content) content remain fuel off ≡ some segs
        → recv_each segs t ≡ done tt (add_rx_item (whole portion (peer_key conv i) content) s)
    unfolding fragment_loop recv_each
    loop_received remain zero off x t segs c q k h p lt e = absurd (ground arith)
    loop_received remain (suc fuel) off x t segs c q k h p lt e =
        let (rest, f, g) = loop_cons cbor i (length content) content remain fuel off segs lt e in
        subst
          (λ l. recv_each l t ≡ done tt (add_rx_item (whole portion (peer_key conv i) content) s))
          (sym g)
          (round_received remain fuel off x t rest c q h p lt f (λ y p' lt'.
            loop_received remain fuel (off + remain) y
              (with_transfer portion (peer_key conv i) content s y) rest c q k
              (with-Holds portion (peer_key conv i) content s y k p'.agrees) p' lt' f))

  one_received :
      (content : List ℕ) (s : Agent portion.Interval) (i : ℕ)
      → IsBundle cbor content
      → rejects sock s.config.require_tls ≡ false
      → recv_each (content ∷ []) s
        ≡ done tt (add_rx_item (whole portion (peer_key conv i) content) s)
  unfolding recv_each
  one_received content s i b q =
      rw (bundle_datagram portion cbor env sock conv b.item content s q b.is_array b.loaded) refl

  content_nonempty : (content : List ℕ) → major_type content ≡ some 4 → 0 < length content
  unfolding major_type
  content_nonempty [] e = absurd cc
  content_nonempty (x ∷ xs) e = omega arith

  zero_progress :
      (i : ℕ) (content : List ℕ)
      → InProgress portion
          (peer_key conv i)
          content
          0
          (new_transfer portion (peer_key conv i) (length content))
  unfolding new_transfer
  zero_progress i content = record {
    agrees = new-Agrees portion (peer_key conv i) content;
    upto = λ j. ground (arith, portion.member-empty j);
  }

  received :
      (mtu : Option ℕ) (i : ℕ) (content : List ℕ) (s : Agent portion.Interval)
      (segs : List (List ℕ))
      → IsCbor cbor
      → IsBundle cbor content
      → rejects sock s.config.require_tls ≡ false
      → key_get (peer_key conv i) s.rx_fragments ≡ none
      → send_segments cbor mtu i (length content) content ≡ some segs
      → recv_each segs s ≡ done tt (add_rx_item (whole portion (peer_key conv i) content) s)
  unfolding send_segments
  received none i content s segs c b q k e =
      subst (λ l. recv_each l s ≡ done tt (add_rx_item (whole portion (peer_key conv i) content) s))
        (some_inj (content ∷ []) segs e) (one_received content s i b q)
  received (some mtu) i content s segs c b q k e = elim (Bool-cases (ltb (length content) mtu)) [
    | inl small ↦
        subst
          (λ l. recv_each l s ≡ done tt (add_rx_item (whole portion (peer_key conv i) content) s))
          (some_inj (content ∷ []) segs (rw small at e)) (one_received content s i b q)
    | inr large ↦
        loop_received i content s (remain_size cbor mtu i (length content)) (length content) 0 _ s
          segs c q k (start-Holds portion (peer_key conv i) content s k) (zero_progress i content)
          (content_nonempty content b.is_array) (rw large at e)
  ]

  -- An item that `_send_transfer` cuts, its datagrams received in order, is one bundle more at the other
  -- side, which has exactly the octets of the item and comes from the peer of the conversation; nothing
  -- else changes there. So it is for an item that fits into one datagram. The conditions are that the
  -- octets are a bundle, that there is room for data in a fragment if there have to be any, that the
  -- datagrams are not rejected as not secured, and that no transfer with the number is in progress.
  pub transfer_round_trip :
      (mtu : Option ℕ) (i : ℕ) (content : List ℕ) (s : Agent portion.Interval)
      → IsCbor cbor
      → IsBundle cbor content
      → HasRoom cbor mtu i (length content)
      → rejects sock s.config.require_tls ≡ false
      → key_get (peer_key conv i) s.rx_fragments ≡ none
      → (segs : List (List ℕ)) × (send_segments cbor mtu i (length content) content ≡ some segs)
        × (recv_each segs s ≡ done tt (add_rx_item (whole portion (peer_key conv i) content) s))
  unfolding send_segments
  transfer_round_trip mtu i content s c b r q k =
      let (segs, e) = segments_end cbor mtu i (length content) content r in
      (segs, e, received mtu i content s segs c b q k e)
