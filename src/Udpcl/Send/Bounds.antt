-- ===== src/Udpcl/Send/Bounds.antt =====
-- The sizes of the datagrams of `_send_transfer` of src/udpcl/agent.py.
use dtn_demo_agent.Common.{
  ℕ, zero, suc, ◌+◌, ◌≤◌, ◌<◌, ◌≡◌, refl, none, some, List, [], ◌∷◌, arith, Bool-cases, inl, inr,
  All, length, take, drop, length-take, length-drop, ltb, ltb→lt, lt→ltb, subst, sym, ◌∙◌,
}
use dtn_demo_agent.Udpcl.Value.{Cbor2, uint, transfer_map}
use dtn_demo_agent.Udpcl.Send.Loop.{loop_past, loop_cons, some_inj}
use dtn_demo_agent.Udpcl.Send.{remain_size, fragment_loop, send_segments}

-- What `_send_transfer` relies on of `cbor2`: the head of a number, and that of a string by its length,
-- grow with it, and that of an empty string is one octet.
pub record IsSized (cbor : Cbor2) : Type 0 where
  pub fragment_size :
      (i n off : ℕ) (content : List ℕ)
      → off ≤ n
      → length content ≤ n
      → length (cbor.dumps (transfer_map i n off content)) + 1
        ≤ length (cbor.dumps (transfer_map i n n []))
          + length (cbor.dumps (uint n))
          + length content

module _ (cbor : Cbor2) (mtu i : ℕ) (content : List ℕ) where
  abbrev room : ℕ
  room = remain_size cbor mtu i (length content)

  fragment_fits :
      (off : ℕ)
      → IsSized cbor
      → 0 < room
      → off ≤ length content
      → length (cbor.dumps (transfer_map i (length content) off (take room (drop off content))))
        ≤ mtu
  unfolding remain_size
  fragment_fits off z r h = omega (
    arith,
    r,
    length-take room (drop off content),
    length-drop off content,
    z.fragment_size i (length content) off (take room (drop off content)) h
        (omega (arith, length-take room (drop off content), length-drop off content)),
  )

  past_fits :
      (fuel off : ℕ) (segs : List (List ℕ))
      → length content ≤ off
      → fragment_loop cbor i (length content) content room fuel off ≡ some segs
      → All (λ seg. length seg ≤ mtu) segs
  past_fits fuel off segs h e =
      subst (λ l. All (λ seg. length seg ≤ mtu) l)
        (some_inj [] segs (sym (loop_past cbor i (length content) content room fuel off h) ∙ e)) tt

  loop_fits :
      (fuel off : ℕ) (segs : List (List ℕ))
      → IsSized cbor
      → 0 < room
      → fragment_loop cbor i (length content) content room fuel off ≡ some segs
      → All (λ seg. length seg ≤ mtu) segs
  unfolding fragment_loop
  loop_fits zero off segs z r e = elim (Bool-cases (ltb off (length content))) [
    | inl q ↦ absurd (ground arith)
    | inr q ↦ past_fits zero off segs (ground arith) e
  ]
  loop_fits (suc fuel) off segs z r e = elim (Bool-cases (ltb off (length content))) [
    | inl q ↦
        let (rest, f, g) =
          loop_cons cbor i (length content) content room fuel off segs
            (ltb→lt off (length content) q) e in
        subst (λ l. All (λ seg. length seg ≤ mtu) l) (sym g)
          (
            fragment_fits off z r (omega (arith, ltb→lt off (length content) q)),
            loop_fits fuel (off + room) rest z r f,
          )
    | inr q ↦ past_fits (suc fuel) off segs (ground arith) e
  ]

  -- No datagram that `_send_transfer` makes of an item is longer than the MTU, if there is one, on
  -- condition that there is room for data in a fragment.
  pub send_segments_fit :
      (segs : List (List ℕ))
      → IsSized cbor
      → 0 < remain_size cbor mtu i (length content)
      → send_segments cbor (some mtu) i (length content) content ≡ some segs
      → All (λ seg. length seg ≤ mtu) segs
  unfolding send_segments
  send_segments_fit segs z r e = elim (Bool-cases (ltb (length content) mtu)) [
    | inl q ↦
        subst (λ l. All (λ seg. length seg ≤ mtu) l) (some_inj (content ∷ []) segs (rw q at e))
          (omega (arith, ltb→lt (length content) mtu q), tt)
    | inr q ↦ loop_fits (length content) 0 segs z r (rw q at e)
  ]

  -- If there is no room for data in a fragment, the loop that cuts an item goes on for ever: no number of
  -- rounds is enough.
  pub no_room_loops :
      (fuel off : ℕ)
      → remain_size cbor mtu i (length content) ≡ 0
      → off < length content
      → fragment_loop cbor i
          (length content)
          content
          (remain_size cbor mtu i (length content))
          fuel
          off
        ≡ none
  unfolding fragment_loop
  no_room_loops zero off r h = rw (lt→ltb off (length content) h) refl
  no_room_loops (suc fuel) off r h =
      rw (lt→ltb off (length content) h, no_room_loops fuel (off + room) r (omega (arith, r, h)))
        refl
