-- ===== src/Udpcl/Send/Loop.antt =====
-- The loop of `_send_transfer` of src/udpcl/agent.py.
use dtn_demo_agent.Common.{
  ℕ, zero, suc, ◌+◌, ◌-◌, ◌≤◌, ◌<◌, min, ◌≡◌, refl, Option, none, some, List, [], ◌∷◌, arith,
  Bool-cases, Option-cases, inl, inr, length, take, drop, length-take, length-drop, ltb, lt→ltb,
}
use dtn_demo_agent.Udpcl.Value.{Cbor2, transfer_map}
use dtn_demo_agent.Udpcl.Send.{remain_size, fragment_loop, send_segments}

-- The octets of a fragment
abbrev pub piece : List ℕ → ℕ → ℕ → List ℕ
piece content remain off = take remain (drop off content)

pub length-piece :
    (content : List ℕ) (remain off : ℕ)
    → length (piece content remain off) ≡ min remain (length content - off)
length-piece content remain off =
    omega (arith, length-take remain (drop off content), length-drop off content)

pub loop_past :
    (cbor : Cbor2) (i n : ℕ) (content : List ℕ) (remain fuel off : ℕ)
    → length content ≤ off
    → fragment_loop cbor i n content remain fuel off ≡ some []
unfolding fragment_loop
loop_past cbor i n content remain zero off h = ground arith
loop_past cbor i n content remain (suc fuel) off h = ground arith

-- The room in a fragment, if an item of this length is cut at all.
abbrev pub HasRoom : Cbor2 → Option ℕ → ℕ → ℕ → Type 0
HasRoom cbor none i n = Unit {0}
HasRoom cbor (some mtu) i n = 0 < remain_size cbor mtu i n

loop_ends :
    (cbor : Cbor2) (i n : ℕ) (content : List ℕ) (remain fuel off : ℕ)
    → 0 < remain
    → length content ≤ off + fuel
    → (segs : List (List ℕ)) × (fragment_loop cbor i n content remain fuel off ≡ some segs)
unfolding fragment_loop
loop_ends cbor i n content remain zero off r h = ([], ground arith)
loop_ends cbor i n content remain (suc fuel) off r h =
    let (segs, e) = loop_ends cbor i n content remain fuel (off + remain) r (omega arith) in
    elim (Bool-cases (ltb off (length content))) [
      | inl q ↦
          (cbor.dumps (transfer_map i n off (piece content remain off)) ∷ segs, rw (q, e) refl)
      | inr q ↦ ([], rw q refl)
    ]

-- The segments of an item end if there is room for data in a fragment.
pub segments_end :
    (cbor : Cbor2) (mtu : Option ℕ) (i n : ℕ) (content : List ℕ)
    → HasRoom cbor mtu i n
    → (segs : List (List ℕ)) × (send_segments cbor mtu i n content ≡ some segs)
unfolding send_segments
segments_end cbor none i n content h = (content ∷ [], refl)
segments_end cbor (some mtu) i n content h = elim (Bool-cases (ltb (length content) mtu)) [
  | inl e ↦ (content ∷ [], rw e refl)
  | inr e ↦
      let (segs, q) =
        loop_ends cbor i n content (remain_size cbor mtu i n) (length content) 0 h (omega arith) in
      (segs, rw e q)
]

-- A round of the loop before the end
pub loop_cons :
    (cbor : Cbor2) (i n : ℕ) (content : List ℕ) (remain fuel off : ℕ) (segs : List (List ℕ))
    → off < length content
    → fragment_loop cbor i n content remain (suc fuel) off ≡ some segs
    → (rest : List (List ℕ)) × (fragment_loop cbor i n content remain fuel (off + remain)
        ≡ some rest)
      × (segs ≡ cbor.dumps (transfer_map i n off (piece content remain off)) ∷ rest)
unfolding fragment_loop
loop_cons cbor i n content remain fuel off segs lt e =
    elim (Option-cases (fragment_loop cbor i n content remain fuel (off + remain))) [
      | inl q ↦ absurd (ground (arith, lt→ltb off (length content) lt))
      | inr (rest, q) ↦ (rest, q, ground (arith, lt→ltb off (length content) lt))
    ]

pub some_inj : {A : Type 0} (a b : A) → some a ≡ some b → a ≡ b
some_inj a b e = cc
