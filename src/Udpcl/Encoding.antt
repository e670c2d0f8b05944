-- ===== src/Udpcl/Encoding.antt =====
-- A small encoding of the items that src/udpcl/agent.py sends, for examples.
use dtn_demo_agent.Common.{
  ℕ, suc, ◌<◌, ◌≡◌, refl, ap, Option, none, some, List, [], ◌∷◌, ◌++◌, ◌==◌, arith, length, take,
  drop, drop-append, length-drop, if◌then◌else◌, Bool-cases, inl, inr,
}
use dtn_demo_agent.Udpcl.Value.{
  Value, uint, nint, array, dict, nil, entry, end, Cbor2, IsCbor, transfer_map, major_type,
}
use dtn_demo_agent.Udpcl.Receive.{transfer_items}
use dtn_demo_agent.Udpcl.Send.Bounds.{IsSized}

-- A small encoding: an extension map with a transfer is 160, its numbers, and its data after the length.
-- An array is 128, a length, and so many octets.
abbrev pub toy_map : Option (ℕ × ℕ × ℕ × List ℕ) → List ℕ
toy_map none = 161 ∷ []
toy_map (some (i, n, off, xs)) = 160 ∷ i ∷ n ∷ off ∷ length xs ∷ xs

unfoldable pub toy_dumps : Value → List ℕ
unfolding transfer_items
toy_dumps (dict (entry k v m)) = toy_map (transfer_items v)
toy_dumps (dict end) = 161 ∷ []
toy_dumps (uint n) = 0 ∷ []
toy_dumps (nint n) = 32 ∷ []
toy_dumps _ = 246 ∷ []

abbrev pub load_map : List ℕ → Option (Value × List ℕ)
load_map (i ∷ n ∷ off ∷ l ∷ r) = some (transfer_map i n off (take l r), drop l r)
load_map _ = none

abbrev pub load_array : List ℕ → Option (Value × List ℕ)
load_array [] = none
load_array (l ∷ r) = some (array nil, drop l r)

unfoldable pub toy_load : List ℕ → Option (Value × List ℕ)
toy_load [] = none
toy_load (b ∷ bs) = if b == 160 then load_map bs else if b == 128 then load_array bs else none

abbrev pub cbor : Cbor2
cbor = record { dumps = toy_dumps; load = toy_load }

load_map_shrinks :
    (xs : List ℕ) (v : Value) (r : List ℕ) → load_map xs ≡ some (v, r) → length r < suc (length xs)
load_map_shrinks [] v r e = absurd cc
load_map_shrinks (i ∷ []) v r e = absurd cc
load_map_shrinks (i ∷ n ∷ []) v r e = absurd cc
load_map_shrinks (i ∷ n ∷ off ∷ []) v r e = absurd cc
load_map_shrinks (i ∷ n ∷ off ∷ l ∷ ys) v r e = ground (arith, length-drop l ys)

load_array_shrinks :
    (xs : List ℕ) (v : Value) (r : List ℕ)
    → load_array xs ≡ some (v, r)
    → length r < suc (length xs)
load_array_shrinks [] v r e = absurd cc
load_array_shrinks (l ∷ ys) v r e = ground (arith, length-drop l ys)

toy_shrinks :
    (xs : List ℕ) (v : Value) (r : List ℕ) → toy_load xs ≡ some (v, r) → length r < length xs
unfolding toy_load
toy_shrinks [] v r e = absurd cc
toy_shrinks (b ∷ bs) v r e = elim (Bool-cases (b == 160)) [
  | inl p ↦ load_map_shrinks bs v r (rw p at e)
  | inr p ↦ elim (Bool-cases (b == 128)) [
    | inl q ↦ load_array_shrinks bs v r (rw (p, q) at e)
    | inr q ↦ absurd (ground arith)
  ]
]

take-append : (xs ys : List ℕ) → take (length xs) (xs ++ ys) ≡ xs
take-append [] ys = refl
take-append (x ∷ xs) ys = ap (λ l. x ∷ l) (take-append xs ys)

toy_round :
    (i n off : ℕ) (content rest : List ℕ)
    → toy_load (toy_dumps (transfer_map i n off content) ++ rest)
      ≡ some (transfer_map i n off content, rest)
unfolding toy_load toy_dumps transfer_map transfer_items
toy_round i n off content rest = rw (take-append content rest, drop-append content rest) refl

pub cbor-IsCbor : IsCbor cbor
unfolding toy_dumps transfer_map transfer_items major_type
cbor-IsCbor = record {
  load_shrinks = toy_shrinks;
  load-dumps = toy_round;
  map_major = λ i n off xs. refl;
}

pub cbor-IsSized : IsSized cbor
unfolding toy_dumps transfer_map transfer_items
cbor-IsSized = record { fragment_size = λ i n off xs h k. omega arith }
