-- ===== src/Tcpcl/Sdnv/Shape.antt =====
-- What `int2sdnv` writes.
use native.Mathlib.Numerals.{towards_suc}
use native.Mathlib.Nat.{add_comm}
use dtn_demo_agent.Common.{
  ℕ, zero, suc, ◌+◌, ◌*◌, ◌/◌, ◌^◌, ◌<◌, ◌≤◌, ◌≡◌, ◌⊎◌, List, [], ◌∷◌, inl, inr, dec_lt, length,
  arith,
}
use dtn_demo_agent.Tcpcl.Sdnv.{int2sdnv, int2sdnv_loop, continued, val_mask}
use dtn_demo_agent.Tcpcl.Sdnv.RoundTrip.{continued_lem, int2sdnv_loop_end, int2sdnv_loop_next}

-- One value: octets with the continuation bit, and then one without it.
abbrev IsSdnv : List ℕ → Type 0
IsSdnv [] = ⊥
IsSdnv (b ∷ []) = b < 128
IsSdnv (b ∷ c ∷ rest) = (128 ≤ b) × (b < 256) × IsSdnv (c ∷ rest)

IsSdnv-cons : (b : ℕ) (s : List ℕ) → 128 ≤ b → b < 256 → IsSdnv s → IsSdnv (b ∷ s)
IsSdnv-cons b [] lo hi h = absurd h
IsSdnv-cons b (c ∷ rest) lo hi h = (lo, hi, h)

loop-IsSdnv : (fuel : ℕ) (s : List ℕ) (val : ℕ) → IsSdnv s → IsSdnv (int2sdnv_loop fuel s val)
unfolding int2sdnv_loop
loop-IsSdnv zero s val h = h
loop-IsSdnv (suc fuel) s val h = elim (dec_lt 0 (val / 2 ^ 7)) [
  | no last ↦ rw (int2sdnv_loop_end fuel val s (omega arith)) h
  | yes more ↦ rw (int2sdnv_loop_next fuel val s more) (
      loop-IsSdnv fuel (continued (val / 2 ^ 7) ∷ s) (val / 2 ^ 7) (
        IsSdnv-cons (continued (val / 2 ^ 7)) s (omega (arith, continued_lem (val / 2 ^ 7)))
          (omega (arith, continued_lem (val / 2 ^ 7))) h))
]

-- Only the last octet of an encoded value lacks the continuation bit, and every octet is a byte.
int2sdnv-IsSdnv : (val : ℕ) → IsSdnv (int2sdnv val)
unfolding int2sdnv
int2sdnv-IsSdnv val = loop-IsSdnv val (val_mask val ∷ []) val (omega arith)

-- `n` groups of seven bits hold `val`, and `n - 1` groups do not: 128 ^ (n - 1) ≤ val.
abbrev IsGroups : ℕ → ℕ → Type 0
IsGroups n val = (val < 128 ^ n) × ((n ≡ 0) ⊎ (128 ^ n ≤ 128 * val))

IsGroups-suc : (n val : ℕ) → IsGroups n (val / 128) → (0 < val) → IsGroups (suc n) val
IsGroups-suc zero val h p = (omega arith, inr (omega arith))
IsGroups-suc (suc n) val (hi, inl e) p = absurd (omega arith)
IsGroups-suc (suc n) val (hi, inr lo) p = (omega arith, inr (omega arith))

length-loop :
    (fuel : ℕ) (s : List ℕ) (val : ℕ)
    → val ≤ fuel
    → (n : ℕ) × (length (int2sdnv_loop fuel s val) ≡ length s + n) × IsGroups n (val / 128)
unfolding int2sdnv_loop
length-loop zero s val h = (0, omega arith, omega arith)
length-loop (suc fuel) s val h = elim (dec_lt 0 (val / 2 ^ 7)) [
  | no last ↦ (0, rw (int2sdnv_loop_end fuel val s (omega arith)) (omega arith), omega arith)
  | yes more ↦
      let (n, e, g) = length-loop fuel (continued (val / 2 ^ 7) ∷ s) (val / 2 ^ 7) (omega arith) in
      (
        suc n,
        rw (int2sdnv_loop_next fuel val s more) (omega arith),
        IsGroups-suc n (val / 128) g (omega arith),
      )
]

-- The encoding of a positive value is the shortest: it has as many octets as the value has groups
-- of seven bits.
length-int2sdnv : (val : ℕ) → 0 < val → IsGroups (length (int2sdnv val)) val
unfolding int2sdnv
length-int2sdnv val p =
    let (n, e, g) = length-loop val (val_mask val ∷ []) val (omega arith) in
    rw (e, add_comm 1 n) (simp towards_suc (IsGroups-suc n val g p))
