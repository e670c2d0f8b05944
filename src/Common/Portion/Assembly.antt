-- ===== src/Common/Portion/Assembly.antt =====
-- Octets that are put together from slices, against those that the slices are of.
use Prim.Native.Nat.{ℕ, zero, suc, ◌+◌, ◌≤◌, ◌<◌}
use mathlib.Core.Path.{◌≡◌, refl, ◌∙◌}
use mathlib.Core.Logic.{inl, inr}
use mathlib.Core.Bool.{true}
use mathlib.Core.List.{List}
use native.Mathlib.Omega.{arith}
use native.Mathlib.Decide.{dec_lt}
use dtn_demo_agent.Common.Tests.{Bool-cases}
use dtn_demo_agent.Common.Lists.{length, take, drop}
use dtn_demo_agent.Common.Nth.{nth, splice, nth_ext, nth-splice_in, nth-splice_out, length-splice}
use dtn_demo_agent.Common.Portion.{Portion, zeros}

length-zeros : (n : ℕ) → length (zeros n) ≡ n
length-zeros zero = refl
length-zeros (suc n) = omega (arith, length-zeros n)

-- These octets are the slice of the payload at an offset.
pub record IsSlice (payload : List ℕ) (offset : ℕ) (xs : List ℕ) : Type 0 where
  pub within : offset + length xs ≤ length payload
  pub same : take (length xs) (drop offset payload) ≡ xs

module _ (portion : Portion) where
  -- The octets that are there are those of the payload.
  pub record Filled (payload : List ℕ) (total_valid valid : portion.Interval) (octets : List ℕ)
      : Type 0 where
    pub total : total_valid ≡ portion.closedopen 0 (length payload)
    pub size : length octets ≡ length payload
    pub bounded : (i : ℕ) → portion.member valid i ≡ true → i < length payload
    pub covered : (i : ℕ) → portion.member valid i ≡ true → nth i octets ≡ nth i payload

  pub zeros-Filled :
      (payload : List ℕ)
      → Filled payload
          (portion.closedopen 0 (length payload))
          portion.empty
          (zeros (length payload))
  zeros-Filled payload = record {
    total = refl;
    size = length-zeros (length payload);
    bounded = λ i m. absurd (grind (arith, portion.member-empty i));
    covered = λ i m. absurd (grind (arith, portion.member-empty i));
  }

  pub splice-Filled :
      (payload xs : List ℕ) (offset : ℕ) (total_valid valid : portion.Interval) (octets : List ℕ)
      → IsSlice payload offset xs
      → Filled payload total_valid valid octets
      → Filled payload total_valid
          (portion.union valid (portion.closedopen offset (offset + length xs)))
          (splice offset xs octets)
  splice-Filled payload xs offset total_valid valid octets s h = record {
    total = h.total;
    size = length-splice offset xs octets (omega (arith, h.size, s.within)) ∙ h.size;
    bounded = λ i m. elim (Bool-cases (portion.member valid i)) [
      | inl b ↦ h.bounded i b
      | inr b ↦ ground (
        arith,
        s.within,
        portion.member-union valid (portion.closedopen offset (offset + length xs)) i,
        portion.member-closedopen offset (offset + length xs) i,
      )
    ];
    covered = λ i m. elim (dec_lt i offset) [
      | yes a ↦
          nth-splice_out i offset xs octets (omega (arith, h.size, s.within)) (inl a)
          ∙ h.covered i (
              ground (
                arith,
                portion.member-union valid (portion.closedopen offset (offset + length xs)) i,
                portion.member-closedopen offset (offset + length xs) i,
              ))
      | no a ↦ elim (dec_lt i (offset + length xs)) [
        | yes b ↦ nth-splice_in i offset xs octets payload s.within h.size s.same (omega arith) b
        | no b ↦
            nth-splice_out i offset xs octets (omega (arith, h.size, s.within)) (inr (omega arith))
            ∙ h.covered i (
                ground (
                  arith,
                  portion.member-union valid (portion.closedopen offset (offset + length xs)) i,
                  portion.member-closedopen offset (offset + length xs) i,
                ))
      ]
    ];
  }

  pub filled_complete :
      (payload : List ℕ) (total_valid valid : portion.Interval) (octets : List ℕ)
      → Filled payload total_valid valid octets
      → portion.equal valid total_valid ≡ true
      → octets ≡ payload
  filled_complete payload total_valid valid octets h e = nth_ext octets payload h.size (λ i lt.
      h.covered i (
        portion.equal→member valid total_valid e i
        ∙ ground (arith, h.total, portion.member-closedopen 0 (length payload) i)))

  -- Every position of the payload is there.
  abbrev pub Covers : List ℕ → portion.Interval → Type 0
  Covers payload x = (i : ℕ) → i < length payload → portion.member x i ≡ true

  pub filled_equal :
      (payload : List ℕ) (total_valid valid : portion.Interval) (octets : List ℕ)
      → Filled payload total_valid valid octets
      → Covers payload valid
      → portion.equal valid total_valid ≡ true
  filled_equal payload total_valid valid octets a cov = portion.member→equal valid total_valid (λ i.
      elim (dec_lt i (length payload)) [
        | yes lt ↦ ground (arith, cov i lt, a.total, portion.member-closedopen 0 (length payload) i)
        | no ge ↦ elim (Bool-cases (portion.member valid i)) [
          | inl m ↦ absurd (ge (a.bounded i m))
          | inr m ↦ ground (arith, m, a.total, portion.member-closedopen 0 (length payload) i)
        ]
      ])
