-- ===== src/Common/Bits.antt =====
-- Masks on one octet as arithmetic; each is a table of at most 256 entries, checked by evaluation.
use Prim.Native.Nat.{ℕ, zero, suc, ◌+◌, ◌*◌, ◌/◌, ◌%◌, ◌<◌, bit_and, bit_or}
use mathlib.Core.Path.{◌≡◌, refl}
use mathlib.Core.Bool.{Bool, true, ◌&&◌}
use native.Mathlib.Omega.{arith}
use dtn_demo_agent.Common.Tests.{◌==◌, eqb→eq}

every_below : ℕ → (ℕ → Bool) → Bool
every_below zero p = true
every_below (suc n) p = p n && every_below n p

every_below_sound : (n : ℕ) (p : ℕ → Bool) (x : ℕ) → every_below n p ≡ true → x < n → p x ≡ true
unfolding every_below
every_below_sound zero p x h lt = absurd (omega arith)
every_below_sound (suc n) p x h lt = ground (arith, every_below_sound n p x)

pub low_seven : (b : ℕ) → b < 256 → bit_and b 0x7f ≡ b % 128
unfolding every_below
low_seven b h = eqb→eq _ _ (every_below_sound 256 (λ x. bit_and x 0x7f == x % 128) b refl h)

pub top_bit : (b : ℕ) → b < 256 → bit_and b 0x80 ≡ b / 128 * 128
unfolding every_below
top_bit b h = eqb→eq _ _ (every_below_sound 256 (λ x. bit_and x 0x80 == x / 128 * 128) b refl h)

pub set_top_bit : (b : ℕ) → b < 128 → bit_or 0x80 b ≡ b + 128
unfolding every_below
set_top_bit b h = eqb→eq _ _ (every_below_sound 128 (λ x. bit_or 0x80 x == x + 128) b refl h)
