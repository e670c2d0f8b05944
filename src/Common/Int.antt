-- ===== src/Common/Int.antt =====
-- Signed integers; `negsuc n` is -(n + 1).
use Prim.Native.Nat.{ℕ, max}

pub data ℤ : Type 0 where
  pos : ℕ → ℤ
  negsuc : ℕ → ℤ

-- `max(i, n)` for a natural `n`
abbrev pub max_ℕ : ℤ → ℕ → ℕ
max_ℕ (pos m) n = max m n
max_ℕ (negsuc m) n = n
