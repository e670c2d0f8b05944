-- ===== src/Common/Portion.antt =====
-- The part of the package `portion` that src/bp/app/fragment.py and src/udpcl/agent.py use.
pub mod Spans
pub mod Assembly
use Prim.Native.Nat.{ℕ, zero, suc}
use mathlib.Core.Path.{◌≡◌}
use mathlib.Core.Bool.{Bool, true, false, ◌&&◌, ◌||◌}
use mathlib.Core.List.{List, [], ◌∷◌}
use dtn_demo_agent.Common.Tests.{ltb, leb}

-- Sets of positions: `portion.empty()`, `portion.closedopen(a, b)`, `|`, `==`, and membership of a whole
-- number. Sets that are made so have whole ends, and `portion` merges what touches, so that they are
-- equal exactly if they have the same whole numbers.
pub record Portion : Type 1 where
  pub Interval : Type 0
  pub empty : Interval
  pub closedopen : ℕ → ℕ → Interval
  pub union : Interval → Interval → Interval
  pub equal : Interval → Interval → Bool
  pub member : Interval → ℕ → Bool
  pub member-empty : (i : ℕ) → member empty i ≡ false
  pub member-closedopen : (a b i : ℕ) → member (closedopen a b) i ≡ (leb a i && ltb i b)
  pub member-union : (x y : Interval) (i : ℕ) → member (union x y) i ≡ (member x i || member y i)
  pub member→equal : (x y : Interval) → ((i : ℕ) → member x i ≡ member y i) → equal x y ≡ true
  pub equal→member : (x y : Interval) → equal x y ≡ true → (i : ℕ) → member x i ≡ member y i

-- `bytearray(n)`
abbrev pub zeros : ℕ → List ℕ
zeros zero = []
zeros (suc n) = 0 ∷ zeros n
