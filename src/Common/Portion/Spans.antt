-- ===== src/Common/Portion/Spans.antt =====
-- Sets of positions as lists of Booleans: an instance of the interface of the package `portion`.
use Prim.Native.Nat.{ℕ, zero, suc}
use mathlib.Core.Path.{◌≡◌, refl}
use mathlib.Core.Bool.{Bool, true, false, not, ◌&&◌, ◌||◌}
use mathlib.Core.List.{List, [], ◌∷◌}
use native.Mathlib.Omega.{arith}
use dtn_demo_agent.Common.Tests.{ltb, leb}
use dtn_demo_agent.Common.Portion.{Portion}

abbrev member : List Bool → ℕ → Bool
member [] i = false
member (b ∷ bs) zero = b
member (b ∷ bs) (suc i) = member bs i

abbrev closedopen : ℕ → ℕ → List Bool
closedopen a zero = []
closedopen zero (suc b) = true ∷ closedopen zero b
closedopen (suc a) (suc b) = false ∷ closedopen a b

abbrev union : List Bool → List Bool → List Bool
union [] ys = ys
union (x ∷ xs) [] = x ∷ xs
union (x ∷ xs) (y ∷ ys) = (x || y) ∷ union xs ys

abbrev same : Bool → Bool → Bool
same true b = b
same false b = not b

abbrev equal : List Bool → List Bool → Bool
equal [] [] = true
equal [] (y ∷ ys) = not y && equal [] ys
equal (x ∷ xs) [] = not x && equal xs []
equal (x ∷ xs) (y ∷ ys) = same x y && equal xs ys

pub member-closedopen : (a b i : ℕ) → member (closedopen a b) i ≡ (leb a i && ltb i b)
member-closedopen a zero i = ground arith
member-closedopen zero (suc b) zero = ground arith
member-closedopen zero (suc b) (suc i) = ground (arith, member-closedopen zero b i)
member-closedopen (suc a) (suc b) zero = ground arith
member-closedopen (suc a) (suc b) (suc i) = ground (arith, member-closedopen a b i)

pub member-union : (x y : List Bool) (i : ℕ) → member (union x y) i ≡ (member x i || member y i)
member-union [] ys i = refl
member-union (x ∷ xs) [] i = ground arith
member-union (x ∷ xs) (y ∷ ys) zero = refl
member-union (x ∷ xs) (y ∷ ys) (suc i) = member-union xs ys i

pub equal→member : (x y : List Bool) → equal x y ≡ true → (i : ℕ) → member x i ≡ member y i
equal→member [] [] e i = refl
equal→member [] (y ∷ ys) e zero = ground arith
equal→member [] (y ∷ ys) e (suc i) = equal→member [] ys (ground arith) i
equal→member (x ∷ xs) [] e zero = ground arith
equal→member (x ∷ xs) [] e (suc i) = equal→member xs [] (ground arith) i
equal→member (x ∷ xs) (y ∷ ys) e zero = ground arith
equal→member (x ∷ xs) (y ∷ ys) e (suc i) = equal→member xs ys (ground arith) i

pub member→equal : (x y : List Bool) → ((i : ℕ) → member x i ≡ member y i) → equal x y ≡ true
member→equal [] [] f = refl
member→equal [] (y ∷ ys) f = ground (arith, f 0, member→equal [] ys (λ i. f (suc i)))
member→equal (x ∷ xs) [] f = ground (arith, f 0, member→equal xs [] (λ i. f (suc i)))
member→equal (x ∷ xs) (y ∷ ys) f = ground (arith, f 0, member→equal xs ys (λ i. f (suc i)))

abbrev pub spans : Portion
spans = record {
  Interval = List Bool;
  empty = [];
  closedopen = closedopen;
  union = union;
  equal = equal;
  member = member;
  member-empty = λ i. refl;
  member-closedopen = member-closedopen;
  member-union = member-union;
  member→equal = member→equal;
  equal→member = equal→member;
}
