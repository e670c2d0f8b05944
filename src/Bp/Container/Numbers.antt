-- ===== src/Bp/Container/Numbers.antt =====
-- The block numbers that `BundleContainer.get_block_num` of src/bp/util.py gives.
use dtn_demo_agent.Common.{
  ℕ, zero, suc, ◌+◌, ◌≤◌, ◌<◌, ◌≡◌, refl, false, some, List, [], ◌∷◌, contains, arith, Bool-cases,
  inl, inr,
}
use dtn_demo_agent.Common.Exec.{done}
use dtn_demo_agent.Bp.Container.{Container, get_block_num, get_block_num_loop, largest}

contains-past : (n : ℕ) (nums : List ℕ) → largest nums < n → contains n nums ≡ false
contains-past n [] h = refl
contains-past n (x ∷ xs) h = ground (arith, contains-past n xs)

-- A number that is new, past one that was given.
pub record IsNew (last : ℕ) (nums : List ℕ) (n : ℕ) : Type 0 where
  pub past : last < n
  pub unused : contains n nums ≡ false

pub IsNew-loop :
    (fuel last : ℕ) (nums : List ℕ)
    → largest nums ≤ last + fuel
    → (n : ℕ) × (get_block_num_loop (suc fuel) last nums ≡ some n) × IsNew last nums n
unfolding get_block_num_loop
IsNew-loop zero last nums h =
    let e = contains-past (suc last) nums (omega arith) in
    (suc last, ground (arith, e), record { past = omega arith; unused = e })
IsNew-loop (suc fuel) last nums h = elim (Bool-cases (contains (suc last) nums)) [
  | inl e ↦
      let (n, q, i) = IsNew-loop fuel (suc last) nums (omega arith) in
      (n, ground (arith, q), record { past = omega (arith, i.past); unused = i.unused })
  | inr e ↦ (suc last, ground (arith, e), record { past = omega arith; unused = e })
]

-- `get_block_num` always ends, with a number past the last one that it gave, which no block of the
-- index has; and it keeps that number as the last one, and changes nothing else.
pub get_block_num-IsNew :
    (c : Container)
    → (n : ℕ) × (get_block_num c ≡ done n (record c { last_block_num = n }))
      × IsNew c.last_block_num c.block_nums n
unfolding get_block_num
get_block_num-IsNew c =
    let (n, q, i) = IsNew-loop (largest c.block_nums) c.last_block_num c.block_nums (omega arith) in
    (n, ground (arith, q), i)
