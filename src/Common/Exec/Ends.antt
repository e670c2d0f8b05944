-- ===== src/Common/Exec/Ends.antt =====
-- Calls whose loops end: the fuel is never used up.
use mathlib.Core.Path.{◌≡◌}
use mathlib.Core.Bool.{Bool, true, false}
use dtn_demo_agent.Common.Exec.{Exec, Exn, Outcome, done, raised, continue, when, stuck}

abbrev pub is_stuck : Exn → Bool
is_stuck stuck = true
is_stuck _ = false

module _ {S A : Type 0} where
  abbrev pub Ends : Outcome S A → Type 0
  Ends (done a s) = Unit
  Ends (raised e s) = is_stuck e ≡ false

module _ {S : Type 0} where
  pub when-Ends :
      (b : Bool) (e : Exn) (s : S) → is_stuck e ≡ false → Ends (when b (λ t. raised e t) s)
  when-Ends true e s h = h
  when-Ends false e s h = tt

module _ {S A B : Type 0} where
  pub continue-Ends :
      (o : Outcome S A) (f : A → Exec S B)
      → Ends o
      → ((a : A) (s : S) → Ends (f a s))
      → Ends (continue o f)
  continue-Ends (done a s) f h k = k a s
  continue-Ends (raised e s) f h k = h
