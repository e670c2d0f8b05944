-- ===== src/Common/Exec/Keeps.antt =====
-- What a call keeps, whether it returns or raises: a rule for each way to build a call.
use mathlib.Core.Bool.{Bool, true, false}
use dtn_demo_agent.Common.Exec.{
  Exec, Exn, Outcome, done, raised, final, continue, get, modify, when, ◌>>=◌,
}

pub record Keeps {S A : Type 0} (P : S → Type 0) (m : Exec S A) : Type 0 where
  pub at : (s : S) → P s → P (final (m s))

module _ {S A : Type 0} {P : S → Type 0} where
  pub Keeps-pure : (a : A) → Keeps P (λ s. done a s)
  Keeps-pure a = record { at = λ s h. h }

  pub Keeps-throw : (e : Exn) → Keeps {A = A} P (λ s. raised e s)
  Keeps-throw e = record { at = λ s h. h }

  pub Keeps-if :
      (b : Bool) (m n : Exec S A)
      → Keeps P m
      → Keeps P n
      → Keeps P (λ s. elim b [ true ↦ m s | false ↦ n s ])
  Keeps-if true m n p q = p
  Keeps-if false m n p q = q

module _ {S : Type 0} {P : S → Type 0} where
  pub Keeps-modify : (f : S → S) → ((s : S) → P s → P (f s)) → Keeps P (modify f)
  Keeps-modify f p = record { at = p }

  pub Keeps-get : Keeps P get
  Keeps-get = record { at = λ s h. h }

  pub Keeps-when : (b : Bool) (m : Exec S (Unit {0})) → Keeps P m → Keeps P (when b m)
  Keeps-when true m p = record { at = p.at }
  Keeps-when false m p = record { at = λ s h. h }

module _ {S A B : Type 0} {P : S → Type 0} where
  pub continue-Keeps :
      (o : Outcome S A) (f : A → Exec S B)
      → P (final o)
      → ((a : A) → Keeps P (f a))
      → P (final (continue o f))
  continue-Keeps (done a t) f h q = (q a).at t h
  continue-Keeps (raised e t) f h q = h

  pub Keeps-bind :
      {m : Exec S A} {f : A → Exec S B} → Keeps P m → ((a : A) → Keeps P (f a)) → Keeps P (m >>= f)
  Keeps-bind {m} {f} p q = record { at = λ s h. continue-Keeps (m s) f (p.at s h) q }
