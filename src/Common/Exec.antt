-- ===== src/Common/Exec.antt =====
-- Methods that change an object and may raise. What was written before a raise stays written.
pub mod Keeps
pub mod Ends
use mathlib.Core.Bool.{Bool, true, false}
use mathlib.Core.Path.{◌≡◌, refl}
use Prim.Native.Nat.{ℕ}

-- The exceptions of the modelled methods. `stuck` is none of Python: a loop ran out of fuel.
pub data Exn : Type 0 where
  reject_error : ℕ → Exn
  terminate_error : ℕ → Exn
  verify_error runtime_error key_error value_error type_error attribute_error ssl_error : Exn
  zero_division_error index_error unbound_local_error decode_error os_error dbus_error stuck : Exn

pub data Outcome {ℓ} (S A : Type ℓ) : Type ℓ where
  done : A → S → Outcome S A
  raised : Exn → S → Outcome S A

abbrev pub Exec {ℓ} : Type ℓ → Type ℓ → Type ℓ
Exec S A = S → Outcome S A

module _ {ℓ} {S A : Type ℓ} where
  abbrev pub pure : A → Exec S A
  pure a s = done a s

  abbrev pub throw : Exn → Exec S A
  throw e s = raised e s

  -- the state that a call leaves, whether it returns or raises
  abbrev pub final : Outcome S A → S
  final (done a s) = s
  final (raised e s) = s

module _ {ℓ} {S : Type ℓ} where
  abbrev pub get : Exec S S
  get s = done s s

  abbrev pub modify : (S → S) → Exec S (Unit {ℓ})
  modify f s = done tt (f s)

  -- `if b: m`
  abbrev pub when : Bool → Exec S (Unit {ℓ}) → Exec S (Unit {ℓ})
  when true m s = m s
  when false m s = done tt s

module _ {ℓ} {S A B : Type ℓ} where
  abbrev pub continue : Outcome S A → (A → Exec S B) → Outcome S B
  continue (done a s) f = f a s
  continue (raised e s) f = raised e s

  infixl 5 ◌>>=◌
  abbrev pub ◌>>=◌ : Exec S A → (A → Exec S B) → Exec S B
  ◌>>=◌ m f s = continue (m s) f

infixl 5 ◌>>◌
abbrev pub ◌>>◌ {ℓ} : {S B : Type ℓ} → Exec S (Unit {ℓ}) → Exec S B → Exec S B
◌>>◌ m k = m >>= λ _. k

-- To do nothing more changes nothing.
pub continue-done {ℓ} : {S : Type ℓ} (o : Outcome S (Unit {ℓ})) → continue o (λ _ t. done tt t) ≡ o
continue-done (done _ t) = refl
continue-done (raised e t) = refl
