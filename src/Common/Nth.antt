-- ===== src/Common/Nth.antt =====
-- Elements of a list by index, and a slice that is written into a list.
use Prim.Native.Nat.{ℕ, zero, suc, ◌+◌, ◌-◌, ◌≤◌, ◌<◌}
use mathlib.Core.Path.{◌≡◌, refl, ap, sym, ◌∙◌}
use mathlib.Core.Logic.{◌⊎◌, inl, inr}
use mathlib.Core.Option.{Option, none, some}
use mathlib.Core.List.{List, [], ◌∷◌, ◌++◌}
use native.Mathlib.Omega.{arith}
use dtn_demo_agent.Common.Lists.{length, take, drop, length-take, length-drop, length-append}

module _ {ℓ} {A : Type ℓ} where
  abbrev pub nth : ℕ → List A → Option A
  nth i [] = none
  nth zero (x ∷ xs) = some x
  nth (suc i) (x ∷ xs) = nth i xs

  -- `xs[off:off + len(ys)] = ys`
  abbrev pub splice : ℕ → List A → List A → List A
  splice off ys xs = take off xs ++ (ys ++ drop (off + length ys) xs)

  pub nth_ext :
      (xs ys : List A)
      → length xs ≡ length ys
      → ((i : ℕ) → i < length ys → nth i xs ≡ nth i ys)
      → xs ≡ ys
  nth_ext [] [] e f = refl
  nth_ext [] (y ∷ ys) e f = absurd (omega arith)
  nth_ext (x ∷ xs) [] e f = absurd (omega arith)
  nth_ext (x ∷ xs) (y ∷ ys) e f =
      cc (f 0 (omega arith), nth_ext xs ys (omega arith) (λ i h. f (suc i) (omega arith)))

  pub nth-append_left : (i : ℕ) (xs ys : List A) → i < length xs → nth i (xs ++ ys) ≡ nth i xs
  nth-append_left i [] ys h = absurd (omega arith)
  nth-append_left zero (x ∷ xs) ys h = refl
  nth-append_left (suc i) (x ∷ xs) ys h = nth-append_left i xs ys (omega arith)

  pub nth-take : (i n : ℕ) (xs : List A) → i < n → nth i (take n xs) ≡ nth i xs
  nth-take i zero xs h = absurd (omega arith)
  nth-take i (suc n) [] h = refl
  nth-take zero (suc n) (x ∷ xs) h = refl
  nth-take (suc i) (suc n) (x ∷ xs) h = nth-take i n xs (omega arith)

  pub nth-append_right :
      (i j : ℕ) (xs ys : List A) → i ≡ length xs + j → nth i (xs ++ ys) ≡ nth j ys
  nth-append_right i j [] ys e = ap (λ (k : ℕ). nth k ys) (omega arith)
  nth-append_right zero j (x ∷ xs) ys e = absurd (omega arith)
  nth-append_right (suc i) j (x ∷ xs) ys e = nth-append_right i j xs ys (omega arith)

  pub nth-drop : (i j n : ℕ) (xs : List A) → i ≡ n + j → nth j (drop n xs) ≡ nth i xs
  nth-drop i j zero xs e = ap (λ (k : ℕ). nth k xs) (omega arith)
  nth-drop i j (suc n) [] e = refl
  nth-drop zero j (suc n) (x ∷ xs) e = absurd (omega arith)
  nth-drop (suc i) j (suc n) (x ∷ xs) e = nth-drop i j n xs (omega arith)

  length-take_short : (off : ℕ) (xs : List A) → off ≤ length xs → length (take off xs) ≡ off
  length-take_short off xs h = omega (arith, length-take off xs)

  -- Within the slice stands what was written.
  pub nth-splice_in :
      (i off : ℕ) (ys xs zs : List A)
      → off + length ys ≤ length zs
      → length xs ≡ length zs
      → take (length ys) (drop off zs) ≡ ys
      → off ≤ i
      → i < off + length ys
      → nth i (splice off ys xs) ≡ nth i zs
  nth-splice_in i off ys xs zs h e s a b =
      nth-append_right i (i - off) (take off xs) (ys ++ drop (off + length ys) xs)
        (omega (arith, length-take_short off xs (omega arith)))
      ∙ nth-append_left (i - off) ys (drop (off + length ys) xs) (omega arith)
      ∙ ap (λ l. nth (i - off) l) (sym s)
      ∙ nth-take (i - off) (length ys) (drop off zs) (omega arith)
      ∙ nth-drop i (i - off) off zs (omega arith)

  -- Before and after it nothing changes.
  pub nth-splice_out :
      (i off : ℕ) (ys xs : List A)
      → off + length ys ≤ length xs
      → (i < off) ⊎ (off + length ys ≤ i)
      → nth i (splice off ys xs) ≡ nth i xs
  nth-splice_out i off ys xs h (inl a) =
      nth-append_left i (take off xs) (ys ++ drop (off + length ys) xs)
        (omega (arith, length-take_short off xs (omega arith)))
      ∙ nth-take i off xs a
  nth-splice_out i off ys xs h (inr b) =
      nth-append_right i (i - off) (take off xs) (ys ++ drop (off + length ys) xs)
        (omega (arith, length-take_short off xs (omega arith)))
      ∙ nth-append_right (i - off) (i - (off + length ys)) ys (drop (off + length ys) xs)
          (omega arith)
      ∙ nth-drop i (i - (off + length ys)) (off + length ys) xs (omega arith)

  pub length-splice :
      (off : ℕ) (ys xs : List A)
      → off + length ys ≤ length xs
      → length (splice off ys xs) ≡ length xs
  length-splice off ys xs h =
      length-append (take off xs) (ys ++ drop (off + length ys) xs)
      ∙ omega (
        arith,
        length-append ys (drop (off + length ys) xs),
        length-take_short off xs (omega arith),
        length-drop (off + length ys) xs,
      )
