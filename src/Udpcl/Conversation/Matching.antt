-- ===== src/Udpcl/Conversation/Matching.antt =====
-- What `Conversation.find_in` of src/udpcl/agent.py finds.
use dtn_demo_agent.Common.{
  ℕ, suc, ◌≡◌, refl, ◌↔◌, ◌⊎◌, true, false, none, some, List, [], ◌∷◌, All, arith, Bool-cases,
  Option-cases, inl, inr, take,
}
use dtn_demo_agent.Common.Nth.{nth}
use dtn_demo_agent.Udpcl.Conversation.{
  Conversation, same_conv, pat_match, conv_get, find_pattern, find_in,
}

same-matches : (j k : Conversation) → same_conv j k ≡ true → pat_match j k ≡ true
unfolding pat_match
same-matches j k e = ground arith

module _ {V : Type 0} where
  -- No key of the dict matches.
  abbrev NoMatch : Conversation → List (Conversation × V) → Type 0
  NoMatch k m = All (λ e. pat_match e.0 k ≡ false) m

  -- The entry is the first one with a key that matches.
  record FirstMatch (k : Conversation) (m : List (Conversation × V)) (v : V) : Type 0 where
    pub index : ℕ
    pub key : Conversation
    pub found : nth index m ≡ some (key, v)
    pub matches : pat_match key k ≡ true
    pub before : NoMatch k (take index m)

  find_pattern-none :
      (k : Conversation) (m : List (Conversation × V)) → NoMatch k m → find_pattern k m ≡ none
  unfolding find_pattern
  find_pattern-none k [] h = refl
  find_pattern-none k ((j, v) ∷ m) (e, h) = rw e (find_pattern-none k m h)

  conv_get-none :
      (k : Conversation) (m : List (Conversation × V)) → NoMatch k m → conv_get k m ≡ none
  conv_get-none k [] h = refl
  conv_get-none k ((j, v) ∷ m) (e, h) = elim (Bool-cases (same_conv j k)) [
    | inl t ↦ absurd (ground (arith, same-matches j k t))
    | inr f ↦ rw f (conv_get-none k m h)
  ]

  find_pattern-NoMatch :
      (k : Conversation) (m : List (Conversation × V)) → find_pattern k m ≡ none → NoMatch k m
  unfolding find_pattern
  find_pattern-NoMatch k [] e = tt
  find_pattern-NoMatch k ((j, v) ∷ m) e = elim (Bool-cases (pat_match j k)) [
    | inl t ↦ absurd (ground arith)
    | inr f ↦ (f, find_pattern-NoMatch k m (rw f at e))
  ]

  find_pattern-FirstMatch :
      (k : Conversation) (m : List (Conversation × V)) (v : V)
      → find_pattern k m ≡ some v
      → FirstMatch k m v
  unfolding find_pattern
  find_pattern-FirstMatch k [] v e = absurd cc
  find_pattern-FirstMatch k ((j, w) ∷ m) v e = elim (Bool-cases (pat_match j k)) [
    | inl t ↦ record { index = 0; key = j; found = ground arith; matches = t; before = tt }
    | inr f ↦
        let r = find_pattern-FirstMatch k m v (rw f at e) in
        record {
          index = suc r.index;
          key = r.key;
          found = r.found;
          matches = r.matches;
          before = (f, r.before);
        }
  ]

  -- `find_in` finds nothing exactly when no key of the dict matches the conversation.
  find_in-none :
      (k : Conversation) (m : List (Conversation × V)) → (find_in k m ≡ none) ↔ NoMatch k m
  unfolding find_in
  find_in-none k m = (
    λ e. find_pattern-NoMatch k m (ground arith),
    λ h. rw (conv_get-none k m h, find_in) (find_pattern-none k m h),
  )

  -- What `find_in` finds is the entry of the conversation itself, wherever it stands in the dict, or, if
  -- there is none, the first entry with a key that matches it: all entries before that do not match.
  find_in_first :
      (k : Conversation) (m : List (Conversation × V)) (v : V)
      → find_in k m ≡ some v
      → (conv_get k m ≡ some v) ⊎ ((conv_get k m ≡ none) × FirstMatch k m v)
  unfolding find_in
  find_in_first k m v e = elim (Option-cases (conv_get k m)) [
    | inl n ↦ inr (n, find_pattern-FirstMatch k m v (ground arith))
    | inr (w, s) ↦ inl (ground arith)
  ]
