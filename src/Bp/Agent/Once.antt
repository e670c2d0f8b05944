-- ===== src/Bp/Agent/Once.antt =====
-- What src/bp/agent.py does once: a bundle is processed, and a timestamp is given.
use dtn_demo_agent.Common.{
  ℕ, ◌+◌, ◌≡◌, ◌<◌, ◌≤◌, ◌⊎◌, inl, inr, refl, ap, ◌∙◌, Bool, true, false, Option, none, some, List,
  [], ◌∷◌, ◌++◌, String, eq_iff, arith, Bool-cases, dec_lt, All,
}
use dtn_demo_agent.Common.Exec.{Exec}
use dtn_demo_agent.Bp.Crc.{Crc, check_all_crc}
use dtn_demo_agent.Bp.Container.{
  Container, Ident, bundle_ident, same_ident, same_source, same_fragment,
}
use dtn_demo_agent.Bp.Agent.{
  Agent, Timestamper, next_timestamp, ident_in, is_own, finish_bundle, dispatch, accept,
  recv_bundle,
}

same_source_refl : (s : Option String) → same_source s s ≡ true
same_source_refl none = refl
same_source_refl (some x) = (eq_iff x x).1 refl

same_fragment_refl : (f : Option (ℕ × ℕ)) → same_fragment f f ≡ true
same_fragment_refl none = refl
same_fragment_refl (some (m, n)) = ground arith

same_ident_refl : (i : Ident) → same_ident i i ≡ true
same_ident_refl i = ground (arith, same_source_refl i.source, same_fragment_refl i.fragment)

ident_in-append : (i : Ident) (js : List Ident) → ident_in i (js ++ i ∷ []) ≡ true
ident_in-append i [] = rw (same_ident_refl i) refl
ident_in-append i (j ∷ js) = ground (arith, ident_in-append i js)

ident_in-more :
    (i : Ident) (js : List Ident) (j : Ident)
    → ident_in i js ≡ true
    → ident_in i (js ++ j ∷ []) ≡ true
ident_in-more i [] j h = absurd cc
ident_in-more i (k ∷ ks) j h = ground (arith, ident_in-more i ks j)

module _ {X : Type 0} where
  seen-finish : (c : Container) (a : Agent X) → (finish_bundle c a).seen ≡ a.seen
  unfolding finish_bundle
  seen-finish c a = ground arith

  seen-dispatch : (c : Container) (a : Agent X) → (dispatch c a).seen ≡ a.seen
  unfolding dispatch
  seen-dispatch c a = ground (arith, seen-finish c a)

  seen-accept :
      (rx_chain : List (Exec (Container × X) Bool)) (now : ℕ) (c : Container) (a : Agent X)
      → (accept rx_chain now c a).seen ≡ a.seen ++ bundle_ident c ∷ []
  unfolding accept
  seen-accept rx_chain now c a = seen-dispatch _ _

  recv_seen :
      (crc : Crc) (node_id : String) (rx_chain : List (Exec (Container × X) Bool)) (now : ℕ)
      (c : Container) (a : Agent X)
      → ident_in (bundle_ident c) a.seen ≡ true
      → recv_bundle crc node_id rx_chain now c a ≡ a
  unfolding recv_bundle
  recv_seen crc node_id rx_chain now c a h = ground arith

  recv_new :
      (crc : Crc) (node_id : String) (rx_chain : List (Exec (Container × X) Bool)) (now : ℕ)
      (c : Container) (a : Agent X)
      → check_all_crc crc c.bundle ≡ []
      → is_own c.bundle.primary.source node_id ≡ false
      → ident_in (bundle_ident c) a.seen ≡ false
      → recv_bundle crc node_id rx_chain now c a ≡ accept rx_chain now c a
  unfolding recv_bundle
  recv_new crc node_id rx_chain now c a k o h = ground arith

  -- A bundle that may be received is seen after that.
  seen-recv :
      (crc : Crc) (node_id : String) (rx_chain : List (Exec (Container × X) Bool)) (now : ℕ)
      (c : Container) (a : Agent X)
      → check_all_crc crc c.bundle ≡ []
      → is_own c.bundle.primary.source node_id ≡ false
      → ident_in (bundle_ident c) (recv_bundle crc node_id rx_chain now c a).seen ≡ true
  seen-recv crc node_id rx_chain now c a k o =
      elim (Bool-cases (ident_in (bundle_ident c) a.seen)) [
        | inl e ↦
            ap (λ b. ident_in (bundle_ident c) b.seen) (recv_seen crc node_id rx_chain now c a e)
            ∙ e
        | inr e ↦
            ap (λ b. ident_in (bundle_ident c) b.seen) (recv_new crc node_id rx_chain now c a k o e)
            ∙ ap (λ js. ident_in (bundle_ident c) js) (seen-accept rx_chain now c a)
            ∙ ident_in-append (bundle_ident c) a.seen
      ]

  -- Bundles that are received one after the other, each at a time of the clock
  abbrev pub recv_all :
      Crc → String → List (Exec (Container × X) Bool) → List (ℕ × Container) → Agent X → Agent X
  recv_all crc node_id rx_chain [] a = a
  recv_all crc node_id rx_chain ((now, c) ∷ cs) a =
      recv_all crc node_id rx_chain cs (recv_bundle crc node_id rx_chain now c a)

  -- What was seen stays seen.
  still_seen :
      (crc : Crc) (node_id : String) (rx_chain : List (Exec (Container × X) Bool)) (now : ℕ)
      (c : Container) (a : Agent X) (i : Ident)
      → ident_in i a.seen ≡ true
      → ident_in i (recv_bundle crc node_id rx_chain now c a).seen ≡ true
  unfolding recv_bundle
  still_seen crc node_id rx_chain now c a i h =
      ground (arith, h, seen-accept rx_chain now c a, ident_in-more i a.seen (bundle_ident c) h)

  recv_all-seen :
      (crc : Crc) (node_id : String) (rx_chain : List (Exec (Container × X) Bool))
      (cs : List (ℕ × Container)) (a : Agent X) (i : Ident)
      → ident_in i a.seen ≡ true
      → ident_in i (recv_all crc node_id rx_chain cs a).seen ≡ true
  recv_all-seen crc node_id rx_chain [] a i h = h
  recv_all-seen crc node_id rx_chain ((now, c) ∷ cs) a i h =
      recv_all-seen crc node_id rx_chain cs (recv_bundle crc node_id rx_chain now c a) i
        (still_seen crc node_id rx_chain now c a i h)

  -- A bundle with valid CRCs, and not from the node itself, is processed once: whatever other bundles
  -- are received after it, to receive one with the same identity then changes nothing, with the same
  -- CRCs and clock or not.
  pub recv_bundle_once :
      (crc : Crc) (node_id : String) (rx_chain : List (Exec (Container × X) Bool)) (now later : ℕ)
      (c d : Container) (between : List (ℕ × Container)) (a : Agent X)
      → check_all_crc crc c.bundle ≡ []
      → is_own c.bundle.primary.source node_id ≡ false
      → bundle_ident d ≡ bundle_ident c
      → (let b = recv_all crc node_id rx_chain ((now, c) ∷ between) a in
          recv_bundle crc node_id rx_chain later d b ≡ b)
  recv_bundle_once crc node_id rx_chain now later c d between a k o e =
      let b = recv_all crc node_id rx_chain ((now, c) ∷ between) a in
      recv_seen crc node_id rx_chain later d b (
        ap (λ i. ident_in i b.seen) e
        ∙ recv_all-seen crc node_id rx_chain between (recv_bundle crc node_id rx_chain now c a)
            (bundle_ident c) (seen-recv crc node_id rx_chain now c a k o))

-- The timestamps at these times, one after the other
abbrev pub stamps : List ℕ → Timestamper → List Timestamper
unfolding next_timestamp
stamps [] t = []
stamps (now ∷ times) t = next_timestamp now t ∷ stamps times (next_timestamp now t)

abbrev pub clock : Timestamper → ℕ
clock t = elim t.time [ none ↦ 0 | some n ↦ n ]

-- One timestamp is before another: by time, or at the same time by number.
abbrev pub Precedes : Timestamper → Timestamper → Type 0
Precedes t u = (clock t < clock u) ⊎ ((clock t ≡ clock u) × (t.seqno < u.seqno))

Precedes-trans : (t u v : Timestamper) → Precedes t u → Precedes u v → Precedes t v
Precedes-trans t u v (inl p) (inl q) = inl (omega arith)
Precedes-trans t u v (inl p) (inr q) = inl (omega (arith, q.0))
Precedes-trans t u v (inr p) (inl q) = inl (omega (arith, p.0))
Precedes-trans t u v (inr p) (inr q) = inr (omega (arith, p.0, q.0), omega (arith, p.1, q.1))

next_time : (now : ℕ) (t : Timestamper) → (next_timestamp now t).time ≡ some now
unfolding next_timestamp
next_time now t = ground arith

next_later :
    (now m : ℕ) (t : Timestamper) → t.time ≡ some m → m < now → Precedes t (next_timestamp now t)
next_later now m t e lt = inl (ground (arith, next_time now t))

next_same :
    (now m : ℕ) (t : Timestamper)
    → t.time ≡ some m
    → now ≡ m
    → (next_timestamp now t).seqno ≡ t.seqno + 1
unfolding next_timestamp
next_same now m t e q = ground arith

Precedes-next :
    (now m : ℕ) (t : Timestamper) → t.time ≡ some m → m ≤ now → Precedes t (next_timestamp now t)
Precedes-next now m t e le = elim (dec_lt m now) [
  | yes lt ↦ next_later now m t e lt
  | no ge ↦ inr (ground (arith, next_time now t), omega (arith, next_same now m t e (omega arith)))
]

-- The clock does not go back.
abbrev pub Ascending : ℕ → List ℕ → Type 0
Ascending m [] = Unit {0}
Ascending m (n ∷ ns) = (m ≤ n) × Ascending n ns

abbrev pub Increasing : List Timestamper → Type 0
Increasing [] = Unit {0}
Increasing (t ∷ ts) = All (Precedes t) ts × Increasing ts

stamps-After :
    (times : List ℕ) (m : ℕ) (t u : Timestamper)
    → u.time ≡ some m
    → Ascending m times
    → Precedes t u
    → All (Precedes t) (stamps times u)
unfolding stamps
stamps-After [] m t u e s h = tt
stamps-After (n ∷ ns) m t u e (le, s) h =
    let p = Precedes-trans t u (next_timestamp n u) h (Precedes-next n m u e le) in
    (p, stamps-After ns n t (next_timestamp n u) (next_time n u) s p)

-- While the clock does not go back, timestamps are given once: from any time of the state on, each of
-- them is before all later ones, by time, or at the same time by number.
pub stamps-Increasing :
    (times : List ℕ) (m : ℕ) (t : Timestamper)
    → t.time ≡ some m
    → Ascending m times
    → Increasing (t ∷ stamps times t)
unfolding stamps
stamps-Increasing [] m t e s = (tt, tt)
stamps-Increasing (n ∷ ns) m t e (le, s) =
    let p = Precedes-next n m t e le in
    (
      (p, stamps-After ns n t (next_timestamp n t) (next_time n t) s p),
      stamps-Increasing ns n (next_timestamp n t) (next_time n t) s,
    )
