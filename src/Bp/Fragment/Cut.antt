-- ===== src/Bp/Fragment/Cut.antt =====
-- What `Fragment._create` of src/bp/app/fragment.py makes of a bundle.
use dtn_demo_agent.Common.{
  ℕ, zero, suc, ◌+◌, ◌-◌, ◌*◌, ◌≤◌, ◌<◌, ◌≡◌, ◌≢◌, refl, ap, sym, ◌∙◌, subst, Bool, true, false,
  none, some, List, [], ◌∷◌, ◌++◌, append_assoc, append-nil, length, take, drop, ltb, arith,
  Bool-cases, inl, inr, length-take, length-drop, dec_le, min, ltb→lt,
}
use dtn_demo_agent.Common.Exec.{Outcome, done, raised, stuck, continue}
use dtn_demo_agent.Bp.Bundle.{PrimaryBlock, CanonicalBlock, Cbor, num_payload}
use dtn_demo_agent.Bp.Container.{Container, Route, block_num, update_block}
use dtn_demo_agent.Bp.Fragment.{
  Work, next_fragment, create_loop, create_fragments, create, should_fragment,
}
use dtn_demo_agent.Bp.Fragment.Fills.{IsCutAt, Fills, next_fragment-Fills}

-- The containers are the fragments of a payload from an offset on: each takes the next octets, one or
-- more, and nothing is left after the last.
abbrev pub IsCut : PrimaryBlock → List ℕ → ℕ → List Container → Type 0
IsCut primary payload offset [] = length payload ≤ offset
IsCut primary payload offset (c ∷ cs) =
    (octets : List ℕ) × (1 ≤ length octets)
    × (take (length octets) (drop offset payload) ≡ octets)
    × (offset + length octets ≤ length payload)
    × IsCutAt primary payload offset octets c
    × IsCut primary payload (offset + length octets) cs

-- What the loop of `_create` ends with: fragments after those that were there, and no lack of fuel.
abbrev pub Cuts : PrimaryBlock → List ℕ → ℕ → Work → Outcome Work (Unit {0}) → Type 0
Cuts primary payload offset w (done _ v) =
    (cs : List Container) × (v.idle ≡ w.idle ++ cs) × IsCut primary payload offset cs
Cuts primary payload offset w (raised e v) = e ≢ stuck

IsCut-end :
    (primary : PrimaryBlock) (payload : List ℕ) (a b : ℕ) (cs : List Container)
    → IsCut primary payload a cs
    → length payload ≤ a
    → length payload ≤ b
    → IsCut primary payload b cs
IsCut-end primary payload a b [] k p q = q
IsCut-end primary payload a b (c ∷ cs) (xs, pos, same, within, at, k) p q = absurd (omega arith)

next_length :
    (payload : List ℕ) (offset size : ℕ)
    → length (take size (drop offset payload)) ≡ min size (length payload - offset)
next_length payload offset size =
    omega (arith, length-take size (drop offset payload), length-drop offset payload)

IsCut-advance :
    (primary : PrimaryBlock) (payload : List ℕ) (offset size : ℕ) (cs : List Container)
    → IsCut primary payload (offset + size) cs
    → IsCut primary payload (offset + length (take size (drop offset payload))) cs
IsCut-advance primary payload offset size cs k = elim (dec_le (offset + size) (length payload)) [
  | yes le ↦
      subst (λ n. IsCut primary payload n cs) (omega (arith, next_length payload offset size)) k
  | no gt ↦
      IsCut-end primary payload (offset + size) _ cs k (omega arith)
        (omega (arith, next_length payload offset size))
]

take_same : (size : ℕ) (xs : List ℕ) → take (length (take size xs)) xs ≡ take size xs
take_same zero xs = refl
take_same (suc n) [] = refl
take_same (suc n) (x ∷ xs) = ap (λ ys. x ∷ ys) (take_same n xs)

Cuts-cons :
    (primary : PrimaryBlock) (payload : List ℕ) (offset size : ℕ) (c : Container) (w : Work)
    (o : Outcome Work (Unit {0}))
    → offset < length payload
    → 1 ≤ size
    → IsCutAt primary payload offset (take size (drop offset payload)) c
    → Cuts primary payload (offset + size) (record w { idle = w.idle ++ c ∷ [] }) o
    → Cuts primary payload offset w o
Cuts-cons primary payload offset size c w (raised e v) lt p at h = h
Cuts-cons primary payload offset size c w (done _ v) lt p at (cs, e, k) = (
  c ∷ cs,
  e ∙ append_assoc w.idle (c ∷ []) cs,
  (
    take size (drop offset payload),
    omega (arith, next_length payload offset size),
    take_same size (drop offset payload),
    omega (arith, next_length payload offset size),
    at,
    IsCut-advance primary payload offset size cs k,
  ),
)

step-Cuts :
    (fuel : ℕ) (cbor : Cbor) (payload : List ℕ) (mtu offset : ℕ) (w : Work)
    (q : Outcome Container ℕ)
    → offset < length payload
    → Fills w.ctr.bundle.primary payload offset q
    → ((size : ℕ) (v : Work)
        → v.ctr ≡ w.ctr
        → 1 ≤ size
        → Cuts v.ctr.bundle.primary payload
            (offset + size)
            v
            (create_loop fuel cbor payload mtu (offset + size) v))
    → Cuts w.ctr.bundle.primary payload offset w (elim q [
      | raised e c ↦ raised e w
      | done size c ↦
          create_loop fuel cbor payload mtu (offset + size) (record w { idle = w.idle ++ c ∷ [] })
    ])
step-Cuts fuel cbor payload mtu offset w (raised e c) lt h f = h
step-Cuts fuel cbor payload mtu offset w (done size c) lt (p, at) f =
    Cuts-cons w.ctr.bundle.primary payload offset size c w _ lt p at
      (f size (record w { idle = w.idle ++ c ∷ [] }) refl p)

-- The loop of `_create` ends with its fuel: it raises, or it schedules the fragments of the payload
-- from the offset on, after what was scheduled before.
create_loop-Cuts :
    (fuel : ℕ) (cbor : Cbor) (payload : List ℕ) (mtu offset : ℕ) (w : Work)
    → length payload ≤ offset + fuel
    → Cuts w.ctr.bundle.primary payload offset w (create_loop fuel cbor payload mtu offset w)
unfolding create_loop
create_loop-Cuts zero cbor payload mtu offset w le =
    elim (Bool-cases (ltb offset (length payload))) [
      | inl e ↦ absurd (omega (arith, ltb→lt offset (length payload) e))
      | inr e ↦ rw (e, create_loop) ([], sym (append-nil w.idle), omega arith)
    ]
create_loop-Cuts (suc fuel) cbor payload mtu offset w le =
    elim (Bool-cases (ltb offset (length payload))) [
      | inl e ↦
          rw (e, create_loop)
            (step-Cuts fuel cbor payload mtu offset w
              (next_fragment cbor w.ctr.bundle payload mtu offset)
              (ltb→lt offset (length payload) e)
              (next_fragment-Fills cbor w.ctr.bundle payload mtu offset)
              (λ size v same p.
                create_loop-Cuts fuel cbor payload mtu (offset + size) v (omega arith)))
      | inr e ↦ rw (e, create_loop) ([], sym (append-nil w.idle), ground arith)
    ]

-- What `_create` ends with for a bundle that is to be fragmented.
abbrev pub Fragments : PrimaryBlock → List ℕ → List Container → Outcome Work Bool → Type 0
Fragments primary payload idle (done b v) =
    (b ≡ true)
    × (v.ctr.route ≡ none)
    × (v.ctr.sender ≡ false)
    × ((cs : List Container) × (v.idle ≡ idle ++ cs) × IsCut primary payload 0 cs)
Fragments primary payload idle (raised e v) = e ≢ stuck

finish-Fragments :
    (primary : PrimaryBlock) (payload : List ℕ) (w : Work) (o : Outcome Work (Unit {0}))
    → Cuts primary payload 0 w o
    → Fragments primary payload w.idle (
        continue o
          (λ _ v. done true (record v { ctr = record (v.ctr) { route = none; sender = false } })))
finish-Fragments primary payload w (done _ v) h = (refl, refl, refl, h)
finish-Fragments primary payload w (raised e v) h = h

create_fragments-Fragments :
    (cbor : Cbor) (orig_size mtu : ℕ) (payload : List ℕ) (w : Work)
    → Fragments w.ctr.bundle.primary payload w.idle (create_fragments cbor orig_size mtu payload w)
unfolding create_fragments
create_fragments-Fragments cbor orig_size mtu payload w =
    elim (Bool-cases
      (ltb (mtu + length payload) (orig_size + 3 * cbor.uint_size (length payload)))) [
        | inl e ↦ rw (e, create_fragments) (λ q. cc)
        | inr e ↦
            rw (e, create_fragments)
              (finish-Fragments w.ctr.bundle.primary payload w _
                (create_loop-Cuts (length payload) cbor payload mtu 0 w (omega arith)))
      ]

-- The bundle is over the MTU of its route and may be cut, and its payload block has these octets.
pub record IsTooLarge (cbor : Cbor) (mtu : ℕ) (payload : List ℕ) (c : Container) : Type 0 where
  pub via : Route
  pub route : c.route ≡ some via
  pub limit : via.mtu ≡ some mtu
  pub cut :
      should_fragment (cbor.bundle_size c.bundle) (some mtu) c.bundle.primary.bundle_flags ≡ true
  pub blk : CanonicalBlock
  pub found : block_num num_payload c ≡ done blk c
  pub content : blk.btsd ≡ some payload

-- The payload is taken from its block.
emptied : Work → Work
emptied w = record w {
  ctr = record (w.ctr) {
    bundle = record (w.ctr.bundle) {
      blocks = update_block num_payload (λ b. record b { btsd = none }) w.ctr.bundle.blocks;
    };
  };
}

create_too_large :
    (cbor : Cbor) (mtu : ℕ) (payload : List ℕ) (w : Work)
    → (h : IsTooLarge cbor mtu payload w.ctr)
    → create cbor w ≡ create_fragments cbor (cbor.bundle_size w.ctr.bundle) mtu payload (emptied w)
unfolding create emptied
create_too_large cbor mtu payload w h = ground (arith, h.route, h.limit, h.cut, h.found, h.content)

-- For a bundle over the MTU of its route that is no fragment and may be fragmented, and whose payload
-- block is found and has its octets, `_create` never lacks fuel. If it does not raise, it interrupts the chain,
-- takes the route and the sender from the bundle, and schedules, after what was scheduled before,
-- fragments that carry the payload's octets in order: each of them has its offset, the total length and
-- the source and timestamp of the bundle, and has one octet or more in its payload block.
pub create-Fragments :
    (cbor : Cbor) (mtu : ℕ) (payload : List ℕ) (w : Work)
    → IsTooLarge cbor mtu payload w.ctr
    → Fragments w.ctr.bundle.primary payload w.idle (create cbor w)
unfolding emptied
create-Fragments cbor mtu payload w h =
    subst (λ o. Fragments w.ctr.bundle.primary payload w.idle o)
      (sym (create_too_large cbor mtu payload w h))
      (create_fragments-Fragments cbor (cbor.bundle_size w.ctr.bundle) mtu payload (emptied w))
