-- ===== src/Bp/Fragment/Fills.antt =====
-- One round of the loop of `Fragment._create` of src/bp/app/fragment.py.
use dtn_demo_agent.Common.{
  ℕ, ◌+◌, ◌-◌, ◌≤◌, ◌≡◌, ◌≢◌, refl, ap, sym, subst, true, false, Option, none, some, List, [], ◌∷◌,
  length, take, drop, leb, arith, Bool-cases, inl, inr, contains,
}
use dtn_demo_agent.Common.Exec.{Outcome, done, raised, stuck, key_error, continue}
use dtn_demo_agent.Bp.Bundle.{
  Bundle, PrimaryBlock, CanonicalBlock, Cbor, fill_fields, update_from_admin, num_payload,
}
use dtn_demo_agent.Bp.Container.{
  Container, find_block, find-update, reload, block_num, reload_blocks,
}
use dtn_demo_agent.Bp.Fragment.{empty_fragment, set_btsd, fill_fragment, next_fragment}

-- A container is a fragment of the bundle with this primary block and payload: it has the offset and
-- the total length, the rest of the primary block's identity, and in its payload block `octets`.
pub record IsCutAt (primary : PrimaryBlock) (payload : List ℕ) (offset : ℕ) (octets : List ℕ)
    (c : Container) : Type 0 where
  pub starts : c.bundle.primary.fragment_offset ≡ offset
  pub total : c.bundle.primary.total_app_data_len ≡ length payload
  pub source : c.bundle.primary.source ≡ primary.source
  pub dtntime : c.bundle.primary.dtntime ≡ primary.dtntime
  pub seqno : c.bundle.primary.seqno ≡ primary.seqno
  pub blk : CanonicalBlock
  pub found : block_num num_payload c ≡ done blk c
  pub content : blk.btsd ≡ some octets

-- `reload` changes the blocks, not the primary block, and gives up with RuntimeError.
Keeps : PrimaryBlock → Outcome Container (Unit {0}) → Type 0
Keeps primary (done _ d) = d.bundle.primary ≡ primary
Keeps primary (raised e d) = e ≢ stuck

reload-Keeps : (c : Container) → Keeps c.bundle.primary (reload c)
unfolding reload Keeps
reload-Keeps c = elim (Bool-cases (reload_blocks (0 ∷ []) c.bundle.blocks).0) [
  | inl e ↦ rw (e, reload) refl
  | inr e ↦ rw (e, reload) (λ q. cc)
]

-- A round that returns gives one octet or more to the fragment, and one that raises had fuel.
abbrev pub Fills : PrimaryBlock → List ℕ → ℕ → Outcome Container ℕ → Type 0
Fills primary payload offset (done size c) =
    (1 ≤ size) × IsCutAt primary payload offset (take size (drop offset payload)) c
Fills primary payload offset (raised e c) = e ≢ stuck

-- The container after the fields were filled, and what its primary block has.
record IsEmptyCut (primary : PrimaryBlock) (payload : List ℕ) (offset : ℕ) (c : Container)
    : Type 0 where
  starts : c.bundle.primary.fragment_offset ≡ offset
  total : c.bundle.primary.total_app_data_len ≡ length payload
  source : c.bundle.primary.source ≡ primary.source
  dtntime : c.bundle.primary.dtntime ≡ primary.dtntime
  seqno : c.bundle.primary.seqno ≡ primary.seqno

the_error :
    (c : Container)
    → find_block num_payload c.bundle.blocks ≡ none
    → block_num num_payload c ≡ raised key_error c
unfolding block_num
the_error c f = ground arith

no_key :
    (c : Container)
    → contains num_payload c.block_nums ≡ false
    → block_num num_payload c ≡ raised key_error c
unfolding block_num
no_key c e = ground arith

found_block :
    (c : Container) (b : CanonicalBlock)
    → contains num_payload c.block_nums ≡ true
    → find_block num_payload c.bundle.blocks ≡ some b
    → block_num num_payload c ≡ done b c
unfolding block_num
found_block c b e f = ground arith

give-Fills :
    (primary : PrimaryBlock) (payload : List ℕ) (offset size : ℕ) (c : Container)
    (o : Option CanonicalBlock)
    → IsEmptyCut primary payload offset c
    → 1 ≤ size
    → find_block num_payload c.bundle.blocks ≡ o
    → Fills primary payload offset (
        continue
          (block_num num_payload c)
          (λ _ d. done size (set_btsd (take size (drop offset payload)) d)))
unfolding block_num set_btsd
give-Fills primary payload offset size c none i p f =
    subst
      (λ o.
        Fills primary payload offset
          (continue o (λ _ d. done size (set_btsd (take size (drop offset payload)) d))))
      (sym (the_error c f)) (λ q. cc)
give-Fills primary payload offset size c (some b) i p f =
    elim (Bool-cases (contains num_payload c.block_nums)) [
      | inl e ↦
          subst
            (λ o.
              Fills primary payload offset
                (continue o (λ _ d. done size (set_btsd (take size (drop offset payload)) d))))
            (sym (found_block c b e f))
            (
              p,
              record {
                starts = i.starts;
                total = i.total;
                source = i.source;
                dtntime = i.dtntime;
                seqno = i.seqno;
                blk = record b { btsd = some (take size (drop offset payload)) };
                found = ground (
                  arith,
                  find-update num_payload
                      (λ x. record x { btsd = some (take size (drop offset payload)) }) b
                      c.bundle.blocks (λ x. refl) f,
                );
                content = refl;
              },
            )
      | inr e ↦
          subst
            (λ o.
              Fills primary payload offset
                (continue o (λ _ d. done size (set_btsd (take size (drop offset payload)) d))))
            (sym (no_key c e)) (λ q. cc)
    ]

filled : Container → Container
filled c = record c { bundle = fill_fields c.bundle }

room_left : Cbor → List ℕ → ℕ → Container → ℕ
unfolding filled
room_left cbor payload mtu c =
    (mtu + 1) - (cbor.bundle_size (filled c).bundle + cbor.uint_size (length payload))

filled-IsEmptyCut :
    (primary : PrimaryBlock) (payload : List ℕ) (offset : ℕ) (c : Container)
    → IsEmptyCut primary payload offset c
    → IsEmptyCut primary payload offset (filled c)
unfolding filled fill_fields update_from_admin
filled-IsEmptyCut primary payload offset c i = record {
  starts = i.starts;
  total = i.total;
  source = i.source;
  dtntime = i.dtntime;
  seqno = i.seqno;
}

fill_fragment-Fills :
    (cbor : Cbor) (primary : PrimaryBlock) (payload : List ℕ) (mtu offset : ℕ) (c : Container)
    → IsEmptyCut primary payload offset c
    → Fills primary payload offset (fill_fragment cbor payload mtu offset c)
unfolding fill_fragment filled room_left
fill_fragment-Fills cbor primary payload mtu offset c i =
    elim (Bool-cases
      (leb (mtu + 1) (cbor.bundle_size (filled c).bundle + cbor.uint_size (length payload)))) [
        | inl e ↦ rw (e, fill_fragment) (λ q. cc)
        | inr e ↦
            rw (e, fill_fragment)
              (give-Fills primary payload offset (room_left cbor payload mtu c) (filled c) _
                (filled-IsEmptyCut primary payload offset c i) (ground arith) refl)
      ]

continue-Fills :
    (primary start : PrimaryBlock) (payload : List ℕ) (offset : ℕ)
    (o : Outcome Container (Unit {0})) (k : Container → Outcome Container ℕ)
    → Keeps start o
    → ((d : Container) → d.bundle.primary ≡ start → Fills primary payload offset (k d))
    → Fills primary payload offset (continue o (λ _. k))
unfolding Keeps
continue-Fills primary start payload offset (done _ d) k h f = f d h
continue-Fills primary start payload offset (raised e d) k h f = h

pub next_fragment-Fills :
    (cbor : Cbor) (bundle : Bundle) (payload : List ℕ) (mtu offset : ℕ)
    → Fills bundle.primary payload offset (next_fragment cbor bundle payload mtu offset)
unfolding next_fragment empty_fragment
next_fragment-Fills cbor bundle payload mtu offset =
    let c = empty_fragment bundle offset (length payload) in
    continue-Fills bundle.primary c.bundle.primary payload offset (reload c)
      (fill_fragment cbor payload mtu offset) (reload-Keeps c)
      (λ d e. fill_fragment-Fills cbor bundle.primary payload mtu offset d (record {
        starts = ap (λ p. p.fragment_offset) e;
        total = ap (λ p. p.total_app_data_len) e;
        source = ap (λ p. p.source) e;
        dtntime = ap (λ p. p.dtntime) e;
        seqno = ap (λ p. p.seqno) e;
      }))
