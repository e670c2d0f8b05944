-- ===== src/Bp/Fragment.antt =====
-- `Fragment` of src/bp/app/fragment.py: a bundle is cut to the MTU of its route, and put together.
pub mod Fills
pub mod Cut
use dtn_demo_agent.Common.{
  ℕ, zero, suc, ◌+◌, ◌-◌, ◌*◌, Bool, true, false, not, ◌&&◌, ◌||◌, Option, none, some, List, [],
  ◌∷◌, ◌++◌, String, str_eq, ◌==◌, bit_and, bit_or, length, take, drop, ltb, leb, if◌then◌else◌,
}
use dtn_demo_agent.Common.Exec.{
  Exec, Outcome, done, raised, pure, runtime_error, type_error, attribute_error, stuck, continue,
}
use dtn_demo_agent.Common.Nth.{splice}
use dtn_demo_agent.Bp.Bundle.{
  Bundle, PrimaryBlock, CanonicalBlock, Cbor, crc_none, fill_fields, flag_set, is_fragment,
  no_fragment, num_payload, replicate_in_fragment,
}
use dtn_demo_agent.Bp.Container.{
  Container, Ident, Action, deliver, new_container, reload, block_num, bundle_ident, update_block,
  has_action,
}

-- A container that a call works on, and the containers that were given to `glib.idle_add`, for
-- `send_bundle` or for `recv_bundle`, oldest first.
pub record Work : Type 0 where
  pub ctr : Container
  pub idle : List Container

-- A call of a method of the container in the work
abbrev pub on_ctr : {A : Type 0} → Exec Container A → Exec Work A
on_ctr m w = elim (m w.ctr) [
  | done a c ↦ done a (record w { ctr = c })
  | raised e c ↦ raised e (record w { ctr = c })
]

-- Is the size over an MTU, and may the bundle be cut?
unfoldable pub should_fragment : ℕ → Option ℕ → ℕ → Bool
should_fragment size none flags = false
should_fragment size (some mtu) flags =
    ltb mtu size && not (flag_set flags no_fragment) && not (flag_set flags is_fragment)

-- The blocks of a fragment: all of them in the first, and else those to replicate, and the payload.
unfoldable pub fragment_blocks : ℕ → List CanonicalBlock → List CanonicalBlock
fragment_blocks offset [] = []
fragment_blocks offset (b ∷ bs) =
    let is_payload : Bool = elim b.block_num [ none ↦ false | some n ↦ n == num_payload ] in
    if offset == 0 || flag_set b.block_flags replicate_in_fragment || is_payload
    then b ∷ fragment_blocks offset bs
    else fragment_blocks offset bs

-- The container of a fragment, before its payload is set.
unfoldable pub empty_fragment : Bundle → ℕ → ℕ → Container
empty_fragment bundle offset payload_size = new_container (record {
  primary = record (bundle.primary) {
    bundle_flags = bit_or bundle.primary.bundle_flags is_fragment;
    fragment_offset = offset;
    total_app_data_len = payload_size;
  };
  blocks = fragment_blocks offset bundle.blocks;
})

unfoldable pub set_btsd : List ℕ → Container → Container
set_btsd xs c = record c {
  bundle = record (c.bundle) {
    blocks = update_block num_payload (λ b. record b { btsd = some xs }) c.bundle.blocks;
  };
}

-- The fragment, indexed and filled up, gets as much of the payload as the MTU leaves: how much may
-- be, and the fragment.
unfoldable pub fill_fragment : Cbor → List ℕ → ℕ → ℕ → Container → Outcome Container ℕ
fill_fragment cbor payload_data mtu offset c =
    let fctr = record c { bundle = fill_fields c.bundle } in
    let used = cbor.bundle_size fctr.bundle + cbor.uint_size (length payload_data) in
    let frag_size = (mtu + 1) - used in
    if leb (mtu + 1) used
    then raised runtime_error fctr
    else continue (block_num num_payload fctr)
        (λ _ d. done frag_size (set_btsd (take frag_size (drop offset payload_data)) d))

-- One round of the loop of `_create`, for the fragment at an offset
unfoldable pub next_fragment : Cbor → Bundle → List ℕ → ℕ → ℕ → Outcome Container ℕ
next_fragment cbor bundle payload_data mtu offset =
    continue (reload (empty_fragment bundle offset (length payload_data)))
      (λ _. fill_fragment cbor payload_data mtu offset)

-- The loop of `_create`. Each round takes an octet or more, so their number is enough fuel.
unfoldable pub create_loop : ℕ → Cbor → List ℕ → ℕ → ℕ → Exec Work (Unit {0})
create_loop zero cbor payload_data mtu offset w =
    if ltb offset (length payload_data) then raised stuck w else done tt w
create_loop (suc fuel) cbor payload_data mtu offset w =
    if not (ltb offset (length payload_data))
    then done tt w
    else elim (next_fragment cbor w.ctr.bundle payload_data mtu offset) [
      | raised e c ↦ raised e w
      | done size c ↦
          create_loop fuel cbor payload_data mtu (offset + size)
            (record w { idle = w.idle ++ c ∷ [] })
    ]

-- After the payload was taken from its block.
unfoldable pub create_fragments : Cbor → ℕ → ℕ → List ℕ → Exec Work Bool
create_fragments cbor orig_size mtu payload_data w =
    let size_enc = cbor.uint_size (length payload_data) in
    if ltb (mtu + length payload_data) (orig_size + 3 * size_enc)
    then raised runtime_error w
    else continue (create_loop (length payload_data) cbor payload_data mtu 0 w)
        (λ _ v. done true (record v { ctr = record (v.ctr) { route = none; sender = false } }))

-- `_create`: whether the chain is interrupted
unfoldable pub create : Cbor → Exec Work Bool
create cbor w = elim w.ctr.route [
  | none ↦ done false w
  | some route ↦ elim route.mtu [
    | none ↦ done false w
    | some mtu ↦
        if not (
          should_fragment (cbor.bundle_size w.ctr.bundle) (some mtu)
            w.ctr.bundle.primary.bundle_flags)
        then done false w
        else continue (on_ctr (block_num num_payload) w) (λ blk v. elim blk.btsd [
          | none ↦ raised type_error v
          | some payload_data ↦
              create_fragments cbor (cbor.bundle_size w.ctr.bundle) mtu payload_data (record v {
                ctr = record (v.ctr) {
                  bundle = record (v.ctr.bundle) {
                    blocks =
                        update_block num_payload (λ b. record b { btsd = none })
                          v.ctr.bundle.blocks;
                  };
                };
              })
        ])
  ]
]
