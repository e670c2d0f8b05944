-- ===== src/Bp/Crc.antt =====
-- The CRC life cycle of src/bp/encoding/blocks.py and bundle.py.
use dtn_demo_agent.Common.{
  ℕ, ◌≡◌, refl, Bool, true, false, Option, none, some, List, [], ◌∷◌, ◌==◌, ◌&&◌, is_none,
  if◌then◌else◌, arith,
}
use dtn_demo_agent.Bp.Bundle.{
  Bundle, PrimaryBlock, CanonicalBlock, CrcType, crc_none, crc16, crc32, ensure_btsd,
  update_from_admin, map_blocks,
}

-- The CRC of a block whose CRC field has the value zero, encoded: the work of cbor2 and crcmod.
pub record Crc : Type 0 where
  pub of_primary : PrimaryBlock → List ℕ
  pub of_block : CanonicalBlock → List ℕ

-- CRC_DEFN: zero, as it is encoded for a CRC type.
abbrev pub zero_crc : CrcType → Option (List ℕ)
zero_crc crc_none = none
zero_crc crc16 = some (0 ∷ 0 ∷ [])
zero_crc crc32 = some (0 ∷ 0 ∷ 0 ∷ 0 ∷ [])

-- The CRC that a block should have
abbrev pub primary_crc : Crc → PrimaryBlock → List ℕ
primary_crc crc p = crc.of_primary (record p { crc_value = zero_crc p.crc_type })

abbrev pub block_crc : Crc → CanonicalBlock → List ℕ
unfolding ensure_btsd
block_crc crc b = crc.of_block (ensure_btsd (record b { crc_value = zero_crc b.crc_type }))

abbrev pub is_crc_none : CrcType → Bool
is_crc_none crc_none = true
is_crc_none crc16 = false
is_crc_none crc32 = false

-- `update_crc`, where nothing is kept
unfoldable pub update_primary_crc : Crc → PrimaryBlock → PrimaryBlock
update_primary_crc crc p = record p {
  crc_value = if is_crc_none p.crc_type then none else some (primary_crc crc p);
}

unfoldable pub update_block_crc : Crc → CanonicalBlock → CanonicalBlock
unfolding block_crc
update_block_crc crc b = record b {
  crc_value = if is_crc_none b.crc_type then none else some (block_crc crc b);
}

-- `update_all_crc`
unfoldable pub update_all_crc : Crc → Bundle → Bundle
update_all_crc crc bundle =
    let b = update_from_admin bundle in
    record {
      primary = update_primary_crc crc b.primary;
      blocks = map_blocks (λ x. update_block_crc crc (ensure_btsd x)) b.blocks;
    }

abbrev pub octets_eq : List ℕ → List ℕ → Bool
octets_eq [] [] = true
octets_eq (x ∷ xs) (y ∷ ys) = x == y && octets_eq xs ys
octets_eq xs ys = false

-- `crc_value == expected`
abbrev pub has_value : Option (List ℕ) → List ℕ → Bool
has_value none ys = false
has_value (some xs) ys = octets_eq xs ys

-- `check_crc`
unfoldable pub check_primary_crc : Crc → PrimaryBlock → Bool
check_primary_crc crc p =
    if is_crc_none p.crc_type
    then is_none p.crc_value
    else has_value p.crc_value (primary_crc crc p)

unfoldable pub check_block_crc : Crc → CanonicalBlock → Bool
unfolding block_crc
check_block_crc crc b =
    if is_crc_none b.crc_type then is_none b.crc_value else has_value b.crc_value (block_crc crc b)

abbrev pub failed_blocks : Crc → List CanonicalBlock → List (Option ℕ)
failed_blocks crc [] = []
failed_blocks crc (b ∷ bs) =
    if check_block_crc crc b then failed_blocks crc bs else b.block_num ∷ failed_blocks crc bs

-- `check_all_crc`: the numbers of the blocks that fail, 0 for the primary block
unfoldable pub check_all_crc : Crc → Bundle → List (Option ℕ)
check_all_crc crc bundle =
    if check_primary_crc crc bundle.primary
    then failed_blocks crc bundle.blocks
    else some 0 ∷ failed_blocks crc bundle.blocks

octets_eq_refl : (xs : List ℕ) → octets_eq xs xs ≡ true
octets_eq_refl [] = refl
octets_eq_refl (x ∷ xs) = ground (arith, octets_eq_refl xs)

check-update_primary :
    (crc : Crc) (p : PrimaryBlock) → check_primary_crc crc (update_primary_crc crc p) ≡ true
unfolding check_primary_crc update_primary_crc
check-update_primary crc p = ground (arith, octets_eq_refl (primary_crc crc p))

check-update_block :
    (crc : Crc) (b : CanonicalBlock) → check_block_crc crc (update_block_crc crc b) ≡ true
unfolding check_block_crc update_block_crc block_crc
check-update_block crc b = ground (
  arith,
  octets_eq_refl (crc.of_block (ensure_btsd (record b { crc_value = zero_crc b.crc_type }))),
)

failed-update :
    (crc : Crc) (bs : List CanonicalBlock)
    → failed_blocks crc (map_blocks (λ x. update_block_crc crc (ensure_btsd x)) bs) ≡ []
failed-update crc [] = refl
failed-update crc (b ∷ bs) =
    ground (arith, check-update_block crc (ensure_btsd b), failed-update crc bs)

-- After `update_all_crc`, whatever the CRC functions are, `check_all_crc` finds no block that fails,
-- with and without CRCs, with an administrative record or not.
pub check-update_all :
    (crc : Crc) (bundle : Bundle) → check_all_crc crc (update_all_crc crc bundle) ≡ []
unfolding check_all_crc update_all_crc update_from_admin
check-update_all crc bundle = ground (
  arith,
  check-update_primary crc (update_from_admin bundle).primary,
  failed-update crc (update_from_admin bundle).blocks,
)
