-- ===== src/Bp/Bundle.antt =====
-- src/bp/encoding/blocks.py and bundle.py: a bundle and its blocks. The octets of a block and of a
-- bundle are the work of Scapy and of cbor2, a parameter of the model.
use dtn_demo_agent.Common.{
  ℕ, Bool, true, false, not, Option, none, some, List, [], ◌∷◌, String, ◌==◌, bit_and, bit_or,
  if◌then◌else◌,
}

-- PrimaryBlock.Flag
abbrev pub is_fragment : ℕ
is_fragment = 0x000001

abbrev pub payload_admin : ℕ
payload_admin = 0x000002

abbrev pub no_fragment : ℕ
no_fragment = 0x000004

-- CanonicalBlock.Flag
abbrev pub replicate_in_fragment : ℕ
replicate_in_fragment = 0x01

-- Bundle.BLOCK_TYPE_PAYLOAD and Bundle.BLOCK_NUM_PAYLOAD
abbrev pub type_payload : ℕ
type_payload = 1

abbrev pub num_payload : ℕ
num_payload = 1

-- AbstractBlock.CrcType
pub data CrcType : Type 0 where
  crc_none crc16 crc32 : CrcType

pub record PrimaryBlock : Type 0 where
  pub bundle_flags : ℕ
  pub crc_type : CrcType
  pub destination : Option String
  pub source : Option String
  pub report_to : Option String
  pub dtntime : ℕ
  pub seqno : ℕ
  pub lifetime : ℕ
  pub fragment_offset : ℕ
  pub total_app_data_len : ℕ
  pub crc_value : Option (List ℕ)

-- The Scapy payload of a canonical block: none, an administrative record, or another object.
pub data BlockPayload : Type 0 where
  no_payload : BlockPayload
  admin_record : List ℕ → BlockPayload
  other : List ℕ → BlockPayload

-- A field is `none` if it was not set.
pub record CanonicalBlock : Type 0 where
  pub type_code : Option ℕ
  pub block_num : Option ℕ
  pub block_flags : ℕ
  pub crc_type : CrcType
  pub btsd : Option (List ℕ)
  pub crc_value : Option (List ℕ)
  pub payload : BlockPayload

pub record Bundle : Type 0 where
  pub primary : PrimaryBlock
  pub blocks : List CanonicalBlock

-- The sizes of encoded items: `len(bundle)`, and `len(cbor2.dumps(n))` of a number.
pub record Cbor : Type 0 where
  pub bundle_size : Bundle → ℕ
  pub uint_size : ℕ → ℕ

-- The octets of an object that is there
abbrev pub payload_octets : BlockPayload → Option (List ℕ)
payload_octets no_payload = none
payload_octets (admin_record xs) = some xs
payload_octets (other xs) = some xs

-- `ensure_block_type_specific_data`
unfoldable pub ensure_btsd : CanonicalBlock → CanonicalBlock
ensure_btsd blk = elim (payload_octets blk.payload) [
  | none ↦ blk
  | some xs ↦ elim blk.btsd [ none ↦ record blk { btsd = some xs } | some ys ↦ blk ]
]

-- `not crc_value`: there is none, or it is empty.
abbrev pub lacks_crc : Option (List ℕ) → Bool
lacks_crc none = true
lacks_crc (some []) = true
lacks_crc (some (x ∷ xs)) = false

-- AbstractBlock.fill_fields: a CRC of zero, as CRC_DEFN encodes it, if the block is to have one.
abbrev pub fill_crc : CrcType → Option (List ℕ) → Option (List ℕ)
fill_crc crc_none crc_value = crc_value
fill_crc crc16 crc_value = if lacks_crc crc_value then some (0 ∷ 0 ∷ []) else crc_value
fill_crc crc32 crc_value = if lacks_crc crc_value then some (0 ∷ 0 ∷ 0 ∷ 0 ∷ []) else crc_value

-- CanonicalBlock.fill_fields
unfoldable pub fill_block : CanonicalBlock → CanonicalBlock
fill_block blk = let b = ensure_btsd blk in record b { crc_value = fill_crc b.crc_type b.crc_value }

-- What an administrative record does to its block, and whether there is one.
abbrev pub admin_block : CanonicalBlock → CanonicalBlock
admin_block blk = elim blk.payload [
  | no_payload ↦ blk
  | other xs ↦ blk
  | admin_record xs ↦ record blk { type_code = some type_payload; btsd = some xs }
]

abbrev pub is_admin : BlockPayload → Bool
is_admin no_payload = false
is_admin (admin_record xs) = true
is_admin (other xs) = false

abbrev pub map_blocks :
    (CanonicalBlock → CanonicalBlock) → List CanonicalBlock → List CanonicalBlock
map_blocks f [] = []
map_blocks f (b ∷ bs) = f b ∷ map_blocks f bs

abbrev pub has_admin : List CanonicalBlock → Bool
has_admin [] = false
has_admin (b ∷ bs) = if is_admin b.payload then true else has_admin bs

-- `_update_from_admin`
unfoldable pub update_from_admin : Bundle → Bundle
update_from_admin bundle = record {
  primary = record (bundle.primary) {
    bundle_flags =
        if has_admin bundle.blocks
        then bit_or bundle.primary.bundle_flags payload_admin
        else bundle.primary.bundle_flags;
  };
  blocks = map_blocks admin_block bundle.blocks;
}

-- Bundle.fill_fields
unfoldable pub fill_fields : Bundle → Bundle
fill_fields bundle =
    let b = update_from_admin bundle in
    record {
      primary = record (b.primary) { crc_value = fill_crc b.primary.crc_type b.primary.crc_value };
      blocks = map_blocks fill_block b.blocks;
    }

abbrev pub flag_set : ℕ → ℕ → Bool
flag_set flags flag = not (bit_and flags flag == 0)
