-- ===== src/Udpcl/Value.antt =====
-- The items that src/udpcl/agent.py sends and reads. Their octets are the work of the package `cbor2`.
use dtn_demo_agent.Common.{
  ℕ, ◌/◌, ◌≡◌, Bool, false, Option, none, some, List, [], ◌∷◌, ◌++◌, String, ◌==◌, ◌<◌, length,
  if◌then◌else◌,
}

-- `nint n` is the number -1 - n.
mutual
  pub data Value : Type 0 where
    uint nint : ℕ → Value
    bstr : List ℕ → Value
    tstr : String → Value
    null other : Value
    array : Values → Value
    dict : Entries → Value

  pub data Values : Type 0 where
    nil : Values
    cons : Value → Values → Values

  pub data Entries : Type 0 where
    end : Entries
    entry : Value → Value → Entries → Entries

pub data ExtensionKey : Type 0 where
  transfer sender_listen sender_nodeid starttls pmtud_probe pmtud_ack : ExtensionKey

abbrev pub key_value : ExtensionKey → Value
key_value transfer = uint 2
key_value sender_listen = uint 3
key_value sender_nodeid = uint 4
key_value starttls = uint 5
key_value pmtud_probe = nint 0
key_value pmtud_ack = nint 1

-- Two keys of a dict, at least one of which is a number.
abbrev pub same_number : Value → Value → Bool
same_number (uint n) (uint m) = n == m
same_number (nint n) (nint m) = n == m
same_number _ _ = false

-- `extmap.get(key)`
abbrev pub ext_get : ExtensionKey → Entries → Option Value
ext_get k end = none
ext_get k (entry j v m) = if same_number j (key_value k) then some v else ext_get k m

-- The `dumps` and `load` of `cbor2`. `load` gives the first item of the octets, and what is left of them.
pub record Cbor2 : Type 0 where
  pub dumps : Value → List ℕ
  pub load : List ℕ → Option (Value × List ℕ)

-- The extension map of a fragment of a transfer
unfoldable pub transfer_map : ℕ → ℕ → ℕ → List ℕ → Value
transfer_map transfer_id total_length frag_offset content = dict (
    entry (key_value transfer)
      (array (
        cons (uint transfer_id)
          (cons (uint total_length) (cons (uint frag_offset) (cons (bstr content) nil)))))
      end)

-- The major type of the first octet of an item
unfoldable pub major_type : List ℕ → Option ℕ
major_type [] = none
major_type (b ∷ bs) = some (b / 32)

-- What the agent relies on: an item takes octets, and a map that was encoded is decoded again,
-- whatever follows it. Maps have the major type 5.
pub record IsCbor (c : Cbor2) : Type 0 where
  pub load_shrinks :
      (xs : List ℕ) (v : Value) (rest : List ℕ)
      → c.load xs ≡ some (v, rest)
      → length rest < length xs
  pub load-dumps :
      (i n off : ℕ) (content rest : List ℕ)
      → c.load (c.dumps (transfer_map i n off content) ++ rest)
        ≡ some (transfer_map i n off content, rest)
  pub map_major :
      (i n off : ℕ) (content : List ℕ)
      → major_type (c.dumps (transfer_map i n off content)) ≡ some 5
