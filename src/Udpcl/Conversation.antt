-- ===== src/Udpcl/Conversation.antt =====
-- `Conversation` of src/udpcl/agent.py: the addresses and ports of two sides, and how one is looked up
-- where a side may be left open.
pub mod Matching
use dtn_demo_agent.Common.{
  ℕ, ◌/◌, ◌^◌, Bool, true, false, ◌&&◌, ◌||◌, not, Option, none, some, List, [], ◌∷◌, String,
  str_eq, ◌==◌, is_none, if◌then◌else◌,
}

-- An address object of the module `ipaddress`: its version, and its value.
pub record Ip : Type 0 where
  pub is_v4 : Bool
  pub value : ℕ

-- The text of an address: `str` of an object, or a name.
pub data Address : Type 0 where
  numeric : Ip → Address
  name : String → Address

abbrev pub same_bool : Bool → Bool → Bool
same_bool true b = b
same_bool false b = not b

abbrev pub same_ip : Ip → Ip → Bool
same_ip a b = same_bool a.is_v4 b.is_v4 && a.value == b.value

abbrev pub is_unspecified : Ip → Bool
is_unspecified a = a.value == 0

abbrev pub is_multicast : Ip → Bool
is_multicast a = if a.is_v4 then a.value / 2 ^ 28 == 14 else a.value / 2 ^ 120 == 255

-- `str(address)`, of `None` too
abbrev pub addr_str : Option Ip → Address
addr_str none = name "None"
addr_str (some a) = numeric a

abbrev pub same_address : Address → Address → Bool
same_address (numeric a) (numeric b) = same_ip a b
same_address (name s) (name t) = str_eq s t
same_address _ _ = false

-- `bool(text)`
abbrev pub has_text : Address → Bool
has_text (numeric a) = true
has_text (name s) = not (str_eq s "")

-- A conversation is its own `key`.
pub record Conversation : Type 0 where
  pub peer_address : Option Ip
  pub peer_port : Option ℕ
  pub local_address : Option Ip
  pub local_port : Option ℕ

abbrev pub same_opt {ℓ} : {A : Type ℓ} → (A → A → Bool) → Option A → Option A → Bool
same_opt eq none none = true
same_opt eq (some a) (some b) = eq a b
same_opt eq _ _ = false

abbrev pub same_conv : Conversation → Conversation → Bool
same_conv a b =
    same_opt same_ip a.peer_address b.peer_address
    && (same_opt ◌==◌ a.peer_port b.peer_port
        && (same_opt same_ip a.local_address b.local_address
            && same_opt ◌==◌ a.local_port b.local_port))

-- `val_match`: the values are equal, or one is not there.
abbrev pub val_match {ℓ} : {A : Type ℓ} → (A → A → Bool) → Option A → Option A → Bool
val_match eq a b = if same_opt eq a b then true else is_none a || is_none b

unfoldable pub pat_match : Conversation → Conversation → Bool
pat_match lt rt =
    val_match same_ip lt.peer_address rt.peer_address
    && (val_match ◌==◌ lt.peer_port rt.peer_port
        && (val_match same_ip lt.local_address rt.local_address
            && val_match ◌==◌ lt.local_port rt.local_port))

-- Dicts under conversations
module _ {V : Type 0} where
  abbrev pub conv_get : Conversation → List (Conversation × V) → Option V
  conv_get k [] = none
  conv_get k ((j, v) ∷ m) = if same_conv j k then some v else conv_get k m

  abbrev pub conv_set : Conversation → V → List (Conversation × V) → List (Conversation × V)
  conv_set k v [] = (k, v) ∷ []
  conv_set k v ((j, w) ∷ m) = if same_conv j k then (j, v) ∷ m else (j, w) ∷ conv_set k v m

  abbrev pub conv_del : Conversation → List (Conversation × V) → List (Conversation × V)
  conv_del k [] = []
  conv_del k ((j, w) ∷ m) = if same_conv j k then m else (j, w) ∷ conv_del k m

  -- The loop of `find_in`
  unfoldable pub find_pattern : Conversation → List (Conversation × V) → Option V
  unfolding pat_match
  find_pattern k [] = none
  find_pattern k ((j, v) ∷ m) = if pat_match j k then some v else find_pattern k m

  unfoldable pub find_in : Conversation → List (Conversation × V) → Option V
  unfolding find_pattern
  find_in k m = elim (conv_get k m) [ some v ↦ some v | none ↦ find_pattern k m ]

-- `isinstance(address, ipaddress.IPv4Address)`
abbrev is_v4_address : Option Ip → Bool
is_v4_address none = false
is_v4_address (some a) = a.is_v4

unfoldable pub is_ipv4 : Conversation → Bool
is_ipv4 c = is_v4_address c.peer_address || is_v4_address c.local_address
