-- ===== src/Bp/Container.antt =====
-- `BundleContainer` of src/bp/util.py.
pub mod Numbers
use dtn_demo_agent.Common.{
  str_eq, ◌&&◌, ℕ, zero, suc, ◌≡◌, arith, Bool, true, false, Option, none, some, List, [], ◌∷◌,
  ◌++◌, String, ◌==◌, contains, if◌then◌else◌, max,
}
use dtn_demo_agent.Common.Exec.{Exec, done, raised, runtime_error, key_error, stuck}
use dtn_demo_agent.Bp.Bundle.{
  Bundle, CanonicalBlock, ensure_btsd, flag_set, is_fragment, type_payload, num_payload,
}

pub data Action : Type 0 where
  receive deliver forward delete : Action

-- TxRouteItem of src/bp/config.py, less its pattern. A `raw_config` is an object of the convergence layer,
-- a number here.
pub record Route : Type 0 where
  pub next_nodeid : String
  pub cl_type : String
  pub mtu : Option ℕ
  pub raw_config : ℕ

-- `_block_num` refers to the blocks of the bundle by number, so its keys are kept: a block that is in
-- it keeps its number. The key 0 is always there. `sender` says that there is one.
pub record Container : Type 0 where
  pub bundle : Bundle
  pub last_block_num : ℕ
  pub block_nums : List ℕ
  pub actions : List (Action × ℕ)
  pub status_reason : Option ℕ
  pub route : Option Route
  pub sender : Bool

-- The block that `_block_num` has under a number.
abbrev pub find_block : ℕ → List CanonicalBlock → Option CanonicalBlock
find_block n [] = none
find_block n (b ∷ bs) = elim b.block_num [
  | none ↦ find_block n bs
  | some k ↦ if k == n then some b else find_block n bs
]

abbrev pub update_block :
    ℕ → (CanonicalBlock → CanonicalBlock) → List CanonicalBlock → List CanonicalBlock
update_block n f [] = []
update_block n f (b ∷ bs) = elim b.block_num [
  | none ↦ b ∷ update_block n f bs
  | some k ↦ if k == n then f b ∷ bs else b ∷ update_block n f bs
]

pub find-update :
    (n : ℕ) (f : CanonicalBlock → CanonicalBlock) (b : CanonicalBlock) (bs : List CanonicalBlock)
    → ((c : CanonicalBlock) → (f c).block_num ≡ c.block_num)
    → find_block n bs ≡ some b
    → find_block n (update_block n f bs) ≡ some (f b)
find-update n f b [] k e = cc
find-update n f b (c ∷ cs) k e = ground (arith, k c, find-update n f b cs k)

-- `block_num`
unfoldable pub block_num : ℕ → Exec Container CanonicalBlock
block_num n c =
    if contains n c.block_nums
    then elim (find_block n c.bundle.blocks) [ none ↦ raised key_error c | some b ↦ done b c ]
    else raised key_error c

-- The identity of a bundle; a fragment has its offset and the total length, too.
pub record Ident : Type 0 where
  pub source : Option String
  pub dtntime : ℕ
  pub seqno : ℕ
  pub fragment : Option (ℕ × ℕ)

abbrev pub same_source : Option String → Option String → Bool
same_source none none = true
same_source (some x) (some y) = str_eq x y
same_source x y = false

abbrev pub same_fragment : Option (ℕ × ℕ) → Option (ℕ × ℕ) → Bool
same_fragment none none = true
same_fragment (some x) (some y) = x.0 == y.0 && x.1 == y.1
same_fragment x y = false

-- Equality of the tuples
abbrev pub same_ident : Ident → Ident → Bool
same_ident x y =
    same_source x.source y.source
    && x.dtntime == y.dtntime
    && x.seqno == y.seqno
    && same_fragment x.fragment y.fragment

unfoldable pub bundle_ident : Container → Ident
bundle_ident c =
    let pri = c.bundle.primary in
    record {
      source = pri.source;
      dtntime = pri.dtntime;
      seqno = pri.seqno;
      fragment =
          if flag_set pri.bundle_flags is_fragment
          then some (pri.fragment_offset, pri.total_app_data_len)
          else none;
    }

-- The loop of `reload`: the keys and the blocks so far, and whether all numbers were new.
abbrev pub reload_blocks : List ℕ → List CanonicalBlock → Bool × List ℕ × List CanonicalBlock
reload_blocks nums [] = (true, nums, [])
reload_blocks nums (b ∷ bs) =
    let b' = ensure_btsd b in
    let next : List ℕ = elim b'.block_num [ none ↦ nums | some n ↦ nums ++ n ∷ [] ] in
    let dup : Bool = elim b'.block_num [ none ↦ false | some n ↦ contains n nums ] in
    let (ok, nums', bs') = reload_blocks next bs in
    if dup then (false, nums, b' ∷ bs) else (ok, nums', b' ∷ bs')

-- `reload`; a number that two blocks have clears the index
unfoldable pub reload : Exec Container (Unit {0})
reload c =
    let (ok, nums, bs) = reload_blocks (0 ∷ []) c.bundle.blocks in
    let bundle = record (c.bundle) { blocks = bs } in
    if ok
    then done tt (record c { bundle = bundle; block_nums = nums })
    else raised runtime_error (record c { bundle = bundle; block_nums = [] })

-- `BundleContainer()` around a bundle of no blocks.
abbrev pub new_container : Bundle → Container
new_container bundle = record {
  bundle = bundle;
  last_block_num = 1;
  block_nums = 0 ∷ [];
  actions = [];
  status_reason = none;
  route = none;
  sender = false;
}

abbrev pub same_action : Action → Action → Bool
same_action receive receive = true
same_action deliver deliver = true
same_action forward forward = true
same_action delete delete = true
same_action a b = false

-- `action in ctr.actions`
abbrev pub has_action : Action → List (Action × ℕ) → Bool
has_action a [] = false
has_action a ((b, t) ∷ m) = if same_action b a then true else has_action a m

-- The `while` of `get_block_num`, from `_last_block_num`.
unfoldable pub get_block_num_loop : ℕ → ℕ → List ℕ → Option ℕ
get_block_num_loop zero last nums = none
get_block_num_loop (suc fuel) last nums =
    let rest = get_block_num_loop fuel (suc last) nums in
    if contains (suc last) nums then rest else some (suc last)

abbrev pub largest : List ℕ → ℕ
largest [] = 0
largest (n ∷ ns) = max n (largest ns)

-- `get_block_num`: past the largest key every number is unused, so that many rounds are enough.
unfoldable pub get_block_num : Exec Container ℕ
get_block_num c =
    elim (get_block_num_loop (suc (largest c.block_nums)) c.last_block_num c.block_nums) [
      | none ↦ raised stuck c
      | some n ↦ done n (record c { last_block_num = n })
    ]

abbrev pub is_payload : Option ℕ → Bool
is_payload none = false
is_payload (some t) = t == type_payload

infixl 5 ◌>>=◌
abbrev ◌>>=◌ {ℓ κ} : {A : Type ℓ} {B : Type κ} → Option A → (A → Option B) → Option B
o >>= f = elim o [ none ↦ none | some a ↦ f a ]

-- `_fix_blk_num`: the last number that was given, and the number of the block.
unfoldable pub fix_blk_num : ℕ → List ℕ → CanonicalBlock → Option (ℕ × ℕ)
fix_blk_num last nums b = elim b.block_num [
  | some n ↦ some (last, n)
  | none ↦
      if is_payload b.type_code
      then some (last, num_payload)
      else elim (get_block_num_loop (suc (largest nums)) last nums) [
        | none ↦ none
        | some n ↦ some (n, n)
      ]
]

-- `fix_block_num`, over the rest of the blocks: the last number that was given, and the blocks.
unfoldable pub fix_block_num : ℕ → List ℕ → List CanonicalBlock → Option (ℕ × List CanonicalBlock)
fix_block_num last nums [] = some (last, [])
fix_block_num last nums (b ∷ bs) = do
  (last', n) ← fix_blk_num last nums b
  (final, bs') ← fix_block_num last' nums bs
  some (final, record b { block_num = some n } ∷ bs')
