-- ===== src/Bp/Reassemble.antt =====
-- `Reassembly` and `Fragment._reassemble` of src/bp/app/fragment.py. The intervals are those of the
-- package `portion`, an interface with the laws of sets of positions.
pub mod Synthesis
pub mod Agrees
pub mod Whole
use dtn_demo_agent.Common.{
  ℕ, zero, suc, ◌+◌, ◌-◌, ◌≤◌, ◌<◌, ◌≡◌, Bool, true, false, not, ◌&&◌, ◌||◌, Option, none, some,
  List, [], ◌∷◌, ◌++◌, String, str_eq, ◌==◌, bit_and, length, ltb, leb, if◌then◌else◌,
}
use dtn_demo_agent.Common.Exec.{Exec, Outcome, done, raised, type_error, attribute_error, continue}
use dtn_demo_agent.Common.Nth.{splice}
use dtn_demo_agent.Common.Portion.{Portion, zeros}
use dtn_demo_agent.Bp.Bundle.{
  Bundle, PrimaryBlock, CanonicalBlock, crc_none, flag_set, is_fragment, num_payload,
}
use dtn_demo_agent.Bp.Container.{
  Container, Ident, deliver, new_container, reload, block_num, bundle_ident, update_block,
  same_ident, has_action,
}

-- The state of a fragmented bundle. `ident` is its key, and `data` is `octets` here.
pub record Reassembly (I : Type 0) : Type 0 where
  pub total_length : ℕ
  pub first_frag : Option Bundle
  pub total_valid : I
  pub valid : I
  pub octets : List ℕ

-- `bundle_ident()[:3]`
unfoldable pub final_ident : Container → Ident
unfolding bundle_ident
final_ident c = record (bundle_ident c) { fragment = none }

-- A dict under identities
abbrev pub ident_get : {V : Type 0} → Ident → List (Ident × V) → Option V
ident_get k [] = none
ident_get k ((j, v) ∷ m) = if same_ident j k then some v else ident_get k m

abbrev pub ident_set : {V : Type 0} → Ident → V → List (Ident × V) → List (Ident × V)
ident_set k v [] = (k, v) ∷ []
ident_set k v ((j, w) ∷ m) = if same_ident j k then (j, v) ∷ m else (j, w) ∷ ident_set k v m

abbrev pub ident_del : {V : Type 0} → Ident → List (Ident × V) → List (Ident × V)
ident_del k [] = []
ident_del k ((j, w) ∷ m) = if same_ident j k then m else (j, w) ∷ ident_del k m

-- `flags & ~IS_FRAGMENT`
abbrev pub clear_fragment : ℕ → ℕ
clear_fragment flags = if flag_set flags is_fragment then flags - is_fragment else flags

module _ (portion : Portion) where
  -- The table of bundles that are put together, and the containers given to `glib.idle_add` for
  -- `recv_bundle`.
  pub record Table : Type 0 where
    pub reassembly : List (Ident × Reassembly portion.Interval)
    pub idle : List Container

  unfoldable pub new_reassembly : ℕ → Reassembly portion.Interval
  new_reassembly total = record {
    total_length = total;
    first_frag = none;
    total_valid = portion.closedopen 0 total;
    valid = portion.empty;
    octets = zeros total;
  }

  -- A fragment at the start is kept as the first.
  abbrev pub note_first : ℕ → Bundle → Reassembly portion.Interval → Reassembly portion.Interval
  note_first offset bundle r = record r {
    first_frag = if offset == 0 then some bundle else r.first_frag;
  }

  -- A fragment is written into the state. A slice past the end grows the data.
  unfoldable pub inject :
      Bundle → ℕ → List ℕ → Reassembly portion.Interval → Reassembly portion.Interval
  inject bundle offset payload_data r = record r {
    first_frag = if offset == 0 then some bundle else r.first_frag;
    octets = splice offset payload_data r.octets;
    valid = portion.union r.valid (portion.closedopen offset (offset + length payload_data));
  }

  -- The original bundle, from its first fragment. `reload` and `block_num` may raise.
  unfoldable pub synthesize : List ℕ → Bundle → Outcome Container (Unit {0})
  synthesize octets first =
      let primary = record (first.primary) {
        bundle_flags = clear_fragment first.primary.bundle_flags;
        crc_type = crc_none;
        crc_value = none;
      } in
      continue (reload (new_container (record { primary = primary; blocks = first.blocks })))
        (λ _ c. continue (block_num num_payload c) (λ blk d. done tt (record d {
          bundle = record (d.bundle) {
            blocks =
                update_block num_payload
                  (λ b. record b { btsd = some octets; crc_type = crc_none; crc_value = none })
                  d.bundle.blocks;
          };
        })))

  -- After the injection: an incomplete bundle is kept, and a complete one is received.
  unfoldable pub settle : Ident → Reassembly portion.Interval → Exec Table (Unit {0})
  settle ident r t =
      if not (portion.equal r.valid r.total_valid)
      then done tt (record t { reassembly = ident_set ident r t.reassembly })
      else let t' = record t { reassembly = ident_del ident t.reassembly } in
        elim r.first_frag [
          | none ↦ raised attribute_error t'
          | some first ↦ elim (synthesize r.octets first) [
            | raised e c ↦ raised e t'
            | done _ c ↦ done tt (record t' { idle = t'.idle ++ c ∷ [] })
          ]
        ]

  -- The state of the bundle that a fragment belongs to
  unfoldable pub find_reassembly : Ident → ℕ → Table → Reassembly portion.Interval
  find_reassembly ident total t = elim (ident_get ident t.reassembly) [
    | none ↦ new_reassembly total
    | some r ↦ r
  ]

  -- `_reassemble`: whether the chain is interrupted, and the container, whose actions it clears. If
  -- the payload block is missing, the state that was made for the bundle stays.
  unfoldable pub reassemble : Container → Exec Table (Bool × Container)
  reassemble ctr t =
      if not (has_action deliver ctr.actions)
      then done (false, ctr) t
      else if not (flag_set ctr.bundle.primary.bundle_flags is_fragment)
      then done (false, ctr) t
      else let ident = final_ident ctr in
        let pri = ctr.bundle.primary in
        let found = find_reassembly ident pri.total_app_data_len t in
        elim (block_num num_payload ctr) [
          | raised e c ↦ raised e (record t {
            reassembly =
                ident_set ident (note_first pri.fragment_offset ctr.bundle found) t.reassembly;
          })
          | done blk c ↦ elim blk.btsd [
            | none ↦ raised type_error (record t {
              reassembly =
                  ident_set ident (note_first pri.fragment_offset ctr.bundle found) t.reassembly;
            })
            | some payload_data ↦
                continue (settle ident (inject ctr.bundle pri.fragment_offset payload_data found) t)
                  (λ _ u. done (true, record ctr { actions = [] }) u)
          ]
        ]
