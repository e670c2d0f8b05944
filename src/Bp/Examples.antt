-- ===== src/Bp/Examples.antt =====
-- Concrete bundles of src/bp, and runs of what is done with them.
use dtn_demo_agent.Common.{
  ℕ, zero, suc, ◌+◌, ◌≡◌, ◌<◌, refl, true, Option, some, none, List, [], ◌∷◌, length, arith,
}
use dtn_demo_agent.Common.Exec.{Outcome, done, final}
use dtn_demo_agent.Common.Nth.{nth}
use dtn_demo_agent.Bp.Bundle.{
  Bundle, PrimaryBlock, CanonicalBlock, no_payload, crc_none, ensure_btsd, Cbor, fill_fields,
  fill_block, update_from_admin,
}
use dtn_demo_agent.Bp.Container.{
  Container, Ident, deliver, new_container, block_num, bundle_ident, reload,
}
use dtn_demo_agent.Bp.Container.{get_block_num}
use dtn_demo_agent.Bp.Container.Numbers.{IsNew, get_block_num-IsNew}
use dtn_demo_agent.Bp.Fragment.{
  Work, create, should_fragment, create_fragments, create_loop, next_fragment, fill_fragment,
  empty_fragment, fragment_blocks, set_btsd,
}
use dtn_demo_agent.Bp.Fragment.Cut.{IsTooLarge, Fragments, create-Fragments}
use dtn_demo_agent.Bp.Reassemble.{
  Table, final_ident, reassemble, synthesize, settle, new_reassembly, find_reassembly, inject,
}
use dtn_demo_agent.Bp.Reassemble.Whole.{
  IsPiece, IsSound, reassemble_all, reassemble-IsSound, reassemble_delivers, written,
}
use dtn_demo_agent.Bp.Reassemble.Synthesis.{Carries}
use dtn_demo_agent.Common.Portion.Assembly.{Covers}
use dtn_demo_agent.Common.Portion.Spans.{spans}

abbrev primary : ℕ → PrimaryBlock
primary offset = record {
  bundle_flags = 1;
  crc_type = crc_none;
  destination = some "dtn://there/svc";
  source = some "dtn://here/";
  report_to = none;
  dtntime = 1000;
  seqno = 0;
  lifetime = 5000;
  fragment_offset = offset;
  total_app_data_len = 3;
  crc_value = none;
}

abbrev block : List ℕ → CanonicalBlock
block xs = record {
  type_code = some 1;
  block_num = some 1;
  block_flags = 0;
  crc_type = crc_none;
  btsd = some xs;
  crc_value = none;
  payload = no_payload;
}

abbrev fragment_bundle : ℕ → List ℕ → Bundle
fragment_bundle offset xs = record { primary = primary offset; blocks = block xs ∷ [] }

-- A fragment as the agent has it when it is to be delivered
abbrev fragment : ℕ → List ℕ → Container
fragment offset xs = record (new_container (fragment_bundle offset xs)) {
  block_nums = 0 ∷ 1 ∷ [];
  actions = (deliver, 0) ∷ [];
}

abbrev payload : List ℕ
payload = 7 ∷ 8 ∷ 9 ∷ []

abbrev ident : Ident
ident = record { source = some "dtn://here/"; dtntime = 1000; seqno = 0; fragment = none }

unfoldable first_piece : IsPiece spans ident payload (fragment 0 (7 ∷ 8 ∷ []))
unfolding block_num final_ident bundle_ident
first_piece = record {
  to_deliver = refl;
  fragment = refl;
  same_bundle = refl;
  total = refl;
  blk = block (7 ∷ 8 ∷ []);
  found = refl;
  octets = 7 ∷ 8 ∷ [];
  content = refl;
  slice = record { within = omega arith; same = refl };
}

last_piece : IsPiece spans ident payload (fragment 1 (8 ∷ 9 ∷ []))
unfolding block_num final_ident bundle_ident
last_piece = record {
  to_deliver = refl;
  fragment = refl;
  same_bundle = refl;
  total = refl;
  blk = block (8 ∷ 9 ∷ []);
  found = refl;
  octets = 8 ∷ 9 ∷ [];
  content = refl;
  slice = record { within = omega arith; same = refl };
}

abbrev empty_table : Table spans
empty_table = record { reassembly = []; idle = [] }

empty-IsSound : IsSound spans ident payload empty_table
empty-IsSound = record { kept = tt; delivered = tt }

-- The last fragment comes first, and twice.
abbrev pieces : List Container
pieces = fragment 1 (8 ∷ 9 ∷ []) ∷ fragment 1 (8 ∷ 9 ∷ []) ∷ fragment 0 (7 ∷ 8 ∷ []) ∷ []

reassemble-IsSound_example : IsSound spans ident payload (reassemble_all spans pieces empty_table)
reassemble-IsSound_example =
    reassemble-IsSound spans ident payload pieces empty_table
      (last_piece, (last_piece, (first_piece, tt))) empty-IsSound

-- They deliver the bundle.
reassemble_three : length (reassemble_all spans pieces empty_table).idle ≡ 1
unfolding reassemble block_num final_ident bundle_ident reload synthesize settle new_reassembly
    find_reassembly inject ensure_btsd
reassemble_three = refl

-- The first fragment, when the last one is there.
abbrev half : Table spans
half = record {
  reassembly =
      (
        ident,
        record {
          total_length = 3;
          first_frag = none;
          total_valid = spans.closedopen 0 3;
          valid = spans.closedopen 1 3;
          octets = 0 ∷ 8 ∷ 9 ∷ [];
        },
      )
      ∷ [];
  idle = [];
}

half_bounded : (i : ℕ) → spans.member (spans.closedopen 1 3) i ≡ true → i < 3
half_bounded zero m = omega arith
half_bounded (suc zero) m = omega arith
half_bounded (suc (suc zero)) m = omega arith
half_bounded (suc (suc (suc i))) m = absurd cc

half_covered :
    (i : ℕ) → spans.member (spans.closedopen 1 3) i ≡ true → nth i (0 ∷ 8 ∷ 9 ∷ []) ≡ nth i payload
half_covered zero m = absurd cc
half_covered (suc zero) m = refl
half_covered (suc (suc zero)) m = refl
half_covered (suc (suc (suc i))) m = absurd cc

half-IsSound : IsSound spans ident payload half
half-IsSound = record {
  kept = (
    (λ e. record {
      filled = record { total = refl; size = refl; bounded = half_bounded; covered = half_covered };
    }),
    tt,
  );
  delivered = tt;
}

abbrev whole : Container
whole =
    record (new_container
      (record { primary = record (primary 0) { bundle_flags = 0 }; blocks = block payload ∷ [] })) {
        block_nums = 0 ∷ 1 ∷ [];
      }

all_covered :
    Covers spans payload
      (written spans
        (fragment 0 (7 ∷ 8 ∷ []))
        first_piece.octets
        (find_reassembly spans ident 3 half)).valid
unfolding inject find_reassembly first_piece
all_covered zero m = refl
all_covered (suc zero) m = refl
all_covered (suc (suc zero)) m = refl
all_covered (suc (suc (suc i))) m = absurd (omega arith)

first_found :
    (written spans
      (fragment 0 (7 ∷ 8 ∷ []))
      first_piece.octets
      (find_reassembly spans ident 3 half)).first_frag
    ≡ some (fragment_bundle 0 (7 ∷ 8 ∷ []))
unfolding inject find_reassembly
first_found = refl

whole_synthesized : synthesize spans payload (fragment_bundle 0 (7 ∷ 8 ∷ [])) ≡ done tt whole
unfolding synthesize reload block_num ensure_btsd
whole_synthesized = refl

reassemble_delivers_example :
    (reassemble spans (fragment 0 (7 ∷ 8 ∷ [])) half
      ≡ done
          (true, record (fragment 0 (7 ∷ 8 ∷ [])) { actions = [] })
          (record { reassembly = []; idle = whole ∷ [] }))
    × Carries payload whole
reassemble_delivers_example =
    reassemble_delivers spans ident payload (fragment 0 (7 ∷ 8 ∷ [])) half
      (fragment_bundle 0 (7 ∷ 8 ∷ [])) whole first_piece half-IsSound.kept all_covered first_found
      whole_synthesized

-- Ten octets and the block data: a stand-in for the size of the encoding.
abbrev data_size : List CanonicalBlock → ℕ
data_size [] = 10
data_size (b ∷ bs) = elim b.btsd [ none ↦ 0 | some xs ↦ length xs ] + data_size bs

abbrev cbor : Cbor
cbor = record { bundle_size = λ b. data_size b.blocks; uint_size = λ n. 1 }

abbrev six : List ℕ
six = 1 ∷ 2 ∷ 3 ∷ 4 ∷ 5 ∷ 6 ∷ []

abbrev large : Work
large = record {
  ctr =
      record (new_container
        (record { primary = record (primary 0) { bundle_flags = 0 }; blocks = block six ∷ [] })) {
          block_nums = 0 ∷ 1 ∷ [];
          route = some (record {
            next_nodeid = "dtn://b/";
            cl_type = "udpcl";
            mtu = some 13;
            raw_config = 0;
          });
          sender = true;
        };
  idle = [];
}

large-IsTooLarge : IsTooLarge cbor 13 six large.ctr
unfolding should_fragment block_num
large-IsTooLarge = record {
  via = record { next_nodeid = "dtn://b/"; cl_type = "udpcl"; mtu = some 13; raw_config = 0 };
  route = refl;
  limit = refl;
  cut = refl;
  blk = block six;
  found = refl;
  content = refl;
}

create-Fragments_example : Fragments large.ctr.bundle.primary six [] (create cbor large)
create-Fragments_example = create-Fragments cbor 13 six large large-IsTooLarge

-- Two fragments are scheduled, of three octets each.
abbrev payloads : List Container → List (Option (List ℕ))
payloads [] = []
payloads (c ∷ cs) = elim c.bundle.blocks [ [] ↦ none | b ∷ bs ↦ b.btsd ] ∷ payloads cs

abbrev scheduled : {A : Type 0} → Outcome Work A → List (Option (List ℕ))
scheduled o = payloads (final o).idle

create_two : scheduled (create cbor large) ≡ some (1 ∷ 2 ∷ 3 ∷ []) ∷ some (4 ∷ 5 ∷ 6 ∷ []) ∷ []
unfolding create should_fragment block_num create_fragments create_loop next_fragment fill_fragment
    reload empty_fragment fragment_blocks fill_fields update_from_admin fill_block ensure_btsd
    set_btsd
create_two = refl

get_block_num-IsNew_example :
    (n : ℕ) × (get_block_num large.ctr ≡ done n (record (large.ctr) { last_block_num = n }))
    × IsNew 1 (0 ∷ 1 ∷ []) n
get_block_num-IsNew_example = get_block_num-IsNew large.ctr
