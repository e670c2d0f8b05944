-- ===== src/Bp/Reassemble/Synthesis.antt =====
-- The bundle that `_reassemble` of src/bp/app/fragment.py makes of a first fragment and a payload.
use dtn_demo_agent.Common.{ℕ, ◌≡◌, refl, Option, none, some, List, arith}
use dtn_demo_agent.Common.Exec.{Exec, Outcome, done, raised, continue}
use dtn_demo_agent.Bp.Bundle.{Bundle, CanonicalBlock, crc_none, num_payload}
use dtn_demo_agent.Bp.Container.{Container, block_num, find_block, find-update, update_block}
use dtn_demo_agent.Common.Portion.{Portion}
use dtn_demo_agent.Bp.Reassemble.{synthesize}

-- The payload block of a container has these octets.
pub record Carries (payload : List ℕ) (c : Container) : Type 0 where
  pub blk : CanonicalBlock
  pub found : block_num num_payload c ≡ done blk c
  pub content : blk.btsd ≡ some payload

seal : List ℕ → CanonicalBlock → CanonicalBlock
seal payload b = record b { btsd = some payload; crc_type = crc_none; crc_value = none }

-- The last step of the synthesis, for the block that it found.
sealed : List ℕ → Container → Container
sealed payload d = record d {
  bundle = record (d.bundle) { blocks = update_block num_payload (seal payload) d.bundle.blocks };
}

seal_in : List ℕ → Exec Container (Unit {0})
seal_in payload c = continue (block_num num_payload c) (λ blk d. done tt (sealed payload d))

sealed-Carries :
    (payload : List ℕ) (c : Container) (o : Option CanonicalBlock)
    → find_block num_payload c.bundle.blocks ≡ o
    → (d : Container) → seal_in payload c ≡ done tt d
    → Carries payload d
unfolding block_num sealed seal seal_in
sealed-Carries payload c none f d e = absurd (ground arith)
sealed-Carries payload c (some b) f d e = record {
  blk = seal payload b;
  found = ground (arith, find-update num_payload (seal payload) b c.bundle.blocks (λ x. refl) f);
  content = refl;
}

reloaded-Carries :
    (payload : List ℕ) (o : Outcome Container (Unit {0})) (d : Container)
    → continue o (λ _. seal_in payload) ≡ done tt d
    → Carries payload d
reloaded-Carries payload (done _ c) d e =
    sealed-Carries payload c (find_block num_payload c.bundle.blocks) refl d e
reloaded-Carries payload (raised x c) d e = absurd cc

module _ (portion : Portion) where
  pub synthesize-Carries :
      (payload : List ℕ) (first : Bundle) (c : Container)
      → synthesize portion payload first ≡ done tt c
      → Carries payload c
  unfolding synthesize sealed seal seal_in
  synthesize-Carries payload first c e = reloaded-Carries payload _ c e
