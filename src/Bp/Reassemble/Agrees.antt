-- ===== src/Bp/Reassemble/Agrees.antt =====
-- The octets of a bundle that src/bp/app/fragment.py puts together, against those of its payload.
use dtn_demo_agent.Common.{ℕ, ◌≡◌, true, List, length}
use dtn_demo_agent.Common.Portion.{Portion}
use dtn_demo_agent.Common.Portion.Assembly.{
  IsSlice, Filled, Covers, zeros-Filled, splice-Filled, filled_complete, filled_equal,
}
use dtn_demo_agent.Bp.Bundle.{Bundle}
use dtn_demo_agent.Bp.Reassemble.{Reassembly, new_reassembly, inject}

module _ (portion : Portion) where
  -- The octets that are there are those of the payload.
  pub record Agrees (payload : List ℕ) (r : Reassembly portion.Interval) : Type 0 where
    pub filled : Filled portion payload r.total_valid r.valid r.octets

  pub new-Agrees : (payload : List ℕ) → Agrees payload (new_reassembly portion (length payload))
  unfolding new_reassembly
  new-Agrees payload = record { filled = zeros-Filled portion payload }

  pub inject-Agrees :
      (payload xs : List ℕ) (offset : ℕ) (bundle : Bundle) (r : Reassembly portion.Interval)
      → IsSlice payload offset xs
      → Agrees payload r
      → Agrees payload (inject portion bundle offset xs r)
  unfolding inject
  inject-Agrees payload xs offset bundle r s h = record {
    filled = splice-Filled portion payload xs offset r.total_valid r.valid r.octets s h.filled;
  }

  pub complete_lem :
      (payload : List ℕ) (r : Reassembly portion.Interval)
      → Agrees payload r
      → portion.equal r.valid r.total_valid ≡ true
      → r.octets ≡ payload
  complete_lem payload r h e =
      filled_complete portion payload r.total_valid r.valid r.octets h.filled e

  pub covered-equal :
      (payload : List ℕ) (r : Reassembly portion.Interval)
      → Agrees payload r
      → Covers portion payload r.valid
      → portion.equal r.valid r.total_valid ≡ true
  covered-equal payload r a cov =
      filled_equal portion payload r.total_valid r.valid r.octets a.filled cov
