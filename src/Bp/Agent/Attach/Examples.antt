-- ===== src/Bp/Agent/Attach/Examples.antt =====
-- Convergence layers of src/bp/agent.py that come and go.
use dtn_demo_agent.Common.{ℕ, ◌≡◌, refl, some, none, List, [], ◌∷◌, String}
use dtn_demo_agent.Bp.Cla.{bind, unbind}
use dtn_demo_agent.Bp.Agent.Attach.{Layer, cl_attach, owner_changed, bus_name_changed}
use dtn_demo_agent.Bp.Agent.Attach.Bound.{
  Owners, Happening, attaches, changes, happenings, AllBoundRight, happenings-AllBoundRight,
}

abbrev nobody : Owners
nobody n = ""

-- A layer is attached before its service is there, then the service starts, starts again, and stops.
abbrev story : List Happening
story =
    attaches "udpcl" "org.udpcl" 1
    ∷ changes "org.udpcl" ":1.5" 2
    ∷ changes "org.udpcl" ":1.6" 3
    ∷ attaches "tcpcl" "org.tcpcl" 4
    ∷ attaches "sctp" "org.sctp" 5
    ∷ []

happenings-AllBoundRight_example : AllBoundRight (happenings story (nobody, []))
happenings-AllBoundRight_example = happenings-AllBoundRight story nobody

abbrev proxies : List (String × Layer) → List ℕ
proxies [] = []
proxies ((t, l) ∷ s) = elim l.binding.agent_obj [ none ↦ 0 | some p ↦ p ] ∷ proxies s

story_bound : proxies (happenings story (nobody, [])).1 ≡ 3 ∷ 0 ∷ []
unfolding cl_attach owner_changed bus_name_changed bind unbind
story_bound = refl
