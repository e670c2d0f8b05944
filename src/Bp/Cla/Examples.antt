-- ===== src/Bp/Cla/Examples.antt =====
-- The adaptor of src/bp/cla.py at work.
use dtn_demo_agent.Common.{◌≡◌, refl, true, [], ◌∷◌}
use dtn_demo_agent.Bp.Cla.{Tcpcl, udpcl_tagged}

abbrev fresh : Tcpcl
fresh = record {
  cl_conn_path = [];
  cl_conn_nodeid = [];
  sess_wait = [];
  state_signals = [];
  calls = [];
}

tagged_once : udpcl_tagged true (udpcl_tagged true (1 ∷ [])) ≡ 217 ∷ 217 ∷ 247 ∷ 1 ∷ []
unfolding udpcl_tagged
tagged_once = refl
