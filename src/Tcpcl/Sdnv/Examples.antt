-- ===== src/Tcpcl/Sdnv/Examples.antt =====
-- Concrete runs of the SDNV codec.
use dtn_demo_agent.Common.{◌≡◌, refl, [], ◌∷◌, ◌++◌}
use dtn_demo_agent.Tcpcl.Sdnv.{int2sdnv, sdnv2int}
use dtn_demo_agent.Tcpcl.Sdnv.RoundTrip.{sdnv2int-int2sdnv}

int2sdnv_300 : int2sdnv 300 ≡ 0x82 ∷ 0x2c ∷ []
unfolding int2sdnv
int2sdnv_300 = refl

int2sdnv_zero : int2sdnv 0 ≡ 0 ∷ []
unfolding int2sdnv
int2sdnv_zero = refl

-- Data that ends before its last octet is read as far as it goes.
sdnv2int_cut : sdnv2int (0x82 ∷ []) ≡ ([], 2)
unfolding sdnv2int
sdnv2int_cut = refl

sdnv2int-int2sdnv_example : sdnv2int (int2sdnv 300 ++ 7 ∷ []) ≡ (7 ∷ [], 300)
sdnv2int-int2sdnv_example = sdnv2int-int2sdnv 300 (7 ∷ [])
