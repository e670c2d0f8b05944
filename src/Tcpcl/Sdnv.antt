-- ===== src/Tcpcl/Sdnv.antt =====
-- src/tcpcl/sdnv.py: self-delimited numeric values, most significant group first.
pub mod RoundTrip
pub mod Shape
mod Examples
use dtn_demo_agent.Common.{
  ℕ, zero, suc, ◌+◌, ◌*◌, ◌/◌, ◌%◌, ◌^◌, bit_and, bit_or, true, false, List, [], ◌∷◌, ◌==◌,
  if◌then◌else◌,
}

-- `val & VAL_MASK`
abbrev pub val_mask : ℕ → ℕ
val_mask val = val % 2 ^ 7

-- `CNT_MASK | (val & VAL_MASK)`
abbrev pub continued : ℕ → ℕ
continued val = bit_or 0x80 (val_mask val)

-- The `while True` of `int2sdnv`. Each round divides the value, so the value itself is enough fuel.
pub int2sdnv_loop : ℕ → List ℕ → ℕ → List ℕ
int2sdnv_loop zero s val = s
int2sdnv_loop (suc fuel) s val =
    let val' = val / 2 ^ 7 in
    elim (val' == 0) [ true ↦ s | false ↦ int2sdnv_loop fuel (continued val' ∷ s) val' ]

-- A value of ℕ passes the test for negative values.
pub int2sdnv : ℕ → List ℕ
unfolding int2sdnv_loop
int2sdnv val = int2sdnv_loop val (val_mask val ∷ []) val

-- The loop of `sdnv2int` over the octets that are left. Data that ends early gives what was read.
pub sdnv2int_loop : List ℕ → ℕ → List ℕ × ℕ
sdnv2int_loop [] val = ([], val)
sdnv2int_loop (dit ∷ rest) val =
    let val' = val * 2 ^ 7 + bit_and dit 0x7f in
    let more = sdnv2int_loop rest val' in if bit_and dit 0x80 == 0 then (rest, val') else more

pub sdnv2int : List ℕ → List ℕ × ℕ
unfolding sdnv2int_loop
sdnv2int octets = sdnv2int_loop octets 0
