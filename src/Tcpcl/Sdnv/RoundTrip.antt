-- ===== src/Tcpcl/Sdnv/RoundTrip.antt =====
-- `sdnv2int` reads back what `int2sdnv` wrote.
use dtn_demo_agent.Common.{
  ℕ, zero, suc, ◌+◌, ◌*◌, ◌/◌, ◌%◌, ◌^◌, ◌≤◌, ◌≡◌, ap, sym, ◌∙◌, ◌<◌, List, [], ◌∷◌, ◌++◌, dec_lt,
  arith,
}
use dtn_demo_agent.Common.Bits.{low_seven, top_bit, set_top_bit}
use dtn_demo_agent.Tcpcl.Sdnv.{
  int2sdnv, int2sdnv_loop, sdnv2int, sdnv2int_loop, continued, val_mask,
}

pub continued_lem : (val : ℕ) → continued val ≡ val % 128 + 128
continued_lem val = set_top_bit (val % 128) (omega arith)

inner_octet :
    (val acc : ℕ) (rest : List ℕ)
    → sdnv2int_loop (continued val ∷ rest) acc ≡ sdnv2int_loop rest (acc * 128 + val % 128)
unfolding sdnv2int_loop
inner_octet val acc rest =
    ground (arith, continued_lem val, low_seven (continued val), top_bit (continued val))

last_octet :
    (val acc : ℕ) (rest : List ℕ)
    → sdnv2int_loop (val_mask val ∷ rest) acc ≡ (rest, acc * 128 + val % 128)
unfolding sdnv2int_loop
last_octet val acc rest = ground (arith, low_seven (val_mask val), top_bit (val_mask val))

-- The last round, and one of the others.
pub int2sdnv_loop_end :
    (fuel val : ℕ) (s : List ℕ) → val / 2 ^ 7 ≡ 0 → int2sdnv_loop (suc fuel) s val ≡ s
unfolding int2sdnv_loop
int2sdnv_loop_end fuel val s h = ground arith

pub int2sdnv_loop_next :
    (fuel val : ℕ) (s : List ℕ)
    → 0 < val / 2 ^ 7
    → int2sdnv_loop (suc fuel) s val
      ≡ int2sdnv_loop fuel (continued (val / 2 ^ 7) ∷ s) (val / 2 ^ 7)
unfolding int2sdnv_loop
int2sdnv_loop_next fuel val s h = ground arith

loop_reads :
    (fuel val : ℕ) (s rest : List ℕ)
    → val ≤ fuel
    → sdnv2int_loop (int2sdnv_loop fuel s val ++ rest) 0 ≡ sdnv2int_loop (s ++ rest) (val / 128)
unfolding int2sdnv_loop
loop_reads zero val s rest h =
    let e : val / 128 ≡ 0 = omega arith in ap (λ (n : ℕ). sdnv2int_loop (s ++ rest) n) (sym e)
loop_reads (suc fuel) val s rest h = elim (dec_lt 0 (val / 2 ^ 7)) [
  | no last ↦
      let e : val / 128 ≡ 0 = omega arith in rw (int2sdnv_loop_end fuel val s (omega arith), e)
  | yes more ↦ rw (int2sdnv_loop_next fuel val s more) (
      loop_reads fuel (val / 128) (continued (val / 128) ∷ s) rest (omega arith)
      ∙ inner_octet (val / 128) (val / 128 / 128) (s ++ rest)
      ∙ ap (λ (n : ℕ). sdnv2int_loop (s ++ rest) n) (omega arith))
]

-- Decoding an encoded value gives the value and leaves whatever follows it.
pub sdnv2int-int2sdnv : (val : ℕ) (rest : List ℕ) → sdnv2int (int2sdnv val ++ rest) ≡ (rest, val)
unfolding int2sdnv sdnv2int
sdnv2int-int2sdnv val rest =
    loop_reads val val (val_mask val ∷ []) rest (omega arith)
    ∙ last_octet val (val / 128) rest
    ∙ ap (λ (n : ℕ). (rest, n)) (omega arith)
