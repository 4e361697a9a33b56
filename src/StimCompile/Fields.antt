-- ===== src/StimCompile/Fields.antt =====
-- What the testbench reads off an operation word.
use xilinx_unittests.Prelude.{
  ℕ, ◌+◌, ◌-◌, ◌*◌, ◌/◌, ◌%◌, ◌^◌, ◌<◌, leb, not, ◌&&◌, ◌≡◌, subst, arith, ok, refuse, refuse-ok,
  check-ok,
}
use xilinx_unittests.StimCompile.{Operation, CompileError, code, word}

-- A word holds the code of its operation in bits 127:120, its index in bits 119:96, its value in
-- bits 95:64 and its time in bits 63:0.
pub record HasFields (op : Operation) (idx val t w : ℕ) : Type 0 where
  pub op_field : w / 2 ^ 120 ≡ code op
  pub idx_field : w / 2 ^ 96 % 2 ^ 24 ≡ idx
  pub val_field : w / 2 ^ 64 % 2 ^ 32 ≡ val
  pub t_field : w % 2 ^ 64 ≡ t

-- Where a word is made, its four fields are what it is made of.
pub word-HasFields :
    (op : Operation) (idx val t w : ℕ) → word op idx val t ≡ ok w → HasFields op idx val t w
unfolding word
word-HasFields op idx val t w h =
    let (fits, made) =
      check-ok
        (refuse (not (leb idx (2 ^ 24 - 1) && (leb val (2 ^ 32 - 1) && leb t (2 ^ 64 - 1))))
          CompileError.does_not_fit)
        _ h in
    let test =
      refuse-ok (not (leb idx (2 ^ 24 - 1) && (leb val (2 ^ 32 - 1) && leb t (2 ^ 64 - 1))))
        CompileError.does_not_fit fits in
    let i : idx < 2 ^ 24 = ground arith in
    let v : val < 2 ^ 32 = ground arith in
    let s : t < 2 ^ 64 = ground arith in
    let e : code op * 2 ^ 120 + idx * 2 ^ 96 + val * 2 ^ 64 + t ≡ w = cc made in
    subst (HasFields op idx val t) e (record {
      op_field = omega arith;
      idx_field = omega arith;
      val_field = omega arith;
      t_field = omega arith;
    })
