-- ===== src/Vex/Scalar/Binops.antt =====
-- src/vexop.cc: the operations on two words.
pub mod Shifts
pub mod Division
use vexllvm.Base.{ℕ, ◌/◌}
use vexllvm.Vex.Llvm.{
  Ty, int, Builder, Cast, zext, sext, trunc, Binary, add, sub, mul, udiv, sdiv, urem, srem, and, or,
  xor, shl, lshr, ashr, icmp_eq, icmp_ne, icmp_ule, icmp_ult, icmp_sle, icmp_slt,
}

-- The opcodes of BINOP_EMIT.
pub data Binop : Type 0 where
  iop_add8 iop_add16 iop_add32 iop_add64 iop_and8 iop_and16 iop_and32 iop_and64 : Binop
  iop_mul8 iop_mul16 iop_mul32 iop_mul64 iop_or8 iop_or16 iop_or32 iop_or64 : Binop
  iop_sub8 iop_sub16 iop_sub32 iop_sub64 iop_xor8 iop_xor16 iop_xor32 iop_xor64 : Binop

pub data Compare : Type 0 where
  iop_cmpeq8 iop_cmpeq16 iop_cmpeq32 iop_cmpeq64 : Compare
  iop_cmpne8 iop_cmpne16 iop_cmpne32 iop_cmpne64 : Compare
  iop_expcmpne8 iop_expcmpne16 iop_expcmpne32 iop_expcmpne64 : Compare
  iop_cascmpeq8 iop_cascmpeq16 iop_cascmpeq32 iop_cascmpeq64 : Compare
  iop_cascmpne8 iop_cascmpne16 iop_cascmpne32 iop_cascmpne64 : Compare
  iop_cmple64s iop_cmple64u iop_cmplt64s iop_cmplt64u : Compare
  iop_cmple32s iop_cmple32u iop_cmplt32s iop_cmplt32u : Compare

-- The opcodes of BINOP_EXPAND_EMIT, SHIFT_EMIT and DIVMOD_EMIT.
pub data WideMul : Type 0 where
  iop_mulls8 iop_mulls16 iop_mulls32 iop_mulls64 : WideMul
  iop_mullu8 iop_mullu16 iop_mullu32 iop_mullu64 : WideMul

pub data Shift : Type 0 where
  iop_shl8 iop_shl16 iop_shl32 iop_shl64 iop_shr8 iop_shr16 iop_shr32 iop_shr64 : Shift
  iop_sar8 iop_sar16 iop_sar32 iop_sar64 : Shift

pub data DivMod : Type 0 where
  iop_divmodu128to64 iop_divmods128to64 iop_divmodu64to32 iop_divmods64to32 : DivMod

-- UNOP_EMIT with CreateNot
pub data Not : Type 0 where
  iop_not1 iop_not8 iop_not16 iop_not32 iop_not64 : Not

module _ {V : Type 0} (b : Builder V) where
  -- UNOP_EMIT(x,y)
  unfoldable pub emit_not : Not → V → V
  emit_not iop_not1 = b.create_not
  emit_not iop_not8 = b.create_not
  emit_not iop_not16 = b.create_not
  emit_not iop_not32 = b.create_not
  emit_not iop_not64 = b.create_not

  -- BINOP_EMIT(x,y)
  unfoldable pub binop : (V → V → V) → V → V → V
  binop y v1 v2 = y v1 (b.create_cast zext v2 (b.type_of v1))

  unfoldable pub emit_binop : Binop → V → V → V
  emit_binop iop_add8 = binop (b.create add)
  emit_binop iop_add16 = binop (b.create add)
  emit_binop iop_add32 = binop (b.create add)
  emit_binop iop_add64 = binop (b.create add)
  emit_binop iop_and8 = binop (b.create and)
  emit_binop iop_and16 = binop (b.create and)
  emit_binop iop_and32 = binop (b.create and)
  emit_binop iop_and64 = binop (b.create and)
  emit_binop iop_mul8 = binop (b.create mul)
  emit_binop iop_mul16 = binop (b.create mul)
  emit_binop iop_mul32 = binop (b.create mul)
  emit_binop iop_mul64 = binop (b.create mul)
  emit_binop iop_or8 = binop (b.create or)
  emit_binop iop_or16 = binop (b.create or)
  emit_binop iop_or32 = binop (b.create or)
  emit_binop iop_or64 = binop (b.create or)
  emit_binop iop_sub8 = binop (b.create sub)
  emit_binop iop_sub16 = binop (b.create sub)
  emit_binop iop_sub32 = binop (b.create sub)
  emit_binop iop_sub64 = binop (b.create sub)
  emit_binop iop_xor8 = binop (b.create xor)
  emit_binop iop_xor16 = binop (b.create xor)
  emit_binop iop_xor32 = binop (b.create xor)
  emit_binop iop_xor64 = binop (b.create xor)

  unfoldable pub emit_compare : Compare → V → V → V
  emit_compare iop_cmpeq8 = binop (b.create_icmp icmp_eq)
  emit_compare iop_cmpeq16 = binop (b.create_icmp icmp_eq)
  emit_compare iop_cmpeq32 = binop (b.create_icmp icmp_eq)
  emit_compare iop_cmpeq64 = binop (b.create_icmp icmp_eq)
  emit_compare iop_cmpne8 = binop (b.create_icmp icmp_ne)
  emit_compare iop_cmpne16 = binop (b.create_icmp icmp_ne)
  emit_compare iop_cmpne32 = binop (b.create_icmp icmp_ne)
  emit_compare iop_cmpne64 = binop (b.create_icmp icmp_ne)
  emit_compare iop_expcmpne8 = binop (b.create_icmp icmp_ne)
  emit_compare iop_expcmpne16 = binop (b.create_icmp icmp_ne)
  emit_compare iop_expcmpne32 = binop (b.create_icmp icmp_ne)
  emit_compare iop_expcmpne64 = binop (b.create_icmp icmp_ne)
  emit_compare iop_cascmpeq8 = binop (b.create_icmp icmp_eq)
  emit_compare iop_cascmpeq16 = binop (b.create_icmp icmp_eq)
  emit_compare iop_cascmpeq32 = binop (b.create_icmp icmp_eq)
  emit_compare iop_cascmpeq64 = binop (b.create_icmp icmp_eq)
  emit_compare iop_cascmpne8 = binop (b.create_icmp icmp_ne)
  emit_compare iop_cascmpne16 = binop (b.create_icmp icmp_ne)
  emit_compare iop_cascmpne32 = binop (b.create_icmp icmp_ne)
  emit_compare iop_cascmpne64 = binop (b.create_icmp icmp_ne)
  emit_compare iop_cmple64s = binop (b.create_icmp icmp_sle)
  emit_compare iop_cmple64u = binop (b.create_icmp icmp_ule)
  emit_compare iop_cmplt64s = binop (b.create_icmp icmp_slt)
  emit_compare iop_cmplt64u = binop (b.create_icmp icmp_ult)
  emit_compare iop_cmple32s = binop (b.create_icmp icmp_sle)
  emit_compare iop_cmple32u = binop (b.create_icmp icmp_ule)
  emit_compare iop_cmplt32s = binop (b.create_icmp icmp_slt)
  emit_compare iop_cmplt32u = binop (b.create_icmp icmp_ult)

  -- BINOP_EXPAND_EMIT(x,y,z,w)
  unfoldable pub binop_expand : Cast → Ty → Binary → V → V → V
  binop_expand y z w v1 v2 = b.create w (b.create_cast y v1 z) (b.create_cast y v2 z)

  unfoldable pub emit_wide_mul : WideMul → V → V → V
  emit_wide_mul iop_mulls8 = binop_expand sext (int 16) mul
  emit_wide_mul iop_mulls16 = binop_expand sext (int 32) mul
  emit_wide_mul iop_mulls32 = binop_expand sext (int 64) mul
  emit_wide_mul iop_mulls64 = binop_expand sext (int 128) mul
  emit_wide_mul iop_mullu8 = binop_expand zext (int 16) mul
  emit_wide_mul iop_mullu16 = binop_expand zext (int 32) mul
  emit_wide_mul iop_mullu32 = binop_expand zext (int 64) mul
  emit_wide_mul iop_mullu64 = binop_expand zext (int 128) mul

  -- SHIFT_EMIT(x,y,b)
  unfoldable pub shift : Binary → ℕ → V → V → V
  shift y bits v1 v2 =
      b.create y v1 (b.create_cast zext (b.create_cast trunc v2 (int bits)) (b.type_of v1))

  unfoldable pub emit_shift : Shift → V → V → V
  emit_shift iop_shl8 = shift shl 3
  emit_shift iop_shl16 = shift shl 4
  emit_shift iop_shl32 = shift shl 5
  emit_shift iop_shl64 = shift shl 6
  emit_shift iop_shr8 = shift lshr 3
  emit_shift iop_shr16 = shift lshr 4
  emit_shift iop_shr32 = shift lshr 5
  emit_shift iop_shr64 = shift lshr 6
  emit_shift iop_sar8 = shift ashr 3
  emit_shift iop_sar16 = shift ashr 4
  emit_shift iop_sar32 = shift ashr 5
  emit_shift iop_sar64 = shift ashr 6

  -- DIVMOD_EMIT(x,y,z,w)
  unfoldable pub divmod : Binary → Binary → Cast → ℕ → V → V → V
  divmod y_div y_rem z w v1 v2 =
      let v1 = b.create_bit_cast v1 (int w) in
      let v2 = b.create_cast z v2 (int w) in
      let div = b.create y_div v1 v2 in
      let rem = b.create y_rem v1 v2 in
      let rem = b.create shl rem (b.constant w (w / 2)) in
      let div = b.create_cast zext (b.create_cast trunc div (int (w / 2))) (int w) in
      b.create or div rem

  unfoldable pub emit_divmod : DivMod → V → V → V
  emit_divmod iop_divmodu128to64 = divmod udiv urem zext 128
  emit_divmod iop_divmods128to64 = divmod sdiv srem sext 128
  emit_divmod iop_divmodu64to32 = divmod udiv urem zext 64
  emit_divmod iop_divmods64to32 = divmod sdiv srem sext 64
