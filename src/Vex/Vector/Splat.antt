-- ===== src/Vex/Vector/Splat.antt =====
-- src/vexop.cc: the high halves of products, shifts of all lanes by one amount, and the plain
-- narrowing.
use vexllvm.Base.{ℕ, zero, suc, ◌*◌, List, [], ◌∷◌, leb, Result, ok, fault, Fault, if◌then◌else◌}
use vexllvm.Vex.Llvm.{
  Ty, int, vec, lanes, size_in_bits, Builder, Cast, zext, sext, trunc, Binary, mul, shl, lshr, ashr,
}

-- The opcodes of OPV_EXT_EMIT.
pub data MulHigh : Type 0 where
  iop_mulhi16ux4 iop_mulhi16sx4 iop_mulhi16ux8 iop_mulhi16sx8 : MulHigh
  iop_mulhi32ux4 iop_mulhi32sx4 : MulHigh

-- The opcodes of OPVS_EMIT.
pub data ShiftAll : Type 0 where
  iop_shln8x8 iop_sarn8x8 iop_shrn8x8 iop_shln8x16 : ShiftAll
  iop_sarn8x16 iop_shrn8x16 iop_shln16x4 iop_sarn16x4 : ShiftAll
  iop_shrn16x4 iop_shln16x8 iop_sarn16x8 iop_shrn16x8 : ShiftAll
  iop_shln32x2 iop_sarn32x2 iop_shrn32x2 iop_shln32x4 : ShiftAll
  iop_sarn32x4 iop_shrn32x4 iop_shln64x2 iop_sarn64x2 : ShiftAll
  iop_shrn64x2 : ShiftAll

-- The opcodes of OPNRW_EMIT.
pub data PlainNarrow : Type 0 where
  iop_narrowbin16to8x16 iop_narrowbin32to16x8 : PlainNarrow

-- The first n entries of shuffle_v.
unfoldable pub shuffle_v : ℕ → List ℕ
shuffle_v zero = []
shuffle_v (suc n) = 0 ∷ shuffle_v n

module _ {V : Type 0} (b : Builder V) where
  -- The first lane of `v` in every lane: the shuffle by zeros.
  unfoldable pub splat : Ty → V → V
  splat y v = b.create_shuffle_vector v v (shuffle_v (lanes y))

  -- OPV_EXT_EMIT(x, y, z, w, s, o)
  unfoldable pub opv_ext : Ty → Cast → Ty → ℕ → Binary → V → V → Result V
  opv_ext y z w s o v1 v2 =
      let v1 = b.create_cast z (b.create_bit_cast v1 y) w in
      let v2 = b.create_cast z (b.create_bit_cast v2 y) w in
      let full = b.create o v1 v2 in
      let shift = b.create_cast zext (b.constant (s * 2) s) (int (size_in_bits w)) in
      let shift = b.create_bit_cast shift w in
      if leb (lanes y) 8
      then ok (b.create_cast trunc (b.create lshr full (splat y shift)) y)
      else fault Fault.assertion

  unfoldable pub emit_mul_high : MulHigh → V → V → Result V
  emit_mul_high iop_mulhi16ux4 = opv_ext (vec 4 16) zext (vec 4 32) 16 mul
  emit_mul_high iop_mulhi16sx4 = opv_ext (vec 4 16) sext (vec 4 32) 16 mul
  emit_mul_high iop_mulhi16ux8 = opv_ext (vec 8 16) zext (vec 8 32) 16 mul
  emit_mul_high iop_mulhi16sx8 = opv_ext (vec 8 16) sext (vec 8 32) 16 mul
  emit_mul_high iop_mulhi32ux4 = opv_ext (vec 4 32) zext (vec 4 64) 32 mul
  emit_mul_high iop_mulhi32sx4 = opv_ext (vec 4 32) sext (vec 4 64) 32 mul

  -- OPVS_EMIT(x, y, z) with an amount that is not a constant
  unfoldable pub opvs : Ty → Binary → V → V → Result V
  opvs y z v1 v2 =
      let v1 = b.create_bit_cast v1 y in
      let v2 = b.create_bit_cast (b.create_cast zext v2 (int (size_in_bits y))) y in
      if leb (lanes y) 16 then ok (b.create z v1 (splat y v2)) else fault Fault.assertion

  unfoldable pub emit_shift_all : ShiftAll → V → V → Result V
  emit_shift_all iop_shln8x8 = opvs (vec 8 8) shl
  emit_shift_all iop_sarn8x8 = opvs (vec 8 8) ashr
  emit_shift_all iop_shrn8x8 = opvs (vec 8 8) lshr
  emit_shift_all iop_shln8x16 = opvs (vec 16 8) shl
  emit_shift_all iop_sarn8x16 = opvs (vec 16 8) ashr
  emit_shift_all iop_shrn8x16 = opvs (vec 16 8) lshr
  emit_shift_all iop_shln16x4 = opvs (vec 4 16) shl
  emit_shift_all iop_sarn16x4 = opvs (vec 4 16) ashr
  emit_shift_all iop_shrn16x4 = opvs (vec 4 16) lshr
  emit_shift_all iop_shln16x8 = opvs (vec 8 16) shl
  emit_shift_all iop_sarn16x8 = opvs (vec 8 16) ashr
  emit_shift_all iop_shrn16x8 = opvs (vec 8 16) lshr
  emit_shift_all iop_shln32x2 = opvs (vec 2 32) shl
  emit_shift_all iop_sarn32x2 = opvs (vec 2 32) ashr
  emit_shift_all iop_shrn32x2 = opvs (vec 2 32) lshr
  emit_shift_all iop_shln32x4 = opvs (vec 4 32) shl
  emit_shift_all iop_sarn32x4 = opvs (vec 4 32) ashr
  emit_shift_all iop_shrn32x4 = opvs (vec 4 32) lshr
  emit_shift_all iop_shln64x2 = opvs (vec 2 64) shl
  emit_shift_all iop_sarn64x2 = opvs (vec 2 64) ashr
  emit_shift_all iop_shrn64x2 = opvs (vec 2 64) lshr

  -- OPNRW_EMIT(x, w): the assertion in the middle is false.
  unfoldable pub opnrw : Ty → V → V → Result V
  opnrw w v1 v2 = fault Fault.assertion

  unfoldable pub emit_plain_narrow : PlainNarrow → V → V → Result V
  emit_plain_narrow iop_narrowbin16to8x16 = opnrw (vec 16 8)
  emit_plain_narrow iop_narrowbin32to16x8 = opnrw (vec 8 16)
