-- ===== src/Vex/Vector/Plain.antt =====
-- src/vexop.cc: one instruction on two vectors, and comparisons of vectors.
use vexllvm.Vex.Llvm.{
  Ty, int, vec, Builder, Binary, Predicate, sext, add, sub, mul, and, or, xor, shl, lshr, ashr,
  icmp_eq, icmp_sgt, icmp_ugt,
}

-- The opcodes of OPV_EMIT.
pub data Plain : Type 0 where
  iop_orv128 iop_xorv128 iop_andv128 iop_shl8x8 : Plain
  iop_shr8x8 iop_sar8x8 iop_sal8x8 iop_shl8x16 : Plain
  iop_shr8x16 iop_sar8x16 iop_sal8x16 iop_shl16x4 : Plain
  iop_shr16x4 iop_sar16x4 iop_sal16x4 iop_shl16x8 : Plain
  iop_shr16x8 iop_sar16x8 iop_sal16x8 iop_shl32x2 : Plain
  iop_shr32x2 iop_sar32x2 iop_sal32x2 iop_shl32x4 : Plain
  iop_shr32x4 iop_sar32x4 iop_sal32x4 iop_shl64x2 : Plain
  iop_shr64x2 iop_sar64x2 iop_sal64x2 iop_add8x8 : Plain
  iop_add8x16 iop_add16x4 iop_add16x8 iop_add32x2 : Plain
  iop_add32x4 iop_add64x2 iop_sub8x8 iop_sub8x16 : Plain
  iop_sub16x4 iop_sub16x8 iop_sub32x2 iop_sub32x4 : Plain
  iop_sub64x2 iop_mul8x8 iop_mul8x16 iop_mul16x4 : Plain
  iop_mul16x8 iop_mul32x2 iop_mul32x4 : Plain

-- The opcodes of OPV_CMP_EMIT.
pub data VecCompare : Type 0 where
  iop_cmpeq8x8 iop_cmpeq8x16 iop_cmpeq16x4 iop_cmpeq16x8 : VecCompare
  iop_cmpeq32x2 iop_cmpeq32x4 iop_cmpgt8sx8 iop_cmpgt8sx16 : VecCompare
  iop_cmpgt16sx4 iop_cmpgt16sx8 iop_cmpgt32sx2 iop_cmpgt32sx4 : VecCompare
  iop_cmpgt64sx2 iop_cmpgt8ux8 iop_cmpgt8ux16 iop_cmpgt16ux4 : VecCompare
  iop_cmpgt16ux8 iop_cmpgt32ux2 iop_cmpgt32ux4 : VecCompare

module _ {V : Type 0} (b : Builder V) where
  -- OPV_EMIT(x, y, z)
  unfoldable pub opv : Ty → Binary → V → V → V
  opv y z v1 v2 = b.create z (b.create_bit_cast v1 y) (b.create_bit_cast v2 y)

  unfoldable pub emit_plain : Plain → V → V → V
  emit_plain iop_orv128 = opv (int 128) or
  emit_plain iop_xorv128 = opv (int 128) xor
  emit_plain iop_andv128 = opv (int 128) and
  emit_plain iop_shl8x8 = opv (vec 8 8) shl
  emit_plain iop_shr8x8 = opv (vec 8 8) lshr
  emit_plain iop_sar8x8 = opv (vec 8 8) ashr
  emit_plain iop_sal8x8 = opv (vec 8 8) shl
  emit_plain iop_shl8x16 = opv (vec 16 8) shl
  emit_plain iop_shr8x16 = opv (vec 16 8) lshr
  emit_plain iop_sar8x16 = opv (vec 16 8) ashr
  emit_plain iop_sal8x16 = opv (vec 16 8) shl
  emit_plain iop_shl16x4 = opv (vec 4 16) shl
  emit_plain iop_shr16x4 = opv (vec 4 16) lshr
  emit_plain iop_sar16x4 = opv (vec 4 16) ashr
  emit_plain iop_sal16x4 = opv (vec 4 16) shl
  emit_plain iop_shl16x8 = opv (vec 8 16) shl
  emit_plain iop_shr16x8 = opv (vec 8 16) lshr
  emit_plain iop_sar16x8 = opv (vec 8 16) ashr
  emit_plain iop_sal16x8 = opv (vec 8 16) shl
  emit_plain iop_shl32x2 = opv (vec 2 32) shl
  emit_plain iop_shr32x2 = opv (vec 2 32) lshr
  emit_plain iop_sar32x2 = opv (vec 2 32) ashr
  emit_plain iop_sal32x2 = opv (vec 2 32) shl
  emit_plain iop_shl32x4 = opv (vec 4 32) shl
  emit_plain iop_shr32x4 = opv (vec 4 32) lshr
  emit_plain iop_sar32x4 = opv (vec 4 32) ashr
  emit_plain iop_sal32x4 = opv (vec 4 32) shl
  emit_plain iop_shl64x2 = opv (vec 2 64) shl
  emit_plain iop_shr64x2 = opv (vec 2 64) lshr
  emit_plain iop_sar64x2 = opv (vec 2 64) ashr
  emit_plain iop_sal64x2 = opv (vec 2 64) shl
  emit_plain iop_add8x8 = opv (vec 8 8) add
  emit_plain iop_add8x16 = opv (vec 16 8) add
  emit_plain iop_add16x4 = opv (vec 4 16) add
  emit_plain iop_add16x8 = opv (vec 8 16) add
  emit_plain iop_add32x2 = opv (vec 2 32) add
  emit_plain iop_add32x4 = opv (vec 4 32) add
  emit_plain iop_add64x2 = opv (vec 2 64) add
  emit_plain iop_sub8x8 = opv (vec 8 8) sub
  emit_plain iop_sub8x16 = opv (vec 16 8) sub
  emit_plain iop_sub16x4 = opv (vec 4 16) sub
  emit_plain iop_sub16x8 = opv (vec 8 16) sub
  emit_plain iop_sub32x2 = opv (vec 2 32) sub
  emit_plain iop_sub32x4 = opv (vec 4 32) sub
  emit_plain iop_sub64x2 = opv (vec 2 64) sub
  emit_plain iop_mul8x8 = opv (vec 8 8) mul
  emit_plain iop_mul8x16 = opv (vec 16 8) mul
  emit_plain iop_mul16x4 = opv (vec 4 16) mul
  emit_plain iop_mul16x8 = opv (vec 8 16) mul
  emit_plain iop_mul32x2 = opv (vec 2 32) mul
  emit_plain iop_mul32x4 = opv (vec 4 32) mul

  -- UNOPV_EMIT(NotV128, get_i(128), Not)
  unfoldable pub emit_notv128 : V → V
  emit_notv128 v1 = b.create_not (b.create_bit_cast v1 (int 128))

  -- OPV_CMP_T_EMIT(x, y, z, w), and OPV_CMP_EMIT(x, y, z)
  unfoldable pub opv_cmp_t : Ty → Predicate → Ty → V → V → V
  opv_cmp_t y z w v1 v2 =
      b.create_cast sext (b.create_icmp z (b.create_bit_cast v1 y) (b.create_bit_cast v2 y)) w

  unfoldable pub opv_cmp : Ty → Predicate → V → V → V
  opv_cmp y z = opv_cmp_t y z y

  unfoldable pub emit_vec_compare : VecCompare → V → V → V
  emit_vec_compare iop_cmpeq8x8 = opv_cmp (vec 8 8) icmp_eq
  emit_vec_compare iop_cmpeq8x16 = opv_cmp (vec 16 8) icmp_eq
  emit_vec_compare iop_cmpeq16x4 = opv_cmp (vec 4 16) icmp_eq
  emit_vec_compare iop_cmpeq16x8 = opv_cmp (vec 8 16) icmp_eq
  emit_vec_compare iop_cmpeq32x2 = opv_cmp (vec 2 32) icmp_eq
  emit_vec_compare iop_cmpeq32x4 = opv_cmp (vec 4 32) icmp_eq
  emit_vec_compare iop_cmpgt8sx8 = opv_cmp (vec 8 8) icmp_sgt
  emit_vec_compare iop_cmpgt8sx16 = opv_cmp (vec 16 8) icmp_sgt
  emit_vec_compare iop_cmpgt16sx4 = opv_cmp (vec 4 16) icmp_sgt
  emit_vec_compare iop_cmpgt16sx8 = opv_cmp (vec 8 16) icmp_sgt
  emit_vec_compare iop_cmpgt32sx2 = opv_cmp (vec 2 32) icmp_sgt
  emit_vec_compare iop_cmpgt32sx4 = opv_cmp (vec 4 32) icmp_sgt
  emit_vec_compare iop_cmpgt64sx2 = opv_cmp (vec 2 64) icmp_sgt
  emit_vec_compare iop_cmpgt8ux8 = opv_cmp (vec 8 8) icmp_ugt
  emit_vec_compare iop_cmpgt8ux16 = opv_cmp (vec 16 8) icmp_ugt
  emit_vec_compare iop_cmpgt16ux4 = opv_cmp (vec 4 16) icmp_ugt
  emit_vec_compare iop_cmpgt16ux8 = opv_cmp (vec 8 16) icmp_ugt
  emit_vec_compare iop_cmpgt32ux2 = opv_cmp (vec 2 32) icmp_ugt
  emit_vec_compare iop_cmpgt32ux4 = opv_cmp (vec 4 32) icmp_ugt
