-- ===== src/Vex/Vector/Lanes.antt =====
-- src/vexop.cc, src/vexop_macros.h: results that a loop fills lane by lane.
pub mod Averaged
pub mod Extremes
pub mod Loop
use vexllvm.Base.{ℕ, zero, suc, ◌*◌}
use vexllvm.Vex.Llvm.{
  Ty, int, vec, lanes, width, size_in_bits, scalar_type, Builder, Cast, zext, sext, trunc, Binary,
  add, sub, lshr, Predicate, icmp_ugt, icmp_sgt, icmp_ult, icmp_slt,
}

-- The opcodes of BINCMP_EMIT.
pub data MinMax : Type 0 where
  iop_max8ux8 iop_max8ux16 iop_max16sx4 iop_max16sx8 : MinMax
  iop_min8ux8 iop_min8ux16 iop_min16sx4 iop_min16sx8 : MinMax

-- The opcodes of OPAVG_EMIT.
pub data Average : Type 0 where
  iop_avg8ux8 iop_avg8ux16 iop_avg8sx16 iop_avg16ux4 : Average
  iop_avg16ux8 iop_avg16sx8 iop_avg32ux4 iop_avg32sx4 : Average

-- The opcodes of OPHOP_EMIT.
pub data Halving : Type 0 where
  iop_hadd16ux2 iop_hadd16sx2 iop_hsub16ux2 iop_hsub16sx2 : Halving
  iop_hadd8ux4 iop_hadd8sx4 iop_hsub8ux4 iop_hsub8sx4 : Halving

-- The opcodes of OPSHUF_EMIT.
pub data Permute : Type 0 where
  iop_perm8x8 iop_perm8x16 : Permute

module _ {V : Type 0} (b : Builder V) where
  -- The rounds i < n of a loop that inserts an element at each i.
  unfoldable pub fill : ℕ → V → (ℕ → V) → V
  fill zero result elem = result
  fill (suc n) result elem = b.create_insert_element (fill n result elem) (elem n) (b.constant 32 n)

  -- `builder->CreateBitCast(get_c(y->getBitWidth(), 0), y)`
  unfoldable pub zeros : Ty → V
  zeros y = b.create_bit_cast (b.constant (size_in_bits y) 0) y

  -- `builder->CreateExtractElement(v, get_32i(i))`
  unfoldable pub element : V → ℕ → V
  element v i = b.create_extract_element v (b.constant 32 i)

  -- BINCMP_EMIT(x,y,z)
  unfoldable pub bincmp : Ty → Predicate → V → V → V
  bincmp y z v1 v2 =
      let v1 = b.create_bit_cast v1 y in
      let v2 = b.create_bit_cast v2 y in
      fill (lanes y) (zeros y) λ i.
        let e1 = element v1 i in
        let e2 = element v2 i in b.create_select (b.create_icmp z e1 e2) e1 e2

  unfoldable pub emit_min_max : MinMax → V → V → V
  emit_min_max iop_max8ux8 = bincmp (vec 8 8) icmp_ugt
  emit_min_max iop_max8ux16 = bincmp (vec 16 8) icmp_ugt
  emit_min_max iop_max16sx4 = bincmp (vec 4 16) icmp_sgt
  emit_min_max iop_max16sx8 = bincmp (vec 8 16) icmp_sgt
  emit_min_max iop_min8ux8 = bincmp (vec 8 8) icmp_ult
  emit_min_max iop_min8ux16 = bincmp (vec 16 8) icmp_ult
  emit_min_max iop_min16sx4 = bincmp (vec 4 16) icmp_slt
  emit_min_max iop_min16sx8 = bincmp (vec 8 16) icmp_slt

  -- OPAVG_EMIT(x, y, ext, w)
  unfoldable pub opavg : Ty → Cast → Ty → V → V → V
  opavg y ext w v1 v2 =
      let v1 = b.create_cast ext (b.create_bit_cast v1 y) w in
      let v2 = b.create_cast ext (b.create_bit_cast v2 y) w in
      let partial = b.create add v1 v2 in
      fill (lanes y) (zeros y) λ i.
        let e = element partial i in
        let e = b.create add e (b.constant (size_in_bits (b.type_of e)) 1) in
        let e = b.create lshr e (b.constant (size_in_bits (b.type_of e)) 1) in
        b.create_cast trunc e (scalar_type y)

  unfoldable pub emit_average : Average → V → V → V
  emit_average iop_avg8ux8 = opavg (vec 8 8) zext (vec 8 16)
  emit_average iop_avg8ux16 = opavg (vec 16 8) zext (vec 16 16)
  emit_average iop_avg8sx16 = opavg (vec 16 8) sext (vec 16 16)
  emit_average iop_avg16ux4 = opavg (vec 4 16) zext (vec 4 32)
  emit_average iop_avg16ux8 = opavg (vec 8 16) zext (vec 8 32)
  emit_average iop_avg16sx8 = opavg (vec 8 16) sext (vec 8 32)
  emit_average iop_avg32ux4 = opavg (vec 4 32) zext (vec 4 64)
  emit_average iop_avg32sx4 = opavg (vec 4 32) sext (vec 4 64)

  -- OPHOP_EMIT(x, vt, aop, ext)
  unfoldable pub ophop : Ty → Binary → Cast → V → V → V
  ophop vt aop ext v1 v2 =
      let v1 = b.create_bit_cast v1 vt in
      let v2 = b.create_bit_cast v2 vt in
      let wide = int (2 * width vt) in
      let halved = fill (lanes vt) (zeros vt) λ i.
        let lhs = b.create_cast ext (element v1 i) wide in
        let rhs = b.create_cast ext (element v2 i) wide in
        let e = b.create lshr (b.create aop lhs rhs) (b.constant (width vt * 2) 1) in
        b.create_cast trunc e (scalar_type vt) in
      b.create_bit_cast halved (int (size_in_bits vt))

  unfoldable pub emit_halving : Halving → V → V → V
  emit_halving iop_hadd16ux2 = ophop (vec 2 16) add zext
  emit_halving iop_hadd16sx2 = ophop (vec 2 16) add sext
  emit_halving iop_hsub16ux2 = ophop (vec 2 16) sub zext
  emit_halving iop_hsub16sx2 = ophop (vec 2 16) sub sext
  emit_halving iop_hadd8ux4 = ophop (vec 4 8) add zext
  emit_halving iop_hadd8sx4 = ophop (vec 4 8) add sext
  emit_halving iop_hsub8ux4 = ophop (vec 4 8) sub zext
  emit_halving iop_hsub8sx4 = ophop (vec 4 8) sub sext

  -- OPSHUF_EMIT(x, y, z)
  unfoldable pub opshuf : Ty → V → V → V
  opshuf y v1 v2 =
      let v1 = b.create_bit_cast v1 y in
      let v2 = b.create_bit_cast v2 y in
      fill (lanes y) (zeros y)
        λ i. b.create_extract_element v1 (b.create_cast zext (element v2 i) (int 32))

  unfoldable pub emit_permute : Permute → V → V → V
  emit_permute iop_perm8x8 = opshuf (vec 8 8)
  emit_permute iop_perm8x16 = opshuf (vec 16 8)

  -- EMIT_HELPER_UNOP_VEC(x,y,fn), given the call of the helper
  unfoldable pub helper_unop_vec : (V → V) → Ty → V → V
  helper_unop_vec f y v =
      let v = b.create_bit_cast v y in fill (lanes y) (zeros y) λ i. f (element v i)

  unfoldable pub emit_cls32x4 : (V → V) → V → V
  emit_cls32x4 vexop_cls32 = helper_unop_vec vexop_cls32 (vec 32 4)

  unfoldable pub emit_cls32x2 : (V → V) → V → V
  emit_cls32x2 vexop_cls32 = helper_unop_vec vexop_cls32 (vec 32 2)
