-- ===== src/Vex/Vector/Saturate.antt =====
-- src/vexop.cc: saturating addition and subtraction, and narrowing with saturation.
pub mod Clamped
pub mod Limits
pub mod Narrowed
pub mod Signed
pub mod Unsigned
use vexllvm.Base.{ℕ, zero, suc, ◌+◌}
use vexllvm.Vex.Llvm.{
  Ty, vec, lanes, scalar_type, Builder, Cast, zext, sext, trunc, Binary, add, sub, Predicate,
  icmp_sgt, icmp_slt, icmp_ugt,
}
use vexllvm.Vex.Vector.Lanes.{fill, zeros, element}

-- The suffixes of the opcodes that OPSATS_AS_EMIT and OPSATU_AS_EMIT declare with QAdd and QSub.
pub data SignedLanes : Type 0 where
  q64sx1 q64sx2 q32sx2 q32sx4 : SignedLanes
  q16sx2 q16sx4 q16sx8 q8sx4 : SignedLanes
  q8sx8 q8sx16 : SignedLanes

pub data UnsignedLanes : Type 0 where
  q64ux1 q64ux2 q32ux2 q32ux4 : UnsignedLanes
  q16ux2 q16ux4 q16ux8 q8ux4 : UnsignedLanes
  q8ux8 q8ux16 : UnsignedLanes

-- The opcodes of OPNRWSS_EMIT.
pub data Narrow : Type 0 where
  iop_qnarrowun16sto8ux8 iop_qnarrowbin16sto8ux16 iop_qnarrowbin16sto8ux8 iop_qnarrowbin32sto16ux8 :
      Narrow
  iop_qnarrowbin16sto8sx8 iop_qnarrowbin16sto8sx16 iop_qnarrowbin32sto16sx4
        iop_qnarrowbin32sto16sx8 :
      Narrow

module _ {V : Type 0} (b : Builder V) where
  -- SHIGH(w, c, x, e, v) and SLOW(w, c, x, e, v)
  unfoldable pub shigh : ℕ → ℕ → Cast → Predicate → Ty → V → V
  shigh w c x e_gt v elem =
      let hi = b.create_cast x (b.constant w c) (scalar_type v) in
      b.create_select (b.create_icmp e_gt elem hi) hi elem

  unfoldable pub slow : ℕ → ℕ → Cast → Predicate → Ty → V → V
  slow w c x e_lt v elem =
      let lo = b.create_cast x (b.constant w c) (scalar_type v) in
      b.create_select (b.create_icmp e_lt elem lo) lo elem

  -- OPSAT_EMIT(x, y, ext, w, op, one, two)
  unfoldable pub opsat : Ty → Cast → Ty → Binary → (V → V) → (V → V) → V → V → V
  opsat y ext w op one two v1 v2 =
      let v1 = b.create_cast ext (b.create_bit_cast v1 y) w in
      let v2 = b.create_cast ext (b.create_bit_cast v2 y) w in
      let partial = b.create op v1 v2 in
      fill b (lanes y) (zeros b y)
        λ i. b.create_cast trunc (two (one (element b partial i))) (scalar_type y)

  -- The operation, QAdd or QSub, that OPSATS_AS_EMIT(a, b, d, e, f, g) declares
  unfoldable pub opsats : Binary → Ty → Ty → ℕ → ℕ → ℕ → V → V → V
  opsats op y d e f g = opsat y sext d op (shigh e f sext icmp_sgt d) (slow e g sext icmp_slt d)

  -- OPSATU_AS_EMIT(a, b, d, e, f, g)
  unfoldable pub opsatu_add : Ty → Ty → ℕ → ℕ → V → V → V
  opsatu_add y d e f = opsat y zext d add (shigh e f zext icmp_ugt d) (λ elem. elem)

  unfoldable pub opsatu_sub : Ty → Ty → ℕ → ℕ → V → V → V
  opsatu_sub y d e g = opsat y zext d sub (λ elem. elem) (slow e g zext icmp_slt d)

  unfoldable pub emit_sat_signed : Binary → SignedLanes → V → V → V
  emit_sat_signed op q64sx1 =
      opsats op (vec 1 64) (vec 1 65) 64 0x7FFFFFFFFFFFFFFF 0x8000000000000000
  emit_sat_signed op q64sx2 =
      opsats op (vec 2 64) (vec 2 65) 64 0x7FFFFFFFFFFFFFFF 0x8000000000000000
  emit_sat_signed op q32sx2 = opsats op (vec 2 32) (vec 2 33) 32 0x7FFFFFFF 0x80000000
  emit_sat_signed op q32sx4 = opsats op (vec 4 32) (vec 4 33) 32 0x7FFFFFFF 0x80000000
  emit_sat_signed op q16sx2 = opsats op (vec 2 16) (vec 2 17) 16 0x7FFF 0x8000
  emit_sat_signed op q16sx4 = opsats op (vec 4 16) (vec 4 17) 16 0x7FFF 0x8000
  emit_sat_signed op q16sx8 = opsats op (vec 8 16) (vec 8 17) 16 0x7FFF 0x8000
  emit_sat_signed op q8sx4 = opsats op (vec 4 8) (vec 4 9) 8 0x7F 0x80
  emit_sat_signed op q8sx8 = opsats op (vec 8 8) (vec 8 9) 8 0x7F 0x80
  emit_sat_signed op q8sx16 = opsats op (vec 16 8) (vec 16 9) 8 0x7F 0x80

  unfoldable pub emit_qadd_unsigned : UnsignedLanes → V → V → V
  emit_qadd_unsigned q64ux1 = opsatu_add (vec 1 64) (vec 1 65) 64 0xFFFFFFFFFFFFFFFF
  emit_qadd_unsigned q64ux2 = opsatu_add (vec 2 64) (vec 2 65) 64 0xFFFFFFFFFFFFFFFF
  emit_qadd_unsigned q32ux2 = opsatu_add (vec 2 32) (vec 2 33) 32 0xFFFFFFFF
  emit_qadd_unsigned q32ux4 = opsatu_add (vec 4 32) (vec 4 33) 32 0xFFFFFFFF
  emit_qadd_unsigned q16ux2 = opsatu_add (vec 2 16) (vec 2 17) 16 0xFFFF
  emit_qadd_unsigned q16ux4 = opsatu_add (vec 4 16) (vec 4 17) 16 0xFFFF
  emit_qadd_unsigned q16ux8 = opsatu_add (vec 8 16) (vec 8 17) 16 0xFFFF
  emit_qadd_unsigned q8ux4 = opsatu_add (vec 4 8) (vec 4 9) 8 0xFF
  emit_qadd_unsigned q8ux8 = opsatu_add (vec 8 8) (vec 8 9) 8 0xFF
  emit_qadd_unsigned q8ux16 = opsatu_add (vec 16 8) (vec 16 9) 8 0xFF

  unfoldable pub emit_qsub_unsigned : UnsignedLanes → V → V → V
  emit_qsub_unsigned q64ux1 = opsatu_sub (vec 1 64) (vec 1 65) 64 0
  emit_qsub_unsigned q64ux2 = opsatu_sub (vec 2 64) (vec 2 65) 64 0
  emit_qsub_unsigned q32ux2 = opsatu_sub (vec 2 32) (vec 2 33) 32 0
  emit_qsub_unsigned q32ux4 = opsatu_sub (vec 4 32) (vec 4 33) 32 0
  emit_qsub_unsigned q16ux2 = opsatu_sub (vec 2 16) (vec 2 17) 16 0
  emit_qsub_unsigned q16ux4 = opsatu_sub (vec 4 16) (vec 4 17) 16 0
  emit_qsub_unsigned q16ux8 = opsatu_sub (vec 8 16) (vec 8 17) 16 0
  emit_qsub_unsigned q8ux4 = opsatu_sub (vec 4 8) (vec 4 9) 8 0
  emit_qsub_unsigned q8ux8 = opsatu_sub (vec 8 8) (vec 8 9) 8 0
  emit_qsub_unsigned q8ux16 = opsatu_sub (vec 16 8) (vec 16 9) 8 0

  -- The element of OPNRWSS_EMIT: clamped to the constants, then truncated.
  unfoldable pub clamp : Ty → V → V → V → V
  clamp w c neg_c elem =
      let elem = b.create_select (b.create_icmp icmp_sgt elem c) c elem in
      let elem = b.create_select (b.create_icmp icmp_slt elem neg_c) neg_c elem in
      b.create_cast trunc elem (scalar_type w)

  -- The rounds i < n of the second loop, whose elements go above the `base` first.
  unfoldable pub fill_above : ℕ → ℕ → V → (ℕ → V) → V
  fill_above base zero result elem = result
  fill_above base (suc n) result elem =
      b.create_insert_element (fill_above base n result elem) (elem n) (b.constant 32 (n + base))

  -- OPNRWSS_EMIT(x, y, w, c, neg_c)
  unfoldable pub opnrwss : Ty → Ty → V → V → V → V → V
  opnrwss y w c neg_c v1 v2 =
      let v1 = b.create_bit_cast v1 y in
      let v2 = b.create_bit_cast v2 y in
      let result = fill b (lanes y) (zeros b w) λ i. clamp w c neg_c (element b v2 i) in
      fill_above (lanes y) (lanes y) result λ i. clamp w c neg_c (element b v1 i)

  unfoldable pub emit_narrow : Narrow → V → V → V
  emit_narrow iop_qnarrowun16sto8ux8 =
      opnrwss (vec 4 16) (vec 8 8) (b.constant 16 0x00FF) (b.constant 16 0)
  emit_narrow iop_qnarrowbin16sto8ux16 =
      opnrwss (vec 8 16) (vec 16 8) (b.constant 16 0x00FF) (b.constant 16 0)
  emit_narrow iop_qnarrowbin16sto8ux8 =
      opnrwss (vec 4 16) (vec 8 8) (b.constant 16 0x00FF) (b.constant 16 0)
  emit_narrow iop_qnarrowbin32sto16ux8 =
      opnrwss (vec 4 32) (vec 8 16) (b.constant 32 0xFFFF) (b.constant 32 0)
  emit_narrow iop_qnarrowbin16sto8sx8 =
      opnrwss (vec 4 16) (vec 8 8) (b.constant 16 0x7F) (b.constant 16 0xFF80)
  emit_narrow iop_qnarrowbin16sto8sx16 =
      opnrwss (vec 8 16) (vec 16 8) (b.constant 16 0x7F) (b.constant 16 0xFF80)
  emit_narrow iop_qnarrowbin32sto16sx4 =
      opnrwss (vec 2 32) (vec 4 16) (b.constant 32 0x7FFF) (b.constant 32 0xFFFF8000)
  emit_narrow iop_qnarrowbin32sto16sx8 =
      opnrwss (vec 4 32) (vec 8 16) (b.constant 32 0x7FFF) (b.constant 32 0xFFFF8000)
