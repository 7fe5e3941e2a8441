-- ===== src/Vex/Vector/Interleave.antt =====
-- src/vexop.cc: the interleaving of the halves of two vectors by constant shuffles.
pub mod Order
use vexllvm.Base.{ℕ, List, [], ◌∷◌}
use vexllvm.Vex.Llvm.{Ty, vec, Builder}

-- The opcodes of EMIT_ILEAVE.
pub data Interleave : Type 0 where
  iop_interleavelo8x8 iop_interleavehi8x8 iop_interleavelo8x16 iop_interleavehi8x16 : Interleave
  iop_interleavelo16x4 iop_interleavehi16x4 iop_interleavelo16x8 iop_interleavehi16x8 : Interleave
  iop_interleavelo32x2 iop_interleavehi32x2 iop_interleavelo32x4 iop_interleavehi32x4 : Interleave
  iop_interleavelo64x2 iop_interleavehi64x2 : Interleave

abbrev ileave_lo8x16 : List ℕ
ileave_lo8x16 = 16 ∷ 0 ∷ 17 ∷ 1 ∷ 18 ∷ 2 ∷ 19 ∷ 3 ∷ 20 ∷ 4 ∷ 21 ∷ 5 ∷ 22 ∷ 6 ∷ 23 ∷ 7 ∷ []

abbrev ileave_hi8x16 : List ℕ
ileave_hi8x16 = 24 ∷ 8 ∷ 25 ∷ 9 ∷ 26 ∷ 10 ∷ 27 ∷ 11 ∷ 28 ∷ 12 ∷ 29 ∷ 13 ∷ 30 ∷ 14 ∷ 31 ∷ 15 ∷ []

abbrev ileave_lo16x8 : List ℕ
ileave_lo16x8 = 8 ∷ 0 ∷ 9 ∷ 1 ∷ 10 ∷ 2 ∷ 11 ∷ 3 ∷ []

abbrev ileave_hi16x8 : List ℕ
ileave_hi16x8 = 12 ∷ 4 ∷ 13 ∷ 5 ∷ 14 ∷ 6 ∷ 15 ∷ 7 ∷ []

abbrev ileave_lo32x4 : List ℕ
ileave_lo32x4 = 4 ∷ 0 ∷ 5 ∷ 1 ∷ []

abbrev ileave_hi32x4 : List ℕ
ileave_hi32x4 = 6 ∷ 2 ∷ 7 ∷ 3 ∷ []

abbrev ileave_lo64x2 : List ℕ
ileave_lo64x2 = 2 ∷ 0 ∷ []

abbrev ileave_hi64x2 : List ℕ
ileave_hi64x2 = 3 ∷ 1 ∷ []

module _ {V : Type 0} (b : Builder V) where
  -- EMIT_ILEAVE(x, y, w)
  unfoldable pub ileave : List ℕ → Ty → V → V → V
  ileave y w v1 v2 = b.create_shuffle_vector (b.create_bit_cast v1 w) (b.create_bit_cast v2 w) y

  unfoldable pub emit_interleave : Interleave → V → V → V
  emit_interleave iop_interleavelo8x8 = ileave ileave_lo16x8 (vec 8 8)
  emit_interleave iop_interleavehi8x8 = ileave ileave_hi16x8 (vec 8 8)
  emit_interleave iop_interleavelo8x16 = ileave ileave_lo8x16 (vec 16 8)
  emit_interleave iop_interleavehi8x16 = ileave ileave_hi8x16 (vec 16 8)
  emit_interleave iop_interleavelo16x4 = ileave ileave_lo32x4 (vec 4 16)
  emit_interleave iop_interleavehi16x4 = ileave ileave_hi32x4 (vec 4 16)
  emit_interleave iop_interleavelo16x8 = ileave ileave_lo16x8 (vec 8 16)
  emit_interleave iop_interleavehi16x8 = ileave ileave_hi16x8 (vec 8 16)
  emit_interleave iop_interleavelo32x2 = ileave ileave_lo64x2 (vec 2 32)
  emit_interleave iop_interleavehi32x2 = ileave ileave_hi64x2 (vec 2 32)
  emit_interleave iop_interleavelo32x4 = ileave ileave_lo32x4 (vec 4 32)
  emit_interleave iop_interleavehi32x4 = ileave ileave_hi32x4 (vec 4 32)
  emit_interleave iop_interleavelo64x2 = ileave ileave_lo64x2 (vec 2 64)
  emit_interleave iop_interleavehi64x2 = ileave ileave_hi64x2 (vec 2 64)
