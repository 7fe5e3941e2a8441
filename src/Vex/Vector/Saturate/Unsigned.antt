-- ===== src/Vex/Vector/Saturate/Unsigned.antt =====
-- src/vexop.cc: QAdd and QSub on unsigned lanes, OPSATU_AS_EMIT.
use vexllvm.Base.{ℕ, ◌+◌, ◌-◌, ◌^◌, ◌<◌, ◌≤◌, ◌≡◌, arith, ◌∙◌}
use vexllvm.Vex.Llvm.{vec, Builder}
use vexllvm.Vex.Llvm.Documented.{IsDocumented}
use vexllvm.Vex.Vector.Saturate
use vexllvm.Vex.Vector.Saturate.Clamped.{
  clamped, unsigned_add8, unsigned_add16, unsigned_add32, unsigned_add64, unsigned_sub8,
  unsigned_sub16, unsigned_sub32, unsigned_sub64,
}
use vexllvm.Vex.Vector.Saturate.Limits.{
  operand, operand-bound, unsigned_add_lane, unsigned_sub_lane,
}

-- The lanes of an opcode's vectors, and their bits.
abbrev pub unsigned_lanes : Saturate.UnsignedLanes → ℕ
unsigned_lanes Saturate.q64ux1 = 1
unsigned_lanes Saturate.q64ux2 = 2
unsigned_lanes Saturate.q32ux2 = 2
unsigned_lanes Saturate.q32ux4 = 4
unsigned_lanes Saturate.q16ux2 = 2
unsigned_lanes Saturate.q16ux4 = 4
unsigned_lanes Saturate.q16ux8 = 8
unsigned_lanes Saturate.q8ux4 = 4
unsigned_lanes Saturate.q8ux8 = 8
unsigned_lanes Saturate.q8ux16 = 16

abbrev pub unsigned_width : Saturate.UnsignedLanes → ℕ
unsigned_width Saturate.q64ux1 = 64
unsigned_width Saturate.q64ux2 = 64
unsigned_width Saturate.q32ux2 = 32
unsigned_width Saturate.q32ux4 = 32
unsigned_width Saturate.q16ux2 = 16
unsigned_width Saturate.q16ux4 = 16
unsigned_width Saturate.q16ux8 = 16
unsigned_width Saturate.q8ux4 = 8
unsigned_width Saturate.q8ux8 = 8
unsigned_width Saturate.q8ux16 = 8

module _ {V : Type 0} {b : Builder V} (laws : IsDocumented b) where
  unsigned_sum8 :
      (n : ℕ) (v1 v2 : V) (i : ℕ)
      → n ≤ 2 ^ 32
      → i < n
      → (b.lane (Saturate.opsatu_add b (vec n 8) (vec n 9) 8 0xFF v1 v2) i
          ≡ clamped 8 (operand b v1 n 8 i + operand b v2 n 8 i))
        × (b.lane (Saturate.opsatu_sub b (vec n 8) (vec n 9) 8 0 v1 v2) i
            ≡ operand b v1 n 8 i - operand b v2 n 8 i)
  unsigned_sum8 n v1 v2 i large l =
      let x = operand-bound laws v1 n 8 i in
      let y = operand-bound laws v2 n 8 i in
      (
        unsigned_add_lane laws n 8 0xFF v1 v2 large i l ∙ unsigned_add8 _ _ x y,
        unsigned_sub_lane laws n 8 0 v1 v2 large i l ∙ unsigned_sub8 _ _ x y,
      )

  unsigned_sum16 :
      (n : ℕ) (v1 v2 : V) (i : ℕ)
      → n ≤ 2 ^ 32
      → i < n
      → (b.lane (Saturate.opsatu_add b (vec n 16) (vec n 17) 16 0xFFFF v1 v2) i
          ≡ clamped 16 (operand b v1 n 16 i + operand b v2 n 16 i))
        × (b.lane (Saturate.opsatu_sub b (vec n 16) (vec n 17) 16 0 v1 v2) i
            ≡ operand b v1 n 16 i - operand b v2 n 16 i)
  unsigned_sum16 n v1 v2 i large l =
      let x = operand-bound laws v1 n 16 i in
      let y = operand-bound laws v2 n 16 i in
      (
        unsigned_add_lane laws n 16 0xFFFF v1 v2 large i l ∙ unsigned_add16 _ _ x y,
        unsigned_sub_lane laws n 16 0 v1 v2 large i l ∙ unsigned_sub16 _ _ x y,
      )

  unsigned_sum32 :
      (n : ℕ) (v1 v2 : V) (i : ℕ)
      → n ≤ 2 ^ 32
      → i < n
      → (b.lane (Saturate.opsatu_add b (vec n 32) (vec n 33) 32 0xFFFFFFFF v1 v2) i
          ≡ clamped 32 (operand b v1 n 32 i + operand b v2 n 32 i))
        × (b.lane (Saturate.opsatu_sub b (vec n 32) (vec n 33) 32 0 v1 v2) i
            ≡ operand b v1 n 32 i - operand b v2 n 32 i)
  unsigned_sum32 n v1 v2 i large l =
      let x = operand-bound laws v1 n 32 i in
      let y = operand-bound laws v2 n 32 i in
      (
        unsigned_add_lane laws n 32 0xFFFFFFFF v1 v2 large i l ∙ unsigned_add32 _ _ x y,
        unsigned_sub_lane laws n 32 0 v1 v2 large i l ∙ unsigned_sub32 _ _ x y,
      )

  unsigned_sum64 :
      (n : ℕ) (v1 v2 : V) (i : ℕ)
      → n ≤ 2 ^ 32
      → i < n
      → (b.lane (Saturate.opsatu_add b (vec n 64) (vec n 65) 64 0xFFFFFFFFFFFFFFFF v1 v2) i
          ≡ clamped 64 (operand b v1 n 64 i + operand b v2 n 64 i))
        × (b.lane (Saturate.opsatu_sub b (vec n 64) (vec n 65) 64 0 v1 v2) i
            ≡ operand b v1 n 64 i - operand b v2 n 64 i)
  unsigned_sum64 n v1 v2 i large l =
      let x = operand-bound laws v1 n 64 i in
      let y = operand-bound laws v2 n 64 i in
      (
        unsigned_add_lane laws n 64 0xFFFFFFFFFFFFFFFF v1 v2 large i l ∙ unsigned_add64 _ _ x y,
        unsigned_sub_lane laws n 64 0 v1 v2 large i l ∙ unsigned_sub64 _ _ x y,
      )

  -- In every lane of an unsigned saturating operation, the sum is the exact sum, or the
  -- greatest number of the width where that is larger, and the difference is the exact
  -- difference, or 0 where that is negative.
  pub emit_sat_unsigned_lem :
      (op : Saturate.UnsignedLanes) (v1 v2 : V) (i : ℕ)
      → i < unsigned_lanes op
      → (b.lane (Saturate.emit_qadd_unsigned b op v1 v2) i
          ≡ clamped (unsigned_width op) (
              operand b v1 (unsigned_lanes op) (unsigned_width op) i
              + operand b v2 (unsigned_lanes op) (unsigned_width op) i))
        × (b.lane (Saturate.emit_qsub_unsigned b op v1 v2) i
            ≡ operand b v1 (unsigned_lanes op) (unsigned_width op) i
              - operand b v2 (unsigned_lanes op) (unsigned_width op) i)
  unfolding Saturate.emit_qadd_unsigned Saturate.emit_qsub_unsigned
  emit_sat_unsigned_lem Saturate.q64ux1 v1 v2 i l = unsigned_sum64 1 v1 v2 i (omega arith) l
  emit_sat_unsigned_lem Saturate.q64ux2 v1 v2 i l = unsigned_sum64 2 v1 v2 i (omega arith) l
  emit_sat_unsigned_lem Saturate.q32ux2 v1 v2 i l = unsigned_sum32 2 v1 v2 i (omega arith) l
  emit_sat_unsigned_lem Saturate.q32ux4 v1 v2 i l = unsigned_sum32 4 v1 v2 i (omega arith) l
  emit_sat_unsigned_lem Saturate.q16ux2 v1 v2 i l = unsigned_sum16 2 v1 v2 i (omega arith) l
  emit_sat_unsigned_lem Saturate.q16ux4 v1 v2 i l = unsigned_sum16 4 v1 v2 i (omega arith) l
  emit_sat_unsigned_lem Saturate.q16ux8 v1 v2 i l = unsigned_sum16 8 v1 v2 i (omega arith) l
  emit_sat_unsigned_lem Saturate.q8ux4 v1 v2 i l = unsigned_sum8 4 v1 v2 i (omega arith) l
  emit_sat_unsigned_lem Saturate.q8ux8 v1 v2 i l = unsigned_sum8 8 v1 v2 i (omega arith) l
  emit_sat_unsigned_lem Saturate.q8ux16 v1 v2 i l = unsigned_sum8 16 v1 v2 i (omega arith) l
