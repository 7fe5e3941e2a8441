-- ===== src/Vex/Vector/Saturate/Signed.antt =====
-- src/vexop.cc: QAdd and QSub on signed lanes, OPSATS_AS_EMIT.
use vexllvm.Base.{ℕ, ◌+◌, ◌-◌, ◌/◌, ◌^◌, ◌<◌, ◌≤◌, ◌≡◌, arith, ap, ◌∙◌}
use vexllvm.Vex.Llvm.{vec, Builder, add, sub}
use vexllvm.Vex.Llvm.Words.{IsDefined}
use vexllvm.Vex.Llvm.Documented.{IsDocumented}
use vexllvm.Vex.Vector.Saturate
use vexllvm.Vex.Vector.Saturate.Clamped.{
  clamped, biased, signed_add8, signed_add16, signed_add32, signed_add64, signed_sub8, signed_sub16,
  signed_sub32, signed_sub64,
}
use vexllvm.Vex.Vector.Saturate.Limits.{operand, operand-bound, signed_lane}

-- The lanes of an opcode's vectors, and their bits.
abbrev pub signed_lanes : Saturate.SignedLanes → ℕ
signed_lanes Saturate.q64sx1 = 1
signed_lanes Saturate.q64sx2 = 2
signed_lanes Saturate.q32sx2 = 2
signed_lanes Saturate.q32sx4 = 4
signed_lanes Saturate.q16sx2 = 2
signed_lanes Saturate.q16sx4 = 4
signed_lanes Saturate.q16sx8 = 8
signed_lanes Saturate.q8sx4 = 4
signed_lanes Saturate.q8sx8 = 8
signed_lanes Saturate.q8sx16 = 16

abbrev pub signed_width : Saturate.SignedLanes → ℕ
signed_width Saturate.q64sx1 = 64
signed_width Saturate.q64sx2 = 64
signed_width Saturate.q32sx2 = 32
signed_width Saturate.q32sx4 = 32
signed_width Saturate.q16sx2 = 16
signed_width Saturate.q16sx4 = 16
signed_width Saturate.q16sx8 = 16
signed_width Saturate.q8sx4 = 8
signed_width Saturate.q8sx8 = 8
signed_width Saturate.q8sx16 = 8

module _ {V : Type 0} {b : Builder V} (laws : IsDocumented b) where
  signed_sum8 :
      (n : ℕ) (v1 v2 : V) (i : ℕ)
      → n ≤ 2 ^ 32
      → i < n
      → (biased 8 (b.lane (Saturate.opsats b add (vec n 8) (vec n 9) 8 0x7F 0x80 v1 v2) i)
          ≡ clamped 8 (biased 8 (operand b v1 n 8 i) + biased 8 (operand b v2 n 8 i) - 2 ^ 8 / 2))
        × (biased 8 (b.lane (Saturate.opsats b sub (vec n 8) (vec n 9) 8 0x7F 0x80 v1 v2) i)
            ≡ clamped 8 (biased 8 (operand b v1 n 8 i) + 2 ^ 8 / 2 - biased 8 (operand b v2 n 8 i)))
  unfolding IsDefined
  signed_sum8 n v1 v2 i large l =
      let x = operand-bound laws v1 n 8 i in
      let y = operand-bound laws v2 n 8 i in
      let s = signed_lane laws add n 8 0x7F 0x80 v1 v2 (λ x y. tt) large i l in
      let d = signed_lane laws sub n 8 0x7F 0x80 v1 v2 (λ x y. tt) large i l in
      (ap (biased 8) s ∙ signed_add8 _ _ x y, ap (biased 8) d ∙ signed_sub8 _ _ x y)

  signed_sum16 :
      (n : ℕ) (v1 v2 : V) (i : ℕ)
      → n ≤ 2 ^ 32
      → i < n
      → (biased 16 (b.lane (Saturate.opsats b add (vec n 16) (vec n 17) 16 0x7FFF 0x8000 v1 v2) i)
          ≡ clamped 16
              (biased 16 (operand b v1 n 16 i) + biased 16 (operand b v2 n 16 i) - 2 ^ 16 / 2))
        × (biased 16 (b.lane (Saturate.opsats b sub (vec n 16) (vec n 17) 16 0x7FFF 0x8000 v1 v2) i)
            ≡ clamped 16
                (biased 16 (operand b v1 n 16 i) + 2 ^ 16 / 2 - biased 16 (operand b v2 n 16 i)))
  unfolding IsDefined
  signed_sum16 n v1 v2 i large l =
      let x = operand-bound laws v1 n 16 i in
      let y = operand-bound laws v2 n 16 i in
      let s = signed_lane laws add n 16 0x7FFF 0x8000 v1 v2 (λ x y. tt) large i l in
      let d = signed_lane laws sub n 16 0x7FFF 0x8000 v1 v2 (λ x y. tt) large i l in
      (ap (biased 16) s ∙ signed_add16 _ _ x y, ap (biased 16) d ∙ signed_sub16 _ _ x y)

  signed_sum32 :
      (n : ℕ) (v1 v2 : V) (i : ℕ)
      → n ≤ 2 ^ 32
      → i < n
      → (biased 32
            (b.lane (Saturate.opsats b add (vec n 32) (vec n 33) 32 0x7FFFFFFF 0x80000000 v1 v2) i)
          ≡ clamped 32
              (biased 32 (operand b v1 n 32 i) + biased 32 (operand b v2 n 32 i) - 2 ^ 32 / 2))
        × (biased 32 (
              b.lane (Saturate.opsats b sub (vec n 32) (vec n 33) 32 0x7FFFFFFF 0x80000000 v1 v2) i)
            ≡ clamped 32
                (biased 32 (operand b v1 n 32 i) + 2 ^ 32 / 2 - biased 32 (operand b v2 n 32 i)))
  unfolding IsDefined
  signed_sum32 n v1 v2 i large l =
      let x = operand-bound laws v1 n 32 i in
      let y = operand-bound laws v2 n 32 i in
      let s = signed_lane laws add n 32 0x7FFFFFFF 0x80000000 v1 v2 (λ x y. tt) large i l in
      let d = signed_lane laws sub n 32 0x7FFFFFFF 0x80000000 v1 v2 (λ x y. tt) large i l in
      (ap (biased 32) s ∙ signed_add32 _ _ x y, ap (biased 32) d ∙ signed_sub32 _ _ x y)

  signed_sum64 :
      (n : ℕ) (v1 v2 : V) (i : ℕ)
      → n ≤ 2 ^ 32
      → i < n
      → (biased 64 (
            b.lane
              (Saturate.opsats b add
                (vec n 64)
                (vec n 65)
                64
                0x7FFFFFFFFFFFFFFF
                0x8000000000000000
                v1
                v2)
              i)
          ≡ clamped 64
              (biased 64 (operand b v1 n 64 i) + biased 64 (operand b v2 n 64 i) - 2 ^ 64 / 2))
        × (biased 64 (
              b.lane
                (Saturate.opsats b sub
                  (vec n 64)
                  (vec n 65)
                  64
                  0x7FFFFFFFFFFFFFFF
                  0x8000000000000000
                  v1
                  v2)
                i)
            ≡ clamped 64
                (biased 64 (operand b v1 n 64 i) + 2 ^ 64 / 2 - biased 64 (operand b v2 n 64 i)))
  unfolding IsDefined
  signed_sum64 n v1 v2 i large l =
      let x = operand-bound laws v1 n 64 i in
      let y = operand-bound laws v2 n 64 i in
      let s =
        signed_lane laws add n 64 0x7FFFFFFFFFFFFFFF 0x8000000000000000 v1 v2 (λ x y. tt) large i
          l in
      let d =
        signed_lane laws sub n 64 0x7FFFFFFFFFFFFFFF 0x8000000000000000 v1 v2 (λ x y. tt) large i
          l in
      (ap (biased 64) s ∙ signed_add64 _ _ x y, ap (biased 64) d ∙ signed_sub64 _ _ x y)

  -- In every lane of a signed saturating addition or subtraction, the result, read as a number
  -- moved up by half the range, is the exact sum or difference of the operands' lanes, raised
  -- to the least and lowered to the greatest number of the width where it lies outside.
  pub emit_sat_signed_lem :
      (op : Saturate.SignedLanes) (v1 v2 : V) (i : ℕ)
      → i < signed_lanes op
      → (biased (signed_width op) (b.lane (Saturate.emit_sat_signed b add op v1 v2) i)
          ≡ clamped (signed_width op) (
              biased (signed_width op) (operand b v1 (signed_lanes op) (signed_width op) i)
              + biased (signed_width op) (operand b v2 (signed_lanes op) (signed_width op) i)
              - 2 ^ signed_width op / 2))
        × (biased (signed_width op) (b.lane (Saturate.emit_sat_signed b sub op v1 v2) i)
            ≡ clamped (signed_width op) (
                biased (signed_width op) (operand b v1 (signed_lanes op) (signed_width op) i)
                + 2 ^ signed_width op / 2
                - biased (signed_width op) (operand b v2 (signed_lanes op) (signed_width op) i)))
  unfolding Saturate.emit_sat_signed
  emit_sat_signed_lem Saturate.q64sx1 v1 v2 i l = signed_sum64 1 v1 v2 i (omega arith) l
  emit_sat_signed_lem Saturate.q64sx2 v1 v2 i l = signed_sum64 2 v1 v2 i (omega arith) l
  emit_sat_signed_lem Saturate.q32sx2 v1 v2 i l = signed_sum32 2 v1 v2 i (omega arith) l
  emit_sat_signed_lem Saturate.q32sx4 v1 v2 i l = signed_sum32 4 v1 v2 i (omega arith) l
  emit_sat_signed_lem Saturate.q16sx2 v1 v2 i l = signed_sum16 2 v1 v2 i (omega arith) l
  emit_sat_signed_lem Saturate.q16sx4 v1 v2 i l = signed_sum16 4 v1 v2 i (omega arith) l
  emit_sat_signed_lem Saturate.q16sx8 v1 v2 i l = signed_sum16 8 v1 v2 i (omega arith) l
  emit_sat_signed_lem Saturate.q8sx4 v1 v2 i l = signed_sum8 4 v1 v2 i (omega arith) l
  emit_sat_signed_lem Saturate.q8sx8 v1 v2 i l = signed_sum8 8 v1 v2 i (omega arith) l
  emit_sat_signed_lem Saturate.q8sx16 v1 v2 i l = signed_sum8 16 v1 v2 i (omega arith) l
