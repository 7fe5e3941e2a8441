-- ===== src/Vex/Vector/Lanes/Extremes.antt =====
-- src/vexop_macros.h, src/vexop.cc: the lanes of BINCMP_EMIT.
use vexllvm.Base.{ℕ, ◌^◌, ◌<◌, ◌≤◌, ◌≡◌, arith, ap, ◌∙◌, Bool, true, false, ltb, if◌then◌else◌}
use vexllvm.Vex.Llvm.{vec, Builder, Predicate, icmp_ugt, icmp_sgt, icmp_ult, icmp_slt}
use vexllvm.Vex.Llvm.Words.{test}
use vexllvm.Vex.Llvm.Documented.{IsDocumented}
use vexllvm.Vex.Llvm.Scalars.{IsWord-select}
use vexllvm.Vex.Vector.Lanes
use vexllvm.Vex.Vector.Lanes.Averaged.{ordered}
use vexllvm.Vex.Vector.Lanes.Loop.{IsVector-bit_cast, IsVector-element, IsVector-fill}
use vexllvm.Vex.Vector.Saturate.Limits.{operand, operand-bound}

-- Whether the opcode takes the larger lane, whether it reads lanes as signed, and its vectors.
abbrev pub takes_larger : Lanes.MinMax → Bool
takes_larger Lanes.iop_max8ux8 = true
takes_larger Lanes.iop_max8ux16 = true
takes_larger Lanes.iop_max16sx4 = true
takes_larger Lanes.iop_max16sx8 = true
takes_larger _ = false

abbrev pub extreme_signed : Lanes.MinMax → Bool
extreme_signed Lanes.iop_max16sx4 = true
extreme_signed Lanes.iop_max16sx8 = true
extreme_signed Lanes.iop_min16sx4 = true
extreme_signed Lanes.iop_min16sx8 = true
extreme_signed _ = false

abbrev pub extreme_lanes : Lanes.MinMax → ℕ
extreme_lanes Lanes.iop_max8ux8 = 8
extreme_lanes Lanes.iop_max8ux16 = 16
extreme_lanes Lanes.iop_max16sx4 = 4
extreme_lanes Lanes.iop_max16sx8 = 8
extreme_lanes Lanes.iop_min8ux8 = 8
extreme_lanes Lanes.iop_min8ux16 = 16
extreme_lanes Lanes.iop_min16sx4 = 4
extreme_lanes Lanes.iop_min16sx8 = 8

abbrev pub extreme_width : Lanes.MinMax → ℕ
extreme_width Lanes.iop_max8ux8 = 8
extreme_width Lanes.iop_max8ux16 = 8
extreme_width Lanes.iop_min8ux8 = 8
extreme_width Lanes.iop_min8ux16 = 8
extreme_width _ = 16

-- The larger or the smaller of two numbers.
abbrev pub extreme : Bool → ℕ → ℕ → ℕ
extreme true x y = if ltb x y then y else x
extreme false x y = if ltb x y then x else y

module _ {V : Type 0} {b : Builder V} (laws : IsDocumented b) where
  extreme_lane :
      (p : Predicate) (n w : ℕ) (v1 v2 : V)
      → n ≤ 2 ^ 32
      → (i : ℕ) → i < n
      → b.lane (Lanes.bincmp b (vec n w) p v1 v2) i ≡ (
          if test p w (operand b v1 n w i) (operand b v2 n w i)
          then operand b v1 n w i
          else operand b v2 n w i)
  unfolding Lanes.bincmp
  extreme_lane p n w v1 v2 large =
      let x = IsVector-bit_cast laws v1 n w in
      let y = IsVector-bit_cast laws v2 n w in
      let result = IsVector-fill laws n w _ _ large λ j l.
        let d = IsVector-element laws j large x l in
        let e = IsVector-element laws j large y l in IsWord-select laws p d e d e in
      result.holds

  extremes :
      (p : Predicate) (m s : Bool) (n w : ℕ) (v1 v2 : V)
      → ((x y : ℕ)
          → x < 2 ^ w
          → y < 2 ^ w
          → ordered s w (if test p w x y then x else y) ≡ extreme m (ordered s w x) (ordered s w y))
      → n ≤ 2 ^ 32
      → (i : ℕ) → i < n
      → ordered s w (b.lane (Lanes.bincmp b (vec n w) p v1 v2) i)
        ≡ extreme m (ordered s w (operand b v1 n w i)) (ordered s w (operand b v2 n w i))
  extremes p m s n w v1 v2 rounds large i l =
      ap (ordered s w) (extreme_lane p n w v1 v2 large i l)
      ∙ rounds _ _ (operand-bound laws v1 n w i) (operand-bound laws v2 n w i)

  -- In every lane of a minimum or maximum, the result is the smaller or the greater of the
  -- operands' lanes, as the opcode says, all three read as numbers without sign, or, for the
  -- opcodes with sign, as signed numbers moved up by half the range.
  pub emit_min_max_lem :
      (op : Lanes.MinMax) (v1 v2 : V) (i : ℕ)
      → i < extreme_lanes op
      → ordered (extreme_signed op) (extreme_width op) (b.lane (Lanes.emit_min_max b op v1 v2) i)
        ≡ extreme
            (takes_larger op)
            (ordered
              (extreme_signed op)
              (extreme_width op)
              (operand b v1 (extreme_lanes op) (extreme_width op) i))
            (ordered
              (extreme_signed op)
              (extreme_width op)
              (operand b v2 (extreme_lanes op) (extreme_width op) i))
  unfolding Lanes.emit_min_max test
  emit_min_max_lem Lanes.iop_max8ux8 v1 v2 =
      extremes icmp_ugt true false 8 8 v1 v2 (λ x y h k. ground arith) (omega arith)
  emit_min_max_lem Lanes.iop_max8ux16 v1 v2 =
      extremes icmp_ugt true false 16 8 v1 v2 (λ x y h k. ground arith) (omega arith)
  emit_min_max_lem Lanes.iop_max16sx4 v1 v2 =
      extremes icmp_sgt true true 4 16 v1 v2 (λ x y h k. ground arith) (omega arith)
  emit_min_max_lem Lanes.iop_max16sx8 v1 v2 =
      extremes icmp_sgt true true 8 16 v1 v2 (λ x y h k. ground arith) (omega arith)
  emit_min_max_lem Lanes.iop_min8ux8 v1 v2 =
      extremes icmp_ult false false 8 8 v1 v2 (λ x y h k. ground arith) (omega arith)
  emit_min_max_lem Lanes.iop_min8ux16 v1 v2 =
      extremes icmp_ult false false 16 8 v1 v2 (λ x y h k. ground arith) (omega arith)
  emit_min_max_lem Lanes.iop_min16sx4 v1 v2 =
      extremes icmp_slt false true 4 16 v1 v2 (λ x y h k. ground arith) (omega arith)
  emit_min_max_lem Lanes.iop_min16sx8 v1 v2 =
      extremes icmp_slt false true 8 16 v1 v2 (λ x y h k. ground arith) (omega arith)
