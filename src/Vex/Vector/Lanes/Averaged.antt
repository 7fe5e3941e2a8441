-- ===== src/Vex/Vector/Lanes/Averaged.antt =====
-- src/vexop.cc: the lanes of OPAVG_EMIT.
use vexllvm.Base.{ℕ, ◌+◌, ◌/◌, ◌%◌, ◌^◌, ◌<◌, ◌≤◌, ◌≡◌, arith, ap, ◌∙◌, Bool, true, false}
use vexllvm.Vex.Llvm.{vec, Builder, Cast, zext, sext, add, lshr, size_in_bits}
use vexllvm.Vex.Llvm.Words.{word, cast, extend, operation, IsDefined}
use vexllvm.Vex.Llvm.Documented.{IsDocumented}
use vexllvm.Vex.Llvm.Scalars.{IsWord, IsWord-constant, IsWord-create, IsWord-trunc}
use vexllvm.Vex.Vector.Lanes
use vexllvm.Vex.Vector.Lanes.Loop.{
  IsVector-cast, IsVector-create, IsVector-bit_cast, IsVector-element, IsVector-fill,
}
use vexllvm.Vex.Vector.Saturate.Clamped.{biased}
use vexllvm.Vex.Vector.Saturate.Limits.{operand, operand-bound}
use native.Mathlib.Nat.{one-mul}

-- A word as a number in the order that its type has: a signed word moves up by half the range.
abbrev pub ordered : Bool → ℕ → ℕ → ℕ
ordered true w x = biased w x
ordered false w x = x

abbrev pub average_signed : Lanes.Average → Bool
average_signed Lanes.iop_avg8sx16 = true
average_signed Lanes.iop_avg16sx8 = true
average_signed Lanes.iop_avg32sx4 = true
average_signed _ = false

abbrev pub average_lanes : Lanes.Average → ℕ
average_lanes Lanes.iop_avg8ux8 = 8
average_lanes Lanes.iop_avg8ux16 = 16
average_lanes Lanes.iop_avg8sx16 = 16
average_lanes Lanes.iop_avg16ux4 = 4
average_lanes Lanes.iop_avg16ux8 = 8
average_lanes Lanes.iop_avg16sx8 = 8
average_lanes Lanes.iop_avg32ux4 = 4
average_lanes Lanes.iop_avg32sx4 = 4

abbrev pub average_width : Lanes.Average → ℕ
average_width Lanes.iop_avg8ux8 = 8
average_width Lanes.iop_avg8ux16 = 8
average_width Lanes.iop_avg8sx16 = 8
average_width Lanes.iop_avg16ux4 = 16
average_width Lanes.iop_avg16ux8 = 16
average_width Lanes.iop_avg16sx8 = 16
average_width Lanes.iop_avg32ux4 = 32
average_width Lanes.iop_avg32sx4 = 32

-- One round of OPAVG_EMIT on lanes of w bits, in u bits.
abbrev round : Cast → ℕ → ℕ → ℕ → ℕ → ℕ
round c w u x y =
    let e = word add u (cast c w u x) (cast c w u y) in
    word lshr u (word add u e (1 % 2 ^ u)) (1 % 2 ^ u) % 2 ^ w

-- The average of two lanes, rounded up.
abbrev pub IsAverage : Bool → ℕ → ℕ → ℕ → ℕ → Type 0
IsAverage s w x y r = ordered s w r ≡ (ordered s w x + ordered s w y + 1) / 2

unsigned8 : (x y : ℕ) → x < 2 ^ 8 → y < 2 ^ 8 → IsAverage false 8 x y (round zext 8 16 x y)
unfolding operation extend
unsigned8 x y h k = ground arith

signed8 : (x y : ℕ) → x < 2 ^ 8 → y < 2 ^ 8 → IsAverage true 8 x y (round sext 8 16 x y)
unfolding operation extend
signed8 x y h k = ground arith

unsigned16 : (x y : ℕ) → x < 2 ^ 16 → y < 2 ^ 16 → IsAverage false 16 x y (round zext 16 32 x y)
unfolding operation extend
unsigned16 x y h k = ground arith

signed16 : (x y : ℕ) → x < 2 ^ 16 → y < 2 ^ 16 → IsAverage true 16 x y (round sext 16 32 x y)
unfolding operation extend
signed16 x y h k = ground arith

unsigned32 : (x y : ℕ) → x < 2 ^ 32 → y < 2 ^ 32 → IsAverage false 32 x y (round zext 32 64 x y)
unfolding operation extend
unsigned32 x y h k = ground arith

signed32 : (x y : ℕ) → x < 2 ^ 32 → y < 2 ^ 32 → IsAverage true 32 x y (round sext 32 64 x y)
unfolding operation extend
signed32 x y h k = ground arith

module _ {V : Type 0} {b : Builder V} (laws : IsDocumented b) where
  IsWord-one :
      {v : V} {u x : ℕ}
      → IsWord b v u x
      → IsWord b (b.constant (size_in_bits (b.type_of v)) 1) u (1 % 2 ^ u)
  IsWord-one {v} {u} h =
      let e : size_in_bits (b.type_of v) ≡ u = ap size_in_bits h.has_type ∙ one-mul u in
      rw e (IsWord-constant laws u 1)

  average_lane :
      (c : Cast) (n w u : ℕ) (v1 v2 : V)
      → n ≤ 2 ^ 32
      → 1 % 2 ^ u < u
      → (i : ℕ) → i < n
      → b.lane (Lanes.opavg b (vec n w) c (vec n u) v1 v2) i
        ≡ round c w u (operand b v1 n w i) (operand b v2 n w i)
  unfolding Lanes.opavg IsDefined
  average_lane c n w u v1 v2 large shifts =
      let x = IsVector-cast laws c u (IsVector-bit_cast laws v1 n w) in
      let y = IsVector-cast laws c u (IsVector-bit_cast laws v2 n w) in
      let partial = IsVector-create laws add (λ _ _. tt) x y in
      let result = IsVector-fill laws n w _ _ large λ j l.
        let e = IsVector-element laws j large partial l in
        let more = IsWord-create laws add e (IsWord-one e) tt in
        IsWord-trunc laws w (IsWord-create laws lshr more (IsWord-one more) shifts) in
      result.holds

  averages :
      (s : Bool) (c : Cast) (n w u : ℕ) (v1 v2 : V)
      → ((x y : ℕ) → x < 2 ^ w → y < 2 ^ w → IsAverage s w x y (round c w u x y))
      → n ≤ 2 ^ 32
      → 1 % 2 ^ u < u
      → (i : ℕ) → i < n
      → IsAverage s w
          (operand b v1 n w i)
          (operand b v2 n w i)
          (b.lane (Lanes.opavg b (vec n w) c (vec n u) v1 v2) i)
  averages s c n w u v1 v2 rounds large shifts i l =
      ap (ordered s w) (average_lane c n w u v1 v2 large shifts i l)
      ∙ rounds _ _ (operand-bound laws v1 n w i) (operand-bound laws v2 n w i)

  -- In every lane of an average, signed or unsigned as the opcode says, the result is half of
  -- the operands' exact sum and one more, rounded down; the sum does not wrap around.
  pub emit_average_lem :
      (op : Lanes.Average) (v1 v2 : V) (i : ℕ)
      → i < average_lanes op
      → IsAverage
          (average_signed op)
          (average_width op)
          (operand b v1 (average_lanes op) (average_width op) i)
          (operand b v2 (average_lanes op) (average_width op) i)
          (b.lane (Lanes.emit_average b op v1 v2) i)
  unfolding Lanes.emit_average
  emit_average_lem Lanes.iop_avg8ux8 v1 v2 =
      averages false zext 8 8 16 v1 v2 unsigned8 (omega arith) (omega arith)
  emit_average_lem Lanes.iop_avg8ux16 v1 v2 =
      averages false zext 16 8 16 v1 v2 unsigned8 (omega arith) (omega arith)
  emit_average_lem Lanes.iop_avg8sx16 v1 v2 =
      averages true sext 16 8 16 v1 v2 signed8 (omega arith) (omega arith)
  emit_average_lem Lanes.iop_avg16ux4 v1 v2 =
      averages false zext 4 16 32 v1 v2 unsigned16 (omega arith) (omega arith)
  emit_average_lem Lanes.iop_avg16ux8 v1 v2 =
      averages false zext 8 16 32 v1 v2 unsigned16 (omega arith) (omega arith)
  emit_average_lem Lanes.iop_avg16sx8 v1 v2 =
      averages true sext 8 16 32 v1 v2 signed16 (omega arith) (omega arith)
  emit_average_lem Lanes.iop_avg32ux4 v1 v2 =
      averages false zext 4 32 64 v1 v2 unsigned32 (omega arith) (omega arith)
  emit_average_lem Lanes.iop_avg32sx4 v1 v2 =
      averages true sext 4 32 64 v1 v2 signed32 (omega arith) (omega arith)
