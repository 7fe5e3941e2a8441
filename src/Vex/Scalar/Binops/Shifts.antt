-- ===== src/Vex/Scalar/Binops/Shifts.antt =====
-- src/vexop.cc: what the instructions of SHIFT_EMIT compute.
use vexllvm.Base.{ℕ, ◌%◌, ◌^◌, ◌<◌, ◌≡◌, refl, arith, ap}
use vexllvm.Vex.Llvm.{int, Builder, Binary, shl, lshr, ashr, zext, trunc}
use vexllvm.Vex.Llvm.Words.{word, IsDefined}
use vexllvm.Vex.Llvm.Documented.{IsDocumented}
use vexllvm.Vex.Llvm.Scalars.{IsWord, IsWord-create, IsWord-trunc, IsWord-zext, IsWord-change}
use vexllvm.Vex.Scalar.Binops
use native.Mathlib.Nat.{mod-lt}

-- VEX's shifts: by the amount modulo the operand's width.
abbrev pub shift_instruction : Binops.Shift → Binary
shift_instruction Binops.iop_shl8 = shl
shift_instruction Binops.iop_shl16 = shl
shift_instruction Binops.iop_shl32 = shl
shift_instruction Binops.iop_shl64 = shl
shift_instruction Binops.iop_shr8 = lshr
shift_instruction Binops.iop_shr16 = lshr
shift_instruction Binops.iop_shr32 = lshr
shift_instruction Binops.iop_shr64 = lshr
shift_instruction Binops.iop_sar8 = ashr
shift_instruction Binops.iop_sar16 = ashr
shift_instruction Binops.iop_sar32 = ashr
shift_instruction Binops.iop_sar64 = ashr

abbrev pub shift_width : Binops.Shift → ℕ
shift_width Binops.iop_shl8 = 8
shift_width Binops.iop_shl16 = 16
shift_width Binops.iop_shl32 = 32
shift_width Binops.iop_shl64 = 64
shift_width Binops.iop_shr8 = 8
shift_width Binops.iop_shr16 = 16
shift_width Binops.iop_shr32 = 32
shift_width Binops.iop_shr64 = 64
shift_width Binops.iop_sar8 = 8
shift_width Binops.iop_sar16 = 16
shift_width Binops.iop_sar32 = 32
shift_width Binops.iop_sar64 = 64

module _ {V : Type 0} (b : Builder V) (laws : IsDocumented b) where
  shift-IsWord :
      (y : Binary) (k w : ℕ) {v1 v2 : V} {x s : ℕ}
      → ((r : ℕ) → r < w → IsDefined y w x r)
      → 2 ^ k ≡ w
      → 0 < w
      → w < 2 ^ w
      → IsWord b v1 w x
      → IsWord b v2 8 s
      → IsWord b (Binops.shift b y k v1 v2) w (word y w x (s % w))
  unfolding Binops.shift
  shift-IsWord y k w {v1} {v2} {x} {s} defined e positive large h l =
      let small : s % w < w = mod-lt s positive in
      let low = IsWord-change laws (IsWord-trunc laws k l) (ap (λ m. s % m) e) in
      let amount : IsWord b (b.create_cast zext (b.create_cast trunc v2 (int k)) (b.type_of v1)) w
          (s % w) =
        rw h.has_type (IsWord-zext laws w low (omega arith)) in
      IsWord-create laws y h amount (defined (s % w) small)

  -- Every shift opcode shifts its operand, of the opcode's width, by the amount modulo that
  -- width: the result has the width of the operand, and no amount makes the shift undefined.
  pub emit_shift_lem :
      (op : Binops.Shift) (v1 v2 : V) (x s : ℕ)
      → IsWord b v1 (shift_width op) x
      → IsWord b v2 8 s
      → IsWord b
          (Binops.emit_shift b op v1 v2)
          (shift_width op)
          (word (shift_instruction op) (shift_width op) x (s % shift_width op))
  unfolding Binops.emit_shift IsDefined
  emit_shift_lem Binops.iop_shl8 v1 v2 x s =
      shift-IsWord shl 3 8 (λ r h. h) refl (omega arith) (omega arith)
  emit_shift_lem Binops.iop_shl16 v1 v2 x s =
      shift-IsWord shl 4 16 (λ r h. h) refl (omega arith) (omega arith)
  emit_shift_lem Binops.iop_shl32 v1 v2 x s =
      shift-IsWord shl 5 32 (λ r h. h) refl (omega arith) (omega arith)
  emit_shift_lem Binops.iop_shl64 v1 v2 x s =
      shift-IsWord shl 6 64 (λ r h. h) refl (omega arith) (omega arith)
  emit_shift_lem Binops.iop_shr8 v1 v2 x s =
      shift-IsWord lshr 3 8 (λ r h. h) refl (omega arith) (omega arith)
  emit_shift_lem Binops.iop_shr16 v1 v2 x s =
      shift-IsWord lshr 4 16 (λ r h. h) refl (omega arith) (omega arith)
  emit_shift_lem Binops.iop_shr32 v1 v2 x s =
      shift-IsWord lshr 5 32 (λ r h. h) refl (omega arith) (omega arith)
  emit_shift_lem Binops.iop_shr64 v1 v2 x s =
      shift-IsWord lshr 6 64 (λ r h. h) refl (omega arith) (omega arith)
  emit_shift_lem Binops.iop_sar8 v1 v2 x s =
      shift-IsWord ashr 3 8 (λ r h. h) refl (omega arith) (omega arith)
  emit_shift_lem Binops.iop_sar16 v1 v2 x s =
      shift-IsWord ashr 4 16 (λ r h. h) refl (omega arith) (omega arith)
  emit_shift_lem Binops.iop_sar32 v1 v2 x s =
      shift-IsWord ashr 5 32 (λ r h. h) refl (omega arith) (omega arith)
  emit_shift_lem Binops.iop_sar64 v1 v2 x s =
      shift-IsWord ashr 6 64 (λ r h. h) refl (omega arith) (omega arith)
