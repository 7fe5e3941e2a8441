-- ===== src/Vex/Scalar/Convert/Halves.antt =====
-- src/vexop.cc: joining two words and taking the halves of the result.
use vexllvm.Base.{ℕ, ◌+◌, ◌*◌, ◌/◌, ◌%◌, ◌^◌, ◌<◌, ◌≤◌, ◌≡◌, arith, ltb, false}
use vexllvm.Vex.Llvm.{int, Builder, trunc, shl, lshr, or}
use vexllvm.Vex.Llvm.Words.{IsDefined, operation}
use vexllvm.Vex.Llvm.Documented.{IsDocumented}
use vexllvm.Vex.Llvm.Fields.{word-fields}
use vexllvm.Vex.Llvm.Scalars.{
  IsWord, IsWord-create, IsWord-trunc, IsWord-zext, IsWord-change, IsWord-constant, IsWord-bound,
  IsWord-bit_cast,
}
use vexllvm.Vex.Scalar.Convert.{
  HighHalf, iop_16hito8, iop_64hito32, iop_32hito16, Joined, iop_16hlto32, iop_8hlto16,
  iop_32hlto64, Conversion, iop_16to8, iop_64to32, iop_32to16, resize, x_to_y, emit_conversion,
  xhi_to_y, emit_high, x_hl_to_y, emit_joined,
}
use native.Mathlib.Nat.{mod-eq_of_lt}

abbrev pub half_width : HighHalf → ℕ
half_width iop_16hito8 = 8
half_width iop_64hito32 = 32
half_width iop_32hito16 = 16

-- The opcode that joins the halves, and the one that takes the low half.
abbrev pub joined_of : HighHalf → Joined
joined_of iop_16hito8 = iop_8hlto16
joined_of iop_64hito32 = iop_32hlto64
joined_of iop_32hito16 = iop_16hlto32

abbrev pub low_of : HighHalf → Conversion
low_of iop_16hito8 = iop_16to8
low_of iop_64hito32 = iop_64to32
low_of iop_32hito16 = iop_32to16

not_below : (n : ℕ) → ltb n n ≡ false
not_below n = ground arith

module _ {V : Type 0} {b : Builder V} (laws : IsDocumented b) where
  -- The arithmetic of a join of fields of x bits is that of numerals.
  x_hl_to_y-IsWord :
      (x y : ℕ) {v1 v2 : V} {hi lo : ℕ}
      → 0 < x
      → x < 2 ^ y
      → x < y
      → lo + hi * 2 ^ x < 2 ^ y
      → hi < 2 ^ y
      → IsWord b v1 x hi
      → IsWord b v2 x lo
      → IsWord b (x_hl_to_y b x y v1 v2) y (lo + hi * 2 ^ x)
  unfolding x_hl_to_y IsDefined operation
  x_hl_to_y-IsWord x y {v1} {v2} {hi} {lo} positive amount wider fits room h l =
      let low_bound = IsWord-bound laws l in
      let v_hi = IsWord-zext laws y h room in
      let v_lo = IsWord-zext laws y l (omega arith) in
      let by = IsWord-change laws (IsWord-constant laws y x) (mod-eq_of_lt amount) in
      let shifted = IsWord-create laws shl v_hi by wider in
      let shifted = IsWord-change laws shifted (mod-eq_of_lt (omega arith)) in
      let joined = IsWord-create laws or v_lo shifted tt in
      IsWord-change laws joined (word-fields y x lo hi low_bound fits)

  xhi_to_y-IsWord :
      (y hi lo : ℕ) {v : V}
      → y < 2 ^ (y * 2)
      → y < y * 2
      → (lo + hi * 2 ^ y) / 2 ^ y ≡ hi
      → hi < 2 ^ y
      → 2 ^ y ≤ 2 ^ (y * 2)
      → IsWord b v (y * 2) (lo + hi * 2 ^ y)
      → IsWord b (xhi_to_y b y (int (y * 2)) (int y) v) y hi
  unfolding xhi_to_y IsDefined operation
  xhi_to_y-IsWord y hi lo amount wider quotient fits grows h =
      let by = IsWord-change laws (IsWord-constant laws (y * 2) y) (mod-eq_of_lt amount) in
      let shifted = IsWord-create laws lshr (IsWord-bit_cast laws h) by wider in
      let top : ((lo + hi * 2 ^ y) / 2 ^ y) % 2 ^ (y * 2) ≡ hi =
        rw quotient (mod-eq_of_lt (omega arith)) in
      IsWord-change laws (IsWord-trunc laws y (IsWord-change laws shifted top)) (mod-eq_of_lt fits)

  x_to_y_trunc :
      (w z : ℕ) {v : V} {x : ℕ}
      → IsWord b v w x
      → IsWord b (x_to_y b (b.create_cast trunc) (int w) (int z) v) z (x % 2 ^ z)
  unfolding x_to_y resize
  x_to_y_trunc w z h =
      rw (h.has_type, not_below (1 * w)) (IsWord-trunc laws z (IsWord-bit_cast laws h))

  -- For two words of the half's width, the high half of their join is the first word and the
  -- low half is the second: HIto after HLto, and the truncation after HLto.
  pub emit_high-joined :
      (op : HighHalf) (v1 v2 : V) (hi lo : ℕ)
      → IsWord b v1 (half_width op) hi
      → IsWord b v2 (half_width op) lo
      → IsWord b (emit_high b op (emit_joined b (joined_of op) v1 v2)) (half_width op) hi
        × IsWord b
            (emit_conversion b (low_of op) (emit_joined b (joined_of op) v1 v2))
            (half_width op)
            lo
  unfolding emit_high emit_joined emit_conversion
  emit_high-joined iop_16hito8 v1 v2 hi lo h l =
      let hb = IsWord-bound laws h in
      let lb = IsWord-bound laws l in
      let joined =
        x_hl_to_y-IsWord 8 16 (omega arith) (omega arith) (omega arith) (omega arith) (omega arith)
          h l in
      (
        xhi_to_y-IsWord 8 hi lo (omega arith) (omega arith) (omega arith) hb (omega arith) joined,
        IsWord-change laws (x_to_y_trunc 16 8 joined) (omega arith),
      )
  emit_high-joined iop_64hito32 v1 v2 hi lo h l =
      let hb = IsWord-bound laws h in
      let lb = IsWord-bound laws l in
      let joined =
        x_hl_to_y-IsWord 32 64 (omega arith) (omega arith) (omega arith) (omega arith) (omega arith)
          h l in
      (
        xhi_to_y-IsWord 32 hi lo (omega arith) (omega arith) (omega arith) hb (omega arith) joined,
        IsWord-change laws (x_to_y_trunc 64 32 joined) (omega arith),
      )
  emit_high-joined iop_32hito16 v1 v2 hi lo h l =
      let hb = IsWord-bound laws h in
      let lb = IsWord-bound laws l in
      let joined =
        x_hl_to_y-IsWord 16 32 (omega arith) (omega arith) (omega arith) (omega arith) (omega arith)
          h l in
      (
        xhi_to_y-IsWord 16 hi lo (omega arith) (omega arith) (omega arith) hb (omega arith) joined,
        IsWord-change laws (x_to_y_trunc 32 16 joined) (omega arith),
      )
