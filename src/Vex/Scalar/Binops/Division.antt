-- ===== src/Vex/Scalar/Binops/Division.antt =====
-- src/vexop.cc: DIVMOD_EMIT puts the quotient below the remainder.
use vexllvm.Base.{ℕ, ◌+◌, ◌*◌, ◌/◌, ◌%◌, ◌^◌, ◌<◌, ◌≡◌, refl, arith}
use vexllvm.Vex.Llvm.{Builder, Binary, Cast, zext, sext, shl, or, udiv, urem, sdiv, srem}
use vexllvm.Vex.Llvm.Words.{word, cast, IsDefined, operation}
use vexllvm.Vex.Llvm.Documented.{IsDocumented}
use vexllvm.Vex.Llvm.Fields.{word-fields}
use vexllvm.Vex.Llvm.Scalars.{
  IsWord, IsWord-create, IsWord-trunc, IsWord-zext, IsWord-cast, IsWord-change, IsWord-constant,
  IsWord-bit_cast,
}
use vexllvm.Vex.Scalar.Binops.{
  DivMod, iop_divmodu128to64, iop_divmods128to64, iop_divmodu64to32, iop_divmods64to32, divmod,
  emit_divmod,
}
use native.Mathlib.Nat.{mod-eq_of_lt}

-- The width of the dividend, and that of the divisor and of the two results.
abbrev pub whole : DivMod → ℕ
whole iop_divmodu128to64 = 128
whole iop_divmods128to64 = 128
whole iop_divmodu64to32 = 64
whole iop_divmods64to32 = 64

abbrev pub half : DivMod → ℕ
half iop_divmodu128to64 = 64
half iop_divmods128to64 = 64
half iop_divmodu64to32 = 32
half iop_divmods64to32 = 32

-- The instructions, and how they take the divisor.
abbrev pub quotient_of : DivMod → Binary
quotient_of iop_divmodu128to64 = udiv
quotient_of iop_divmods128to64 = sdiv
quotient_of iop_divmodu64to32 = udiv
quotient_of iop_divmods64to32 = sdiv

abbrev pub remainder_of : DivMod → Binary
remainder_of iop_divmodu128to64 = urem
remainder_of iop_divmods128to64 = srem
remainder_of iop_divmodu64to32 = urem
remainder_of iop_divmods64to32 = srem

abbrev pub divisor_cast : DivMod → Cast
divisor_cast iop_divmodu128to64 = zext
divisor_cast iop_divmods128to64 = sext
divisor_cast iop_divmodu64to32 = zext
divisor_cast iop_divmods64to32 = sext

-- The two halves that a VEX division packs into one word.
abbrev pub packed : ℕ → ℕ → ℕ → ℕ
packed h quotient remainder = quotient % 2 ^ h + remainder % 2 ^ h * 2 ^ h

module _ {V : Type 0} {b : Builder V} (laws : IsDocumented b) where
  -- The facts on numerals hold by arithmetic at each width.
  divmod-IsWord :
      (y_div y_rem : Binary) (z : Cast) (w h : ℕ) {v1 v2 : V} {x y : ℕ}
      → w / 2 ≡ h
      → h < 2 ^ w
      → h < w
      → ((n : ℕ) → n * 2 ^ h % 2 ^ w ≡ n % 2 ^ h * 2 ^ h)
      → ((q r : ℕ) → packed h q r < 2 ^ w)
      → ((q : ℕ) → (q % 2 ^ h < 2 ^ h) × (q % 2 ^ h < 2 ^ w))
      → IsWord b v1 w x
      → IsWord b v2 h y
      → IsDefined y_div w x (cast z h w y)
      → IsDefined y_rem w x (cast z h w y)
      → IsWord b
          (divmod b y_div y_rem z w v1 v2)
          w
          (packed h (word y_div w x (cast z h w y)) (word y_rem w x (cast z h w y)))
  unfolding divmod IsDefined operation
  divmod-IsWord y_div y_rem z w h {v1} {v2} {x} {y} half_is amount wider wraps fits low k l d e =
      let v1' = IsWord-bit_cast laws k in
      let v2' = IsWord-cast laws z w l in
      let div = IsWord-create laws y_div v1' v2' d in
      let rem = IsWord-create laws y_rem v1' v2' e in
      let by = IsWord-change laws (IsWord-constant laws w h) (mod-eq_of_lt amount) in
      let r = word y_rem w x (cast z h w y) in
      let q = word y_div w x (cast z h w y) in
      let rem = IsWord-change laws (IsWord-create laws shl rem by wider) (wraps r) in
      let (small, room) = low q in
      let div = IsWord-zext laws w (IsWord-trunc laws h div) room in
      let joined = IsWord-create laws or div rem tt in
      rw (divmod, half_is)
        (IsWord-change laws joined (word-fields w h (q % 2 ^ h) (r % 2 ^ h) small (fits q r)))

  -- For a dividend of the opcode's width and a divisor of half of it, which the division is
  -- defined for, the emitted code gives one word: its low half is the quotient by the extended
  -- divisor, cut to the half, and its high half the remainder.
  pub emit_divmod_lem :
      (op : DivMod) (v1 v2 : V) (x y : ℕ)
      → IsWord b v1 (whole op) x
      → IsWord b v2 (half op) y
      → IsDefined (quotient_of op) (whole op) x (cast (divisor_cast op) (half op) (whole op) y)
      → IsDefined (remainder_of op) (whole op) x (cast (divisor_cast op) (half op) (whole op) y)
      → IsWord b (emit_divmod b op v1 v2) (whole op) (
          packed
            (half op)
            (word (quotient_of op) (whole op) x (cast (divisor_cast op) (half op) (whole op) y))
            (word (remainder_of op) (whole op) x (cast (divisor_cast op) (half op) (whole op) y)))
  unfolding emit_divmod
  emit_divmod_lem iop_divmodu128to64 v1 v2 x y k l d e =
      divmod-IsWord udiv urem zext 128 64 refl (omega arith) (omega arith) (λ n. omega arith)
        (λ q r. omega arith) (λ q. (omega arith, omega arith)) k l d e
  emit_divmod_lem iop_divmods128to64 v1 v2 x y k l d e =
      divmod-IsWord sdiv srem sext 128 64 refl (omega arith) (omega arith) (λ n. omega arith)
        (λ q r. omega arith) (λ q. (omega arith, omega arith)) k l d e
  emit_divmod_lem iop_divmodu64to32 v1 v2 x y k l d e =
      divmod-IsWord udiv urem zext 64 32 refl (omega arith) (omega arith) (λ n. omega arith)
        (λ q r. omega arith) (λ q. (omega arith, omega arith)) k l d e
  emit_divmod_lem iop_divmods64to32 v1 v2 x y k l d e =
      divmod-IsWord sdiv srem sext 64 32 refl (omega arith) (omega arith) (λ n. omega arith)
        (λ q r. omega arith) (λ q. (omega arith, omega arith)) k l d e
