-- ===== src/Vex/Scalar/Convert/Widths.antt =====
-- src/vexop.cc: what the conversions of X_TO_Y_EMIT compute.
use vexllvm.Base.{ℕ, ◌-◌, ◌*◌, ◌/◌, ◌%◌, ◌^◌, ◌≡◌, refl, arith, ltb, false, if◌then◌else◌}
use vexllvm.Vex.Llvm.{int, Builder, Cast, zext, sext, trunc}
use vexllvm.Vex.Llvm.Words.{cast, extend}
use vexllvm.Vex.Llvm.Documented.{IsDocumented}
use vexllvm.Vex.Llvm.Scalars.{IsWord, IsWord-cast, IsWord-change, IsWord-bit_cast, IsWord-bound}
use vexllvm.Vex.Scalar.Convert

-- The widths between which an opcode converts.
abbrev pub source_width : Convert.Conversion → ℕ
source_width Convert.iop_16to8 = 16
source_width Convert.iop_64to32 = 64
source_width Convert.iop_32uto64 = 32
source_width Convert.iop_32sto64 = 32
source_width Convert.iop_32to8 = 32
source_width Convert.iop_32to16 = 32
source_width Convert.iop_64to1 = 64
source_width Convert.iop_32to1 = 32
source_width Convert.iop_64to8 = 64
source_width Convert.iop_64to16 = 64
source_width Convert.iop_1uto8 = 1
source_width Convert.iop_1uto32 = 1
source_width Convert.iop_1uto64 = 1
source_width Convert.iop_16uto64 = 16
source_width Convert.iop_16sto64 = 16
source_width Convert.iop_16uto32 = 16
source_width Convert.iop_16sto32 = 16
source_width Convert.iop_8uto16 = 8
source_width Convert.iop_8sto16 = 8
source_width Convert.iop_8uto32 = 8
source_width Convert.iop_8sto32 = 8
source_width Convert.iop_8uto64 = 8
source_width Convert.iop_8sto64 = 8
source_width Convert.iop_128to64 = 128

abbrev pub target_width : Convert.Conversion → ℕ
target_width Convert.iop_16to8 = 8
target_width Convert.iop_64to32 = 32
target_width Convert.iop_32uto64 = 64
target_width Convert.iop_32sto64 = 64
target_width Convert.iop_32to8 = 8
target_width Convert.iop_32to16 = 16
target_width Convert.iop_64to1 = 1
target_width Convert.iop_32to1 = 1
target_width Convert.iop_64to8 = 8
target_width Convert.iop_64to16 = 16
target_width Convert.iop_1uto8 = 8
target_width Convert.iop_1uto32 = 32
target_width Convert.iop_1uto64 = 64
target_width Convert.iop_16uto64 = 64
target_width Convert.iop_16sto64 = 64
target_width Convert.iop_16uto32 = 32
target_width Convert.iop_16sto32 = 32
target_width Convert.iop_8uto16 = 16
target_width Convert.iop_8sto16 = 16
target_width Convert.iop_8uto32 = 32
target_width Convert.iop_8sto32 = 32
target_width Convert.iop_8uto64 = 64
target_width Convert.iop_8sto64 = 64
target_width Convert.iop_128to64 = 64

-- The numbers that the conversions stand for: the remainder, the same number, and the number that
-- has the same signed reading in the wider word.
abbrev low_part : ℕ → ℕ → ℕ
low_part w x = x % 2 ^ w

abbrev signed_part : ℕ → ℕ → ℕ → ℕ
signed_part v w x = if ltb x (2 ^ v / 2) then x else 2 ^ w - (2 ^ v - x)

abbrev pub converted : Convert.Conversion → ℕ → ℕ
converted Convert.iop_16to8 x = low_part 8 x
converted Convert.iop_64to32 x = low_part 32 x
converted Convert.iop_32uto64 x = x
converted Convert.iop_32sto64 x = signed_part 32 64 x
converted Convert.iop_32to8 x = low_part 8 x
converted Convert.iop_32to16 x = low_part 16 x
converted Convert.iop_64to1 x = low_part 1 x
converted Convert.iop_32to1 x = low_part 1 x
converted Convert.iop_64to8 x = low_part 8 x
converted Convert.iop_64to16 x = low_part 16 x
converted Convert.iop_1uto8 x = x
converted Convert.iop_1uto32 x = x
converted Convert.iop_1uto64 x = x
converted Convert.iop_16uto64 x = x
converted Convert.iop_16sto64 x = signed_part 16 64 x
converted Convert.iop_16uto32 x = x
converted Convert.iop_16sto32 x = signed_part 16 32 x
converted Convert.iop_8uto16 x = x
converted Convert.iop_8sto16 x = signed_part 8 16 x
converted Convert.iop_8uto32 x = x
converted Convert.iop_8sto32 x = signed_part 8 32 x
converted Convert.iop_8uto64 x = x
converted Convert.iop_8sto64 x = signed_part 8 64 x
converted Convert.iop_128to64 x = low_part 64 x

not_below : (n : ℕ) → ltb n n ≡ false
not_below n = ground arith

module _ {V : Type 0} {b : Builder V} (laws : IsDocumented b) where
  x_to_y-IsWord :
      (c : Cast) (w z : ℕ) {v : V} {x y : ℕ}
      → IsWord b v w x
      → cast c w z x ≡ y
      → IsWord b (Convert.x_to_y b (b.create_cast c) (int w) (int z) v) z y
  unfolding Convert.x_to_y Convert.resize
  x_to_y-IsWord c w z h e =
      rw (h.has_type, not_below (1 * w))
        (IsWord-change laws (IsWord-cast laws c z (IsWord-bit_cast laws h)) e)

  -- For a word of an opcode's source width, the conversion gives a word of its target width:
  -- the remainder by 2 ^ width where it narrows, the same number where it widens without sign,
  -- and the number with the same signed reading where it widens with sign.
  pub emit_conversion_lem :
      (op : Convert.Conversion) (v : V) (x : ℕ)
      → IsWord b v (source_width op) x
      → IsWord b (Convert.emit_conversion b op v) (target_width op) (converted op x)
  unfolding Convert.emit_conversion extend
  emit_conversion_lem Convert.iop_16to8 v x h = x_to_y-IsWord trunc 16 8 h refl
  emit_conversion_lem Convert.iop_64to32 v x h = x_to_y-IsWord trunc 64 32 h refl
  emit_conversion_lem Convert.iop_32uto64 v x h =
      let bound = IsWord-bound laws h in x_to_y-IsWord zext 32 64 h (omega arith)
  emit_conversion_lem Convert.iop_32sto64 v x h =
      let bound = IsWord-bound laws h in x_to_y-IsWord sext 32 64 h (ground arith)
  emit_conversion_lem Convert.iop_32to8 v x h = x_to_y-IsWord trunc 32 8 h refl
  emit_conversion_lem Convert.iop_32to16 v x h = x_to_y-IsWord trunc 32 16 h refl
  emit_conversion_lem Convert.iop_64to1 v x h = x_to_y-IsWord trunc 64 1 h refl
  emit_conversion_lem Convert.iop_32to1 v x h = x_to_y-IsWord trunc 32 1 h refl
  emit_conversion_lem Convert.iop_64to8 v x h = x_to_y-IsWord trunc 64 8 h refl
  emit_conversion_lem Convert.iop_64to16 v x h = x_to_y-IsWord trunc 64 16 h refl
  emit_conversion_lem Convert.iop_1uto8 v x h =
      let bound = IsWord-bound laws h in x_to_y-IsWord zext 1 8 h (omega arith)
  emit_conversion_lem Convert.iop_1uto32 v x h =
      let bound = IsWord-bound laws h in x_to_y-IsWord zext 1 32 h (omega arith)
  emit_conversion_lem Convert.iop_1uto64 v x h =
      let bound = IsWord-bound laws h in x_to_y-IsWord zext 1 64 h (omega arith)
  emit_conversion_lem Convert.iop_16uto64 v x h =
      let bound = IsWord-bound laws h in x_to_y-IsWord zext 16 64 h (omega arith)
  emit_conversion_lem Convert.iop_16sto64 v x h =
      let bound = IsWord-bound laws h in x_to_y-IsWord sext 16 64 h (ground arith)
  emit_conversion_lem Convert.iop_16uto32 v x h =
      let bound = IsWord-bound laws h in x_to_y-IsWord zext 16 32 h (omega arith)
  emit_conversion_lem Convert.iop_16sto32 v x h =
      let bound = IsWord-bound laws h in x_to_y-IsWord sext 16 32 h (ground arith)
  emit_conversion_lem Convert.iop_8uto16 v x h =
      let bound = IsWord-bound laws h in x_to_y-IsWord zext 8 16 h (omega arith)
  emit_conversion_lem Convert.iop_8sto16 v x h =
      let bound = IsWord-bound laws h in x_to_y-IsWord sext 8 16 h (ground arith)
  emit_conversion_lem Convert.iop_8uto32 v x h =
      let bound = IsWord-bound laws h in x_to_y-IsWord zext 8 32 h (omega arith)
  emit_conversion_lem Convert.iop_8sto32 v x h =
      let bound = IsWord-bound laws h in x_to_y-IsWord sext 8 32 h (ground arith)
  emit_conversion_lem Convert.iop_8uto64 v x h =
      let bound = IsWord-bound laws h in x_to_y-IsWord zext 8 64 h (omega arith)
  emit_conversion_lem Convert.iop_8sto64 v x h =
      let bound = IsWord-bound laws h in x_to_y-IsWord sext 8 64 h (ground arith)
  emit_conversion_lem Convert.iop_128to64 v x h = x_to_y-IsWord trunc 128 64 h refl
