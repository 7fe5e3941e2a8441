-- ===== src/Vex/Scalar/Convert.antt =====
-- src/vexop.cc: the conversions between widths, and the joining and splitting of words.
pub mod Halves
pub mod Widths
use vexllvm.Base.{ℕ, zero, suc, ◌*◌, ◌^◌, ltb, if◌then◌else◌, Result, ok, fault, Fault, ◌==◌}
use vexllvm.Vex.Llvm.{
  Ty, int, vec, float, double, size_in_bits, Builder, zext, sext, trunc, or, shl, lshr,
}

-- The opcodes of X_TO_Y_EMIT.
pub data Conversion : Type 0 where
  iop_16to8 iop_64to32 iop_32uto64 iop_32sto64 iop_32to8 iop_32to16 iop_64to1 : Conversion
  iop_32to1 iop_64to8 iop_64to16 iop_1uto8 iop_1uto32 iop_1uto64 iop_16uto64 : Conversion
  iop_16sto64 iop_16uto32 iop_16sto32 iop_8uto16 iop_8sto16 iop_8uto32 iop_8sto32 : Conversion
  iop_8uto64 iop_8sto64 iop_128to64 : Conversion

-- The opcodes of X_TO_Y_EMIT with CreateBitCast.
pub data Reinterpretation : Type 0 where
  f64as_i64 i64as_f64 f32as_i32 i32as_f32 : Reinterpretation

-- The opcodes of XHI_TO_Y_EMIT and of X_HL_TO_Y_EMIT.
pub data HighHalf : Type 0 where
  iop_16hito8 iop_64hito32 iop_32hito16 : HighHalf

pub data Joined : Type 0 where
  iop_16hlto32 iop_8hlto16 iop_32hlto64 iop_64hlto128 : Joined

module _ {V : Type 0} (b : Builder V) where
  -- The operand of X_TO_Y_EMIT, brought to the type `w` that the macro casts to.
  unfoldable pub resize : V → Ty → V
  resize v1 w =
      let bits = size_in_bits (b.type_of v1) in
      if ltb bits (size_in_bits w)
      then b.create_cast zext (b.create_bit_cast v1 (int bits)) w
      else if ltb (size_in_bits w) bits
      then b.create_cast trunc (b.create_bit_cast v1 (int bits)) w
      else v1

  -- X_TO_Y_EMIT(x,y,w,z)
  unfoldable pub x_to_y : (V → Ty → V) → Ty → Ty → V → V
  x_to_y y w z v1 = y (b.create_bit_cast (resize v1 w) w) z

  unfoldable pub emit_conversion : Conversion → V → V
  emit_conversion iop_16to8 = x_to_y (b.create_cast trunc) (int 16) (int 8)
  emit_conversion iop_64to32 = x_to_y (b.create_cast trunc) (int 64) (int 32)
  emit_conversion iop_32uto64 = x_to_y (b.create_cast zext) (int 32) (int 64)
  emit_conversion iop_32sto64 = x_to_y (b.create_cast sext) (int 32) (int 64)
  emit_conversion iop_32to8 = x_to_y (b.create_cast trunc) (int 32) (int 8)
  emit_conversion iop_32to16 = x_to_y (b.create_cast trunc) (int 32) (int 16)
  emit_conversion iop_64to1 = x_to_y (b.create_cast trunc) (int 64) (int 1)
  emit_conversion iop_32to1 = x_to_y (b.create_cast trunc) (int 32) (int 1)
  emit_conversion iop_64to8 = x_to_y (b.create_cast trunc) (int 64) (int 8)
  emit_conversion iop_64to16 = x_to_y (b.create_cast trunc) (int 64) (int 16)
  emit_conversion iop_1uto8 = x_to_y (b.create_cast zext) (int 1) (int 8)
  emit_conversion iop_1uto32 = x_to_y (b.create_cast zext) (int 1) (int 32)
  emit_conversion iop_1uto64 = x_to_y (b.create_cast zext) (int 1) (int 64)
  emit_conversion iop_16uto64 = x_to_y (b.create_cast zext) (int 16) (int 64)
  emit_conversion iop_16sto64 = x_to_y (b.create_cast sext) (int 16) (int 64)
  emit_conversion iop_16uto32 = x_to_y (b.create_cast zext) (int 16) (int 32)
  emit_conversion iop_16sto32 = x_to_y (b.create_cast sext) (int 16) (int 32)
  emit_conversion iop_8uto16 = x_to_y (b.create_cast zext) (int 8) (int 16)
  emit_conversion iop_8sto16 = x_to_y (b.create_cast sext) (int 8) (int 16)
  emit_conversion iop_8uto32 = x_to_y (b.create_cast zext) (int 8) (int 32)
  emit_conversion iop_8sto32 = x_to_y (b.create_cast sext) (int 8) (int 32)
  emit_conversion iop_8uto64 = x_to_y (b.create_cast zext) (int 8) (int 64)
  emit_conversion iop_8sto64 = x_to_y (b.create_cast sext) (int 8) (int 64)
  emit_conversion iop_128to64 = x_to_y (b.create_cast trunc) (int 128) (int 64)

  unfoldable pub emit_reinterp : Reinterpretation → V → V
  emit_reinterp f64as_i64 = x_to_y b.create_bit_cast double (int 64)
  emit_reinterp i64as_f64 = x_to_y b.create_bit_cast (int 64) double
  emit_reinterp f32as_i32 = x_to_y b.create_bit_cast float (int 32)
  emit_reinterp i32as_f32 = x_to_y b.create_bit_cast (int 32) float

  -- XHI_TO_Y_EMIT(x,y,w,z)
  unfoldable pub xhi_to_y : ℕ → Ty → Ty → V → V
  xhi_to_y y w z v1 =
      b.create_cast trunc (b.create lshr (b.create_bit_cast v1 w) (b.constant (y * 2) y)) z

  unfoldable pub emit_high : HighHalf → V → V
  emit_high iop_16hito8 = xhi_to_y 8 (int 16) (int 8)
  emit_high iop_64hito32 = xhi_to_y 32 (int 64) (int 32)
  emit_high iop_32hito16 = xhi_to_y 16 (int 32) (int 16)

  -- X_HL_TO_Y_EMIT(x,y), whose body 64HLto128 has too
  unfoldable pub x_hl_to_y : ℕ → ℕ → V → V → V
  x_hl_to_y x y v1 v2 =
      let v_hi = b.create_cast zext v1 (int y) in
      let v_lo = b.create_cast zext v2 (int y) in
      b.create or v_lo (b.create shl v_hi (b.constant y x))

  unfoldable pub emit_joined : Joined → V → V → V
  emit_joined iop_16hlto32 = x_hl_to_y 16 32
  emit_joined iop_8hlto16 = x_hl_to_y 8 16
  emit_joined iop_32hlto64 = x_hl_to_y 32 64
  emit_joined iop_64hlto128 = x_hl_to_y 64 128

  unfoldable pub emit_v128to64 : V → V
  emit_v128to64 v1 = b.create_extract_element (b.create_bit_cast v1 (vec 2 64)) (b.constant 32 0)

  unfoldable pub emit_v128hito64 : V → V
  emit_v128hito64 v1 = b.create_extract_element (b.create_bit_cast v1 (vec 2 64)) (b.constant 32 1)

  unfoldable pub emit_128hito64 : V → Result V
  emit_128hito64 v1 =
      if size_in_bits (b.type_of v1) == 128
      then ok (b.create_extract_element (b.create_bit_cast v1 (vec 2 64)) (b.constant 32 1))
      else fault Fault.assertion

  unfoldable pub emit_32utov128 : V → V
  emit_32utov128 v1 = b.create_bit_cast (b.create_cast zext v1 (int 128)) (vec 16 8)

  unfoldable pub emit_64utov128 : V → V
  emit_64utov128 v1 = b.create_bit_cast (b.create_cast zext v1 (int 128)) (vec 16 8)

  unfoldable pub emit_64hltov128 : V → V → V
  emit_64hltov128 v1 v2 =
      let v_hi = b.create_cast zext (b.create_bit_cast v1 (int 64)) (int 128) in
      let v_lo = b.create_cast zext (b.create_bit_cast v2 (int 64)) (int 128) in
      b.create_bit_cast (b.create or v_lo (b.create shl v_hi (b.constant 128 64))) (vec 16 8)

  -- SetV128lo64 and SetV128lo32
  unfoldable pub emit_set_v128lo64 : V → V → V
  emit_set_v128lo64 v1 v2 =
      b.create_insert_element (b.create_bit_cast v1 (vec 2 64)) v2 (b.constant 32 0)

  unfoldable pub emit_set_v128lo32 : V → V → V
  emit_set_v128lo32 v1 v2 =
      b.create_insert_element (b.create_bit_cast v1 (vec 4 32)) v2 (b.constant 32 0)

  -- GET_ELEM_EMIT(w,e) and SET_ELEM_EMIT(w,e)
  unfoldable pub get_elem : ℕ → ℕ → V → V → V
  get_elem w e v1 v2 = b.create_extract_element (b.create_bit_cast v1 (vec e w)) v2

  unfoldable pub set_elem : ℕ → ℕ → V → V → V → V
  set_elem w e v1 v2 v3 = b.create_insert_element (b.create_bit_cast v1 (vec e w)) v3 v2

  -- The rounds i = 1 .. n of the loop of Dup8x16, from v[0].
  unfoldable pub dup_rounds : ℕ → V → V
  dup_rounds zero v0 = v0
  dup_rounds (suc n) v0 =
      let v = dup_rounds n v0 in b.create or v (b.create shl v (b.constant 128 (8 * 2 ^ n)))

  unfoldable pub emit_dup8x16 : V → V
  emit_dup8x16 v1 = dup_rounds 4 (b.create_cast zext v1 (int 128))

  -- The rounds i < n of the loop of GETMSBS_8xN_EMIT(x).
  unfoldable pub msb_rounds : ℕ → V → ℕ → V
  msb_rounds x elems zero = b.constant x 0
  msb_rounds x elems (suc i) =
      let ret = msb_rounds x elems i in
      let top = b.create lshr (b.create_extract_element elems (b.constant 32 i)) (b.constant 8 7) in
      b.create or ret (b.create shl (b.create_cast zext top (int x)) (b.constant x i))

  unfoldable pub get_msbs : ℕ → V → V
  get_msbs x v1 = msb_rounds x (b.create_bit_cast v1 (vec x 8)) x
