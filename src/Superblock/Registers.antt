-- ===== src/Superblock/Registers.antt =====
-- src/vexsb.cc: the values of a superblock's temporaries, and the widths of their types.
use vexllvm.Base.{
  ℕ, zero, suc, ◌≡◌, ◌≢◌, refl, List, [], ◌∷◌, Option, none, some, arith, get_elem?, set, Result,
  ok, fault, Fault,
}

-- The types of VEX that the source names, and all others.
pub data IrType : Type 0 where
  ity_i1 ity_i8 ity_i16 ity_i32 ity_i64 ity_i128 ity_f32 ity_f64 ity_v128 ity_v256 ity_unknown :
      IrType

-- VexSB::getTypeBitWidth
unfoldable pub get_type_bit_width : IrType → ℕ
get_type_bit_width ity_i1 = 1
get_type_bit_width ity_i8 = 8
get_type_bit_width ity_i16 = 16
get_type_bit_width ity_i32 = 32
get_type_bit_width ity_i64 = 64
get_type_bit_width ity_i128 = 128
get_type_bit_width ity_f32 = 32
get_type_bit_width ity_f64 = 64
get_type_bit_width ity_v128 = 128
get_type_bit_width ity_v256 = 0
get_type_bit_width ity_unknown = 0

-- `values`; a null pointer is `none`.
abbrev pub Values : Type 0 → Type 0
Values V = List (Option V)

module _ {V : Type 0} where
  -- What a register holds: out of range is undefined behaviour.
  unfoldable pub store_if_null : Values V → ℕ → V → Option (Option V) → Result (Values V)
  store_if_null values reg_idx v none = fault Fault.past_end
  store_if_null values reg_idx v (some (some w)) = fault Fault.assertion
  store_if_null values reg_idx v (some none) = ok (set values reg_idx (some v))

  -- VexSB::setRegValue
  unfoldable pub set_reg_value : ℕ → V → Values V → Result (Values V)
  set_reg_value reg_idx v values = store_if_null values reg_idx v (get_elem? values reg_idx)

  unfoldable pub read_unless_null : Option (Option V) → Result V
  read_unless_null none = fault Fault.past_end
  read_unless_null (some none) = fault Fault.assertion
  read_unless_null (some (some v)) = ok v

  -- VexSB::getRegValue
  unfoldable pub get_reg_value : ℕ → Values V → Result V
  get_reg_value reg_idx values = read_unless_null (get_elem? values reg_idx)

  get_elem?-set :
      (l : Values V) (i : ℕ) (x y : Option V)
      → get_elem? l i ≡ some x
      → get_elem? (set l i y) i ≡ some y
  get_elem?-set [] i x y h = absurd (ground arith)
  get_elem?-set (z ∷ l) zero x y h = refl
  get_elem?-set (z ∷ l) (suc i) x y h = get_elem?-set l i x y h

  pub get_elem?-set_other :
      (l : Values V) (i j : ℕ) (y : Option V) → i ≢ j → get_elem? (set l i y) j ≡ get_elem? l j
  get_elem?-set_other [] i j y h = refl
  get_elem?-set_other (z ∷ l) zero zero y h = absurd (h refl)
  get_elem?-set_other (z ∷ l) zero (suc j) y h = refl
  get_elem?-set_other (z ∷ l) (suc i) zero y h = refl
  get_elem?-set_other (z ∷ l) (suc i) (suc j) y h =
      get_elem?-set_other l i j y (λ e. h (omega arith))

  -- Assigning a temporary that is in range and has no value succeeds: it then reads as the value,
  -- a second assignment of it fails the assertion, and every other temporary reads as before.
  pub set_reg_value_lem :
      (i j : ℕ) (v w : V) (values : Values V)
      → get_elem? values i ≡ some none
      → i ≢ j
      → (values' : Values V) × (set_reg_value i v values ≡ ok values')
        × (get_reg_value i values' ≡ ok v)
        × (set_reg_value i w values' ≡ fault Fault.assertion)
        × (get_reg_value j values' ≡ get_reg_value j values)
  unfolding set_reg_value get_reg_value store_if_null read_unless_null
  set_reg_value_lem i j v w values free other =
      let there = get_elem?-set values i none (some v) free in
      (
        set values i (some v),
        rw free refl,
        rw there refl,
        rw there refl,
        rw (get_elem?-set_other values i j (some v) other) refl,
      )
