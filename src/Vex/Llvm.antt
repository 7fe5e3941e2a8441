-- ===== src/Vex/Llvm.antt =====
-- llvm::IRBuilder as far as the emitters of src/vexop.cc, src/vexexpr.cc and src/vexstmt.cc call
-- it. LLVM is not part of this repository: its values and its operations are a parameter.
pub mod Words
pub mod Fields
pub mod Documented
pub mod Machine
pub mod Scalars
use vexllvm.Base.{true, false, ◌&&◌, ◌==◌, ℕ, ◌*◌, ◌+◌, Bool, List}

-- `llvm::Type`: get_i, get_vt (whose lanes come first), get_f and get_d of src/vexop_macros.h.
pub data Ty : Type 0 where
  int : ℕ → Ty
  vec : ℕ → ℕ → Ty
  float : Ty
  double : Ty

-- The bits of one lane.
abbrev pub width : Ty → ℕ
width (int w) = w
width (vec n w) = w
width float = 32
width double = 64

-- `VectorType::getNumElements`; a scalar is read as one lane.
abbrev pub lanes : Ty → ℕ
lanes (int w) = 1
lanes (vec n w) = n
lanes float = 1
lanes double = 1

-- `getPrimitiveSizeInBits` and `getBitWidth`
abbrev pub size_in_bits : Ty → ℕ
size_in_bits t = lanes t * width t

-- Types are unique, so that equal types are the same pointer.
abbrev pub same_type : Ty → Ty → Bool
same_type (int v) (int w) = v == w
same_type (vec m v) (vec n w) = (m == n) && (v == w)
same_type float float = true
same_type double double = true
same_type _ _ = false

-- `getScalarType`
abbrev pub scalar_type : Ty → Ty
scalar_type (int w) = int w
scalar_type (vec n w) = int w
scalar_type float = float
scalar_type double = double

-- The suffixes of the builder's `Create...` functions.
pub data Binary : Type 0 where
  add sub mul udiv sdiv urem srem and or xor shl lshr ashr : Binary

pub data Predicate : Type 0 where
  icmp_eq icmp_ne icmp_ugt icmp_ult icmp_ule icmp_sgt icmp_slt icmp_sle : Predicate

pub data Cast : Type 0 where
  zext sext trunc : Cast

-- `IRBuilder<>` over its values, which are read as what they are when the emitted code runs.
pub record Builder (V : Type 0) : Type 0 where
  -- `getType`
  pub type_of : V → Ty
  -- the number that the i-th lane holds
  pub lane : V → ℕ → ℕ
  -- `ConstantInt::get` of an APInt: bits, value
  pub constant : ℕ → ℕ → V
  pub create : Binary → V → V → V
  pub create_not : V → V
  pub create_icmp : Predicate → V → V → V
  pub create_cast : Cast → V → Ty → V
  pub create_bit_cast : V → Ty → V
  pub create_select : V → V → V → V
  pub create_extract_element : V → V → V
  pub create_insert_element : V → V → V → V
  -- the mask is a list of constant indices
  pub create_shuffle_vector : V → V → List ℕ → V
