-- ===== src/Vex/Llvm/Documented.antt =====
-- The documented behaviour of the builder's operations, as hypotheses of the theorems on emitters.
use vexllvm.Base.{
  ℕ, ◌%◌, ◌^◌, ◌<◌, ◌≡◌, ◌≢◌, ◌+◌, ◌-◌, List, some, get_elem?, true, false, ◌≤◌, Bool,
}
use vexllvm.Vex.Llvm.{Ty, int, vec, width, lanes, scalar_type, Builder, Binary, Predicate, Cast}
use vexllvm.Vex.Llvm.Words.{word, IsDefined, test, cast}

-- A truth value as a word of one bit.
abbrev pub bit : Bool → ℕ
bit true = 1
bit false = 0

-- A value's type with the scalar type of another.
abbrev pub with_scalar : Ty → ℕ → Ty
with_scalar (vec n v) w = vec n w
with_scalar _ w = int w

pub record IsDocumented {V : Type 0} (b : Builder V) : Type 0 where
  pub lane-bound : (v : V) (i : ℕ) → b.lane v i < 2 ^ width (b.type_of v)
  pub constant-type : (w x : ℕ) → b.type_of (b.constant w x) ≡ int w
  pub constant-lane : (w x : ℕ) → b.lane (b.constant w x) 0 ≡ x % 2 ^ w
  pub create-type :
      (op : Binary) (x y : V)
      → b.type_of x ≡ b.type_of y
      → b.type_of (b.create op x y) ≡ b.type_of x
  pub create-lane :
      (op : Binary) (x y : V) (i : ℕ)
      → b.type_of x ≡ b.type_of y
      → i < lanes (b.type_of x)
      → IsDefined op (width (b.type_of x)) (b.lane x i) (b.lane y i)
      → b.lane (b.create op x y) i ≡ word op (width (b.type_of x)) (b.lane x i) (b.lane y i)
  pub icmp-type :
      (p : Predicate) (x y : V) → b.type_of (b.create_icmp p x y) ≡ with_scalar (b.type_of x) 1
  pub icmp-lane :
      (p : Predicate) (x y : V) (i : ℕ)
      → b.type_of x ≡ b.type_of y
      → i < lanes (b.type_of x)
      → b.lane (b.create_icmp p x y) i
        ≡ bit (test p (width (b.type_of x)) (b.lane x i) (b.lane y i))
  pub cast-type : (c : Cast) (v : V) (t : Ty) → b.type_of (b.create_cast c v t) ≡ t
  pub cast-lane :
      (c : Cast) (v : V) (t : Ty) (i : ℕ)
      → lanes t ≡ lanes (b.type_of v)
      → i < lanes t
      → b.lane (b.create_cast c v t) i ≡ cast c (width (b.type_of v)) (width t) (b.lane v i)
  pub bit_cast-type : (v : V) (t : Ty) → b.type_of (b.create_bit_cast v t) ≡ t
  pub bit_cast-same : (v : V) → b.create_bit_cast v (b.type_of v) ≡ v
  pub select-true : (c x y : V) → b.lane c 0 ≡ 1 → b.create_select c x y ≡ x
  pub select-false : (c x y : V) → b.lane c 0 ≡ 0 → b.create_select c x y ≡ y
  pub extract-type :
      (v k : V) → b.type_of (b.create_extract_element v k) ≡ scalar_type (b.type_of v)
  pub extract-lane :
      (v k : V)
      → b.lane k 0 < lanes (b.type_of v)
      → b.lane (b.create_extract_element v k) 0 ≡ b.lane v (b.lane k 0)
  pub insert-type : (v e k : V) → b.type_of (b.create_insert_element v e k) ≡ b.type_of v
  pub insert-here :
      (v e k : V)
      → b.lane k 0 < lanes (b.type_of v)
      → b.type_of e ≡ scalar_type (b.type_of v)
      → b.lane (b.create_insert_element v e k) (b.lane k 0) ≡ b.lane e 0
  pub insert-other :
      (v e k : V) (i : ℕ) → i ≢ b.lane k 0 → b.lane (b.create_insert_element v e k) i ≡ b.lane v i
  pub shuffle-left :
      (x y : V) (mask : List ℕ) (i k : ℕ)
      → b.type_of x ≡ b.type_of y
      → get_elem? mask i ≡ some k
      → k < lanes (b.type_of x)
      → b.lane (b.create_shuffle_vector x y mask) i ≡ b.lane x k
  pub shuffle-right :
      (x y : V) (mask : List ℕ) (i k : ℕ)
      → b.type_of x ≡ b.type_of y
      → get_elem? mask i ≡ some k
      → lanes (b.type_of x) ≤ k
      → k < lanes (b.type_of x) + lanes (b.type_of x)
      → b.lane (b.create_shuffle_vector x y mask) i ≡ b.lane y (k - lanes (b.type_of x))
