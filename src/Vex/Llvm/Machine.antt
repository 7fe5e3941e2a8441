-- ===== src/Vex/Llvm/Machine.antt =====
-- A builder that computes: a value is its type and the contents of its lanes.
use vexllvm.Base.{
  ℕ, zero, suc, ◌+◌, ◌-◌, ◌*◌, ◌/◌, ◌%◌, ◌^◌, ◌<◌, ◌≤◌, ◌≡◌, ◌≢◌, refl, arith, Bool, true, false,
  ◌==◌, ltb, if◌then◌else◌, Option, some, none, get_elem?,
}
use vexllvm.Vex.Llvm.{Ty, int, vec, float, double, width, lanes, scalar_type, same_type, Builder}
use vexllvm.Vex.Llvm.Words.{word, test, cast}
use vexllvm.Vex.Llvm.Documented.{IsDocumented, bit, with_scalar}
use native.Mathlib.Nat.{mod-eq_of_lt, mod-lt, one-le-pow}

pub record Val : Type 0 where
  pub ty : Ty
  pub content : ℕ → ℕ

abbrev lane_of : Val → ℕ → ℕ
lane_of v i = v.content i % 2 ^ width v.ty

-- The first n lanes of w bits as one number, the first lane lowest.
abbrev pack : ℕ → ℕ → (ℕ → ℕ) → ℕ
pack w zero f = 0
pack w (suc n) f = pack w n f + f n % 2 ^ w * 2 ^ (w * n)

unfoldable pub recast : Val → Ty → Val
recast v t = record {
  ty = t;
  content = if same_type v.ty t then v.content else λ i.
      pack (width v.ty) (lanes v.ty) v.content / 2 ^ (width t * i);
}

abbrev shuffled : Val → Val → Option ℕ → ℕ
shuffled x y none = 0
shuffled x y (some k) = if ltb k (lanes x.ty) then lane_of x k else lane_of y (k - lanes x.ty)

abbrev pub machine : Builder Val
machine = record {
  type_of = λ v. v.ty;
  lane = lane_of;
  constant = λ w x. record { ty = int w; content = λ i. x };
  create = λ op x y. record {
    ty = x.ty;
    content = λ i. word op (width x.ty) (lane_of x i) (lane_of y i);
  };
  create_not = λ x. record { ty = x.ty; content = λ i. 2 ^ width x.ty - 1 - lane_of x i };
  create_icmp = λ p x y. record {
    ty = with_scalar x.ty 1;
    content = λ i. bit (test p (width x.ty) (lane_of x i) (lane_of y i));
  };
  create_cast =
      λ c v t. record { ty = t; content = λ i. cast c (width v.ty) (width t) (lane_of v i) };
  create_bit_cast = recast;
  create_select = λ c x y. if lane_of c 0 == 1 then x else y;
  create_extract_element =
      λ v k. record { ty = scalar_type v.ty; content = λ i. lane_of v (lane_of k 0) };
  create_insert_element = λ v e k. record {
    ty = v.ty;
    content = λ i. if i == lane_of k 0 then lane_of e 0 else lane_of v i;
  };
  create_shuffle_vector =
      λ x y mask. record { ty = x.ty; content = λ i. shuffled x y (get_elem? mask i) };
}

power : (w : ℕ) → 0 < 2 ^ w
power w = let h = one-le-pow w 2 (omega arith) in omega arith

wrapped : (w x : ℕ) → x % 2 ^ w < 2 ^ w
wrapped w x = mod-lt x (power w)

wrap_again : (w x : ℕ) → x % 2 ^ w % 2 ^ w ≡ x % 2 ^ w
wrap_again w x = mod-eq_of_lt (wrapped w x)

bit_fits : (b : Bool) → bit b % 2 ^ 1 ≡ bit b
bit_fits true = refl
bit_fits false = refl

narrow : (t : Ty) → width (with_scalar t 1) ≡ 1
narrow (int w) = refl
narrow (vec n w) = refl
narrow float = refl
narrow double = refl

scalar_width : (t : Ty) → width (scalar_type t) ≡ width t
scalar_width (int w) = refl
scalar_width (vec n w) = refl
scalar_width float = refl
scalar_width double = refl

same_type_refl : (t : Ty) → same_type t t ≡ true
same_type_refl (int w) = ground arith
same_type_refl (vec n w) = ground arith
same_type_refl float = refl
same_type_refl double = refl

recast-type : (v : Val) (t : Ty) → (recast v t).ty ≡ t
unfolding recast
recast-type v t = refl

recast-same : (v : Val) → recast v v.ty ≡ v
unfolding recast
recast-same v = rw same_type_refl refl

equals_itself : (k : ℕ) → (k == k) ≡ true
equals_itself k = ground arith

unequal : {i k : ℕ} → i ≢ k → (i == k) ≡ false
unequal other = ground arith

below : {k n : ℕ} → k < n → ltb k n ≡ true
below h = ground arith

not_below : {k n : ℕ} → n ≤ k → ltb k n ≡ false
not_below h = ground arith

pub machine-IsDocumented : IsDocumented machine
machine-IsDocumented = record {
  lane-bound = λ v i. wrapped _ _;
  constant-type = λ w x. refl;
  constant-lane = λ w x. refl;
  create-type = λ op x y e. refl;
  create-lane = λ op x y i e h d. wrap_again _ _;
  icmp-type = λ p x y. refl;
  icmp-lane = λ p x y i e h. rw (narrow x.ty) (bit_fits _);
  cast-type = λ c v t. refl;
  cast-lane = λ c v t i e h. wrap_again _ _;
  bit_cast-type = recast-type;
  bit_cast-same = recast-same;
  select-true = λ c x y e. rw e refl;
  select-false = λ c x y e. rw e refl;
  extract-type = λ v k. refl;
  extract-lane = λ v k h. rw (scalar_width v.ty) (wrap_again _ _);
  insert-type = λ v e k. refl;
  insert-here =
      λ v e k h t. rw (equals_itself (lane_of k 0), ← scalar_width v.ty, ← t) (wrap_again _ _);
  insert-other = λ v e k i h. rw (unequal h) (wrap_again _ _);
  shuffle-left = λ x y mask i k t e h. rw (e, below h) (wrap_again _ _);
  shuffle-right = λ x y mask i k t e h g. rw (e, not_below h, t) (wrap_again _ _);
}
