-- ===== src/Tests/Support.antt =====
-- support/vexops.c: counts of small words, and comparisons of small floats.
use vexllvm.Base.{ℕ, ◌≡◌, refl, arith}
use vexllvm.Base.{Bool, true, false, Option, none, some, ltb, ◌==◌}
use vexllvm.Support.Floats.{Floats, IsIeee, cmpf, un}
use vexllvm.Support.Count.{
  top_bit, shift_left, ones_loop, zeros_loop, trailing_loop, cls32, ctz64, clz32,
}

-- The examples in the comments of the source.
counts : (ctz64 28 ≡ 2) × (ctz64 6 ≡ 1) × (ctz64 24 ≡ 3) × (clz32 1 ≡ 31) × (cls32 4026531840 ≡ 3)
unfolding ctz64 clz32 cls32 trailing_loop zeros_loop ones_loop top_bit shift_left
counts = (refl, refl, refl, refl, refl)

abbrev five : ℕ
five = 5

-- A word without sign has no sign bits by this count, though 1 has thirty below its topmost.
cls32_one : cls32 1 ≡ 0
unfolding cls32 top_bit
cls32_one = refl

-- Floats that are natural numbers or not a number.
abbrev number_test : (ℕ → ℕ → Bool) → Option ℕ → Option ℕ → Bool
number_test test none y = false
number_test test (some m) none = false
number_test test (some m) (some n) = test m n

abbrev numbers : Floats
numbers = record {
  Float = Option ℕ;
  zero = some 0;
  same = number_test ◌==◌;
  less = number_test ltb;
  greater = number_test (λ m n. ltb n m);
  negate = λ x. x;
}

numbers_same : (x y : Option ℕ) → number_test ◌==◌ x y ≡ number_test ◌==◌ y x
numbers_same none none = refl
numbers_same none (some n) = refl
numbers_same (some m) none = refl
numbers_same (some m) (some n) = ground arith

numbers_less : (x y : Option ℕ) → number_test ltb x y ≡ number_test (λ m n. ltb n m) y x
numbers_less none none = refl
numbers_less none (some n) = refl
numbers_less (some m) none = refl
numbers_less (some m) (some n) = refl

numbers_not_both :
    (x y : Option ℕ) → number_test ltb x y ≡ true → number_test (λ m n. ltb n m) x y ≡ false
numbers_not_both none y h = refl
numbers_not_both (some m) none h = refl
numbers_not_both (some m) (some n) h = ground arith

numbers-IsIeee : IsIeee numbers
numbers-IsIeee = record {
  same_sym = numbers_same;
  less_greater = numbers_less;
  not_both = numbers_not_both;
}

-- Nothing compares with what is not a number.
cmpf_unordered : cmpf numbers none (some 5) ≡ un
unfolding cmpf
cmpf_unordered = refl
