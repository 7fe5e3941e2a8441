-- ===== src/Vex/Llvm/Fields.antt =====
-- An `or` of fields that do not overlap is their sum.
use vexllvm.Base.{ℕ, zero, suc, ◌+◌, ◌*◌, ◌/◌, ◌%◌, ◌^◌, ◌<◌, ◌≡◌, arith, ◌||◌, ◌==◌, if◌then◌else◌}
use vexllvm.Vex.Llvm.{or}
use vexllvm.Vex.Llvm.Words.{bitwise, word, operation}
use native.Mathlib.Nat.{mod-eq_of_lt, pow-suc}

-- The lowest bit of `a`, as `bitwise` puts it back.
low_bit : (a rest : ℕ) → rest ≡ a / 2 → (if a % 2 == 1 then 1 else 0) + 2 * rest ≡ a
low_bit a rest e = ground arith

or-zero : (w q : ℕ) → q < 2 ^ w → bitwise ◌||◌ w 0 q ≡ q
unfolding bitwise
or-zero zero q h = omega arith
or-zero (suc w) q h = let p = pow-suc 2 w in low_bit q _ (or-zero w (q / 2) (omega arith))

twice : (q k : ℕ) → q * 2 ^ suc k ≡ 2 * (q * 2 ^ k)
twice q k = let p : 2 ^ suc k ≡ 2 * 2 ^ k = omega arith in grind arith

-- An even second operand leaves the lowest bit of the first.
or-even :
    (w a m : ℕ) → bitwise ◌||◌ w (a / 2) m ≡ a / 2 + m → bitwise ◌||◌ (suc w) a (2 * m) ≡ a + 2 * m
unfolding bitwise
or-even w a m ih = let half : 2 * m / 2 ≡ m = omega arith in rw (half, ih) (ground arith)

pub bitwise-fields :
    (w k a q : ℕ) → a < 2 ^ k → a + q * 2 ^ k < 2 ^ w → bitwise ◌||◌ w a (q * 2 ^ k) ≡ a + q * 2 ^ k
unfolding bitwise
bitwise-fields w zero a q small fits =
    let null : a ≡ 0 = omega arith in
    let one : q * 1 ≡ q = omega arith in rw (null, one) (omega (arith, or-zero w q (omega arith)))
bitwise-fields zero (suc k) a q small fits = omega arith
bitwise-fields (suc w) (suc k) a q small fits =
    let p = twice q k in
    rw p (or-even w a (q * 2 ^ k) (bitwise-fields w k (a / 2) q (omega arith) (omega arith)))

pub word-fields :
    (w k a q : ℕ) → a < 2 ^ k → a + q * 2 ^ k < 2 ^ w → word or w a (q * 2 ^ k) ≡ a + q * 2 ^ k
unfolding operation
word-fields w k a q small fits = rw (bitwise-fields w k a q small fits) (mod-eq_of_lt fits)
