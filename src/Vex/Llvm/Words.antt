-- ===== src/Vex/Llvm/Words.antt =====
-- What the LLVM language reference says of its integer instructions, on numbers below 2 ^ w.
use vexllvm.Base.{
  ℕ, zero, suc, ◌+◌, ◌-◌, ◌*◌, ◌/◌, ◌%◌, ◌^◌, Bool, true, false, not, ◌&&◌, ◌||◌, ltb, leb, ◌==◌,
  if◌then◌else◌, ◌≢◌, ◌<◌, ◌≡◌,
}
use vexllvm.Vex.Llvm.{
  Binary, add, sub, mul, udiv, sdiv, urem, srem, and, or, xor, shl, lshr, ashr, Predicate, icmp_eq,
  icmp_ne, icmp_ugt, icmp_ult, icmp_ule, icmp_sgt, icmp_slt, icmp_sle, Cast, zext, sext, trunc,
}

-- The operands' lowest `w` bits, combined bit by bit.
unfoldable pub bitwise : (Bool → Bool → Bool) → ℕ → ℕ → ℕ → ℕ
bitwise f zero a b = 0
bitwise f (suc w) a b =
    let rest = bitwise f w (a / 2) (b / 2) in
    (if f (a % 2 == 1) (b % 2 == 1) then 1 else 0) + 2 * rest

abbrev differ : Bool → Bool → Bool
differ true b = not b
differ false b = b

-- Whether the word is negative in two's complement.
abbrev pub is_negative : ℕ → ℕ → Bool
is_negative w x = leb (2 ^ w) (2 * x)

abbrev pub negate : ℕ → ℕ → ℕ
negate w x = (2 ^ w - x) % 2 ^ w

abbrev pub magnitude : ℕ → ℕ → ℕ
magnitude w x = if is_negative w x then 2 ^ w - x else x

-- Truncating division: the quotient's sign is the product of the signs.
abbrev signed_quotient : ℕ → ℕ → ℕ → ℕ
signed_quotient w a b =
    let q = magnitude w a / magnitude w b in
    if differ (is_negative w a) (is_negative w b) then negate w q else q

-- The remainder has the dividend's sign.
abbrev signed_remainder : ℕ → ℕ → ℕ → ℕ
signed_remainder w a b =
    let r = magnitude w a % magnitude w b in if is_negative w a then negate w r else r

-- The bits that are shifted in are copies of the topmost bit.
abbrev arithmetic_shift : ℕ → ℕ → ℕ → ℕ
arithmetic_shift w a s = if is_negative w a then 2 ^ w - 1 - (2 ^ w - 1 - a) / 2 ^ s else a / 2 ^ s

unfoldable pub operation : Binary → ℕ → ℕ → ℕ → ℕ
operation add w a b = a + b
operation sub w a b = a + (2 ^ w - b)
operation mul w a b = a * b
operation udiv w a b = a / b
operation sdiv w a b = signed_quotient w a b
operation urem w a b = a % b
operation srem w a b = signed_remainder w a b
operation and w a b = bitwise ◌&&◌ w a b
operation or w a b = bitwise ◌||◌ w a b
operation xor w a b = bitwise differ w a b
operation shl w a b = a * 2 ^ b
operation lshr w a b = a / 2 ^ b
operation ashr w a b = arithmetic_shift w a b

-- A result keeps its lowest w bits.
abbrev pub word : Binary → ℕ → ℕ → ℕ → ℕ
word op w a b = operation op w a b % 2 ^ w

-- Division by zero is undefined, and so is a signed division whose quotient has no word; a shift
-- by the width or more gives no value.
unfoldable pub IsDefined : Binary → ℕ → ℕ → ℕ → Type 0
IsDefined udiv w a b = b ≢ 0
IsDefined sdiv w a b = (b ≢ 0) × (a ≡ 2 ^ w / 2 → b ≢ 2 ^ w - 1)
IsDefined urem w a b = b ≢ 0
IsDefined srem w a b = (b ≢ 0) × (a ≡ 2 ^ w / 2 → b ≢ 2 ^ w - 1)
IsDefined shl w a b = b < w
IsDefined lshr w a b = b < w
IsDefined ashr w a b = b < w
IsDefined _ w a b = Unit

-- Signed comparisons move the range -2 ^ (w - 1) .. 2 ^ (w - 1) to 0 .. 2 ^ w.
abbrev biased : ℕ → ℕ → ℕ
biased w x = (x + 2 ^ w / 2) % 2 ^ w

unfoldable pub test : Predicate → ℕ → ℕ → ℕ → Bool
test icmp_eq w a b = a == b
test icmp_ne w a b = not (a == b)
test icmp_ugt w a b = ltb b a
test icmp_ult w a b = ltb a b
test icmp_ule w a b = leb a b
test icmp_sgt w a b = ltb (biased w b) (biased w a)
test icmp_slt w a b = ltb (biased w a) (biased w b)
test icmp_sle w a b = leb (biased w a) (biased w b)

-- From `v` bits to `w` bits.
unfoldable pub extend : Cast → ℕ → ℕ → ℕ → ℕ
extend zext v w x = x
extend sext v w x = if is_negative v x then x + (2 ^ w - 2 ^ v) else x
extend trunc v w x = x

abbrev pub cast : Cast → ℕ → ℕ → ℕ → ℕ
cast c v w x = extend c v w x % 2 ^ w
