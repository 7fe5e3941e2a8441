-- ===== src/Vex/Vector/Saturate/Clamped.antt =====
-- Saturation on words: the arithmetic of one lane at each width.
use vexllvm.Base.{ℕ, ◌+◌, ◌-◌, ◌/◌, ◌%◌, ◌^◌, ◌<◌, ◌≡◌, arith, ltb, if◌then◌else◌}
use vexllvm.Vex.Llvm.{zext, sext, add, sub, icmp_sgt, icmp_slt, icmp_ugt, Binary}
use vexllvm.Vex.Llvm.Words.{word, cast, test, extend, operation}

-- The largest number of w bits stands for all above it.
abbrev pub clamped : ℕ → ℕ → ℕ
clamped w x = if ltb x (2 ^ w) then x else 2 ^ w - 1

-- A signed word, moved up by 2 ^ (w - 1).
abbrev pub biased : ℕ → ℕ → ℕ
biased w x = (x + 2 ^ w / 2) % 2 ^ w

-- The two selections of a signed round, on words of w + 1 bits.
abbrev pub signed_limit : ℕ → ℕ → ℕ → ℕ → ℕ
signed_limit w f g e =
    let hi = cast sext w (w + 1) (f % 2 ^ w) in
    let lo = cast sext w (w + 1) (g % 2 ^ w) in
    let e = if test icmp_sgt (w + 1) e hi then hi else e in
    if test icmp_slt (w + 1) e lo then lo else e

-- What one round of OPSAT_EMIT makes of two lanes of w bits, in w + 1 bits.
abbrev pub signed_round : Binary → ℕ → ℕ → ℕ → ℕ → ℕ → ℕ
signed_round op w f g x y =
    signed_limit w f g (word op (w + 1) (cast sext w (w + 1) x) (cast sext w (w + 1) y)) % 2 ^ w

abbrev pub unsigned_add_round : ℕ → ℕ → ℕ → ℕ → ℕ
unsigned_add_round w f x y =
    let e = word add (w + 1) (cast zext w (w + 1) x) (cast zext w (w + 1) y) in
    let hi = cast zext w (w + 1) (f % 2 ^ w) in
    (if test icmp_ugt (w + 1) e hi then hi else e) % 2 ^ w

abbrev pub unsigned_sub_round : ℕ → ℕ → ℕ → ℕ → ℕ
unsigned_sub_round w g x y =
    let e = word sub (w + 1) (cast zext w (w + 1) x) (cast zext w (w + 1) y) in
    let lo = cast zext w (w + 1) (g % 2 ^ w) in
    (if test icmp_slt (w + 1) e lo then lo else e) % 2 ^ w

pub signed_add8 :
    (x y : ℕ)
    → x < 2 ^ 8
    → y < 2 ^ 8
    → biased 8 (signed_round add 8 0x7F 0x80 x y) ≡ clamped 8 (biased 8 x + biased 8 y - 2 ^ 8 / 2)
unfolding operation extend test
signed_add8 x y h k = ground arith

pub signed_sub8 :
    (x y : ℕ)
    → x < 2 ^ 8
    → y < 2 ^ 8
    → biased 8 (signed_round sub 8 0x7F 0x80 x y) ≡ clamped 8 (biased 8 x + 2 ^ 8 / 2 - biased 8 y)
unfolding operation extend test
signed_sub8 x y h k = ground arith

pub unsigned_add8 :
    (x y : ℕ) → x < 2 ^ 8 → y < 2 ^ 8 → unsigned_add_round 8 0xFF x y ≡ clamped 8 (x + y)
unfolding operation extend test
unsigned_add8 x y h k = ground arith

pub unsigned_sub8 : (x y : ℕ) → x < 2 ^ 8 → y < 2 ^ 8 → unsigned_sub_round 8 0 x y ≡ x - y
unfolding operation extend test
unsigned_sub8 x y h k = ground arith

pub signed_add16 :
    (x y : ℕ)
    → x < 2 ^ 16
    → y < 2 ^ 16
    → biased 16 (signed_round add 16 0x7FFF 0x8000 x y)
      ≡ clamped 16 (biased 16 x + biased 16 y - 2 ^ 16 / 2)
unfolding operation extend test
signed_add16 x y h k = ground arith

pub signed_sub16 :
    (x y : ℕ)
    → x < 2 ^ 16
    → y < 2 ^ 16
    → biased 16 (signed_round sub 16 0x7FFF 0x8000 x y)
      ≡ clamped 16 (biased 16 x + 2 ^ 16 / 2 - biased 16 y)
unfolding operation extend test
signed_sub16 x y h k = ground arith

pub unsigned_add16 :
    (x y : ℕ) → x < 2 ^ 16 → y < 2 ^ 16 → unsigned_add_round 16 0xFFFF x y ≡ clamped 16 (x + y)
unfolding operation extend test
unsigned_add16 x y h k = ground arith

pub unsigned_sub16 : (x y : ℕ) → x < 2 ^ 16 → y < 2 ^ 16 → unsigned_sub_round 16 0 x y ≡ x - y
unfolding operation extend test
unsigned_sub16 x y h k = ground arith

pub signed_add32 :
    (x y : ℕ)
    → x < 2 ^ 32
    → y < 2 ^ 32
    → biased 32 (signed_round add 32 0x7FFFFFFF 0x80000000 x y)
      ≡ clamped 32 (biased 32 x + biased 32 y - 2 ^ 32 / 2)
unfolding operation extend test
signed_add32 x y h k = ground arith

pub signed_sub32 :
    (x y : ℕ)
    → x < 2 ^ 32
    → y < 2 ^ 32
    → biased 32 (signed_round sub 32 0x7FFFFFFF 0x80000000 x y)
      ≡ clamped 32 (biased 32 x + 2 ^ 32 / 2 - biased 32 y)
unfolding operation extend test
signed_sub32 x y h k = ground arith

pub unsigned_add32 :
    (x y : ℕ) → x < 2 ^ 32 → y < 2 ^ 32 → unsigned_add_round 32 0xFFFFFFFF x y ≡ clamped 32 (x + y)
unfolding operation extend test
unsigned_add32 x y h k = ground arith

pub unsigned_sub32 : (x y : ℕ) → x < 2 ^ 32 → y < 2 ^ 32 → unsigned_sub_round 32 0 x y ≡ x - y
unfolding operation extend test
unsigned_sub32 x y h k = ground arith

pub signed_add64 :
    (x y : ℕ)
    → x < 2 ^ 64
    → y < 2 ^ 64
    → biased 64 (signed_round add 64 0x7FFFFFFFFFFFFFFF 0x8000000000000000 x y)
      ≡ clamped 64 (biased 64 x + biased 64 y - 2 ^ 64 / 2)
unfolding operation extend test
signed_add64 x y h k = ground arith

pub signed_sub64 :
    (x y : ℕ)
    → x < 2 ^ 64
    → y < 2 ^ 64
    → biased 64 (signed_round sub 64 0x7FFFFFFFFFFFFFFF 0x8000000000000000 x y)
      ≡ clamped 64 (biased 64 x + 2 ^ 64 / 2 - biased 64 y)
unfolding operation extend test
signed_sub64 x y h k = ground arith

pub unsigned_add64 :
    (x y : ℕ)
    → x < 2 ^ 64
    → y < 2 ^ 64
    → unsigned_add_round 64 0xFFFFFFFFFFFFFFFF x y ≡ clamped 64 (x + y)
unfolding operation extend test
unsigned_add64 x y h k = ground arith

pub unsigned_sub64 : (x y : ℕ) → x < 2 ^ 64 → y < 2 ^ 64 → unsigned_sub_round 64 0 x y ≡ x - y
unfolding operation extend test
unsigned_sub64 x y h k = ground arith
