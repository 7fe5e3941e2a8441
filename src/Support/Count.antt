-- ===== src/Support/Count.antt =====
-- support/vexops.c: the count operations that compiled code calls. Words are numbers below
-- 2 ^ 32 or 2 ^ 64, and `half` is the value of their topmost bit.
use vexllvm.Base.{ℕ, zero, suc, ◌+◌, ◌*◌, ◌/◌, ◌%◌, ◌^◌, Bool, ◌==◌, if◌then◌else◌}

-- `v & half`, as a condition
unfoldable pub top_bit : ℕ → ℕ → Bool
top_bit half v = v / half % 2 == 1

-- `v <<= 1`
unfoldable pub shift_left : ℕ → ℕ → ℕ
shift_left half v = v * 2 % (half * 2)

-- `while ((v & half))`, on fuel
unfoldable pub ones_loop : ℕ → ℕ → ℕ → ℕ → ℕ
ones_loop zero half v ret = ret
ones_loop (suc fuel) half v ret =
    let rest = ones_loop fuel half (shift_left half v) (ret + 1) in
    if top_bit half v then rest else ret

-- `while ((v & half) == 0)`, on fuel
unfoldable pub zeros_loop : ℕ → ℕ → ℕ → ℕ → ℕ
zeros_loop zero half v ret = ret
zeros_loop (suc fuel) half v ret =
    let rest = zeros_loop fuel half (shift_left half v) (ret + 1) in
    if top_bit half v then ret else rest

-- `while ((v & 1) == 0)`, on fuel
unfoldable pub trailing_loop : ℕ → ℕ → ℕ → ℕ
trailing_loop zero v ret = ret
trailing_loop (suc fuel) v ret =
    let rest = trailing_loop fuel (v / 2) (ret + 1) in if v % 2 == 0 then rest else ret

unfoldable pub cls32 : ℕ → ℕ
cls32 v = if top_bit (2 ^ 31) v then ones_loop 32 (2 ^ 31) (shift_left (2 ^ 31) v) 0 else 0

unfoldable pub cls64 : ℕ → ℕ
cls64 v = if top_bit (2 ^ 63) v then ones_loop 64 (2 ^ 63) (shift_left (2 ^ 63) v) 0 else 0

unfoldable pub ctz32 : ℕ → ℕ
ctz32 v = if v == 0 then 32 else trailing_loop 32 v 0

unfoldable pub ctz64 : ℕ → ℕ
ctz64 v = if v == 0 then 64 else trailing_loop 64 v 0

unfoldable pub clz32 : ℕ → ℕ
clz32 v = if v == 0 then 32 else zeros_loop 32 (2 ^ 31) v 0

unfoldable pub clz64 : ℕ → ℕ
clz64 v = if v == 0 then 64 else zeros_loop 64 (2 ^ 63) v 0
