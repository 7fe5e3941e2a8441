-- ===== src/Support/Counted.antt =====
-- support/vexops.c: what the count operations count. The loops have fuel for every bit of the
-- word, and each lemma shows that they stop by their own test before it ends.
use vexllvm.Base.{
  ℕ, zero, suc, ◌+◌, ◌*◌, ◌/◌, ◌%◌, ◌^◌, ◌<◌, ◌≤◌, ◌≡◌, refl, arith, ◌==◌, Bool-cases, inl, inr,
  ◌-◌, true, false, ap, ◌∙◌, ltb, ◌⊎◌,
}
use native.Mathlib.Nat.{
  mod-eq_of_lt, div-eq_of_lt, add-mod_right, div-lt_iff_lt-mul, le-div_iff_mul-le,
}
use native.Mathlib.Omega.{div_any}
use vexllvm.Support.Count.{
  top_bit, shift_left, ones_loop, zeros_loop, trailing_loop, cls32, cls64, ctz32, ctz64, clz32,
}

-- `v` is an odd number times 2 ^ k.
pub record HasTrailing (v k : ℕ) : Type 0 where
  pub half : ℕ
  pub value : v ≡ 2 ^ k * (2 * half + 1)

trailing_loop_lem :
    (fuel v ret : ℕ)
    → 0 < v
    → v < 2 ^ fuel
    → (k : ℕ) × (trailing_loop fuel v ret ≡ ret + k) × HasTrailing v k
unfolding trailing_loop
trailing_loop_lem zero v ret h b = absurd (omega arith)
trailing_loop_lem (suc fuel) v ret h b = elim (Bool-cases (v % 2 == 0)) [
  | inr odd ↦ (0, rw odd (omega arith), record { half = v / 2; value = ground arith })
  | inl even ↦
      let e : v ≡ v / 2 * 2 = ground arith in
      let (k, r, t) = trailing_loop_lem fuel (v / 2) (ret + 1) (ground arith) (ground arith) in
      (
        suc k,
        rw (even, r) (omega arith),
        record { half = t.half; value = double k t.half t.value e },
      )
]
  where
    double :
        (k : ℕ) {x : ℕ} (q : ℕ) → x ≡ 2 ^ k * (2 * q + 1) → v ≡ x * 2 → v ≡ 2 ^ suc k * (2 * q + 1)
    double k q h e = let p : 2 ^ suc k ≡ 2 * 2 ^ k = omega arith in grind arith

compare-cases : (a b : ℕ) → (a < b) ⊎ (b ≤ a)
compare-cases a b = elim (Bool-cases (ltb a b)) [
  | inl x ↦ inl (ground arith)
  | inr y ↦ inr (ground arith)
]

below_top : (half v : ℕ) → v < half → top_bit half v ≡ false
unfolding top_bit
below_top half v h = rw (div-eq_of_lt h) refl

at_top : (half v : ℕ) → half ≤ v → v < half * 2 → top_bit half v ≡ true
unfolding top_bit
at_top half v h k =
    let e : v / half ≡ 1 = grind (
      arith,
      div_any v half,
      div-lt_iff_lt-mul {k = half} {x = v} {y = 2},
      le-div_iff_mul-le {k = half} {x = 1} {y = v},
    ) in
    rw e refl

shift_below : (half v : ℕ) → v < half → shift_left half v ≡ v * 2
unfolding shift_left
shift_below half v h = mod-eq_of_lt (omega arith)

shift_at : (half v : ℕ) → half ≤ v → v < half * 2 → shift_left half v ≡ v * 2 - half * 2
unfolding shift_left
shift_at half v h k =
    let e : v * 2 ≡ v * 2 - half * 2 + half * 2 = omega arith in
    let small : v * 2 - half * 2 < half * 2 = omega arith in
    ap (λ x. x % (half * 2)) e ∙ (add-mod_right _ _ ∙ mod-eq_of_lt small)

zero_plus : (k : ℕ) → 0 + k ≡ k
zero_plus k = omega arith

double_step : (x k : ℕ) → x * 2 * 2 ^ k ≡ x * 2 ^ suc k
double_step x k = let p : 2 ^ suc k ≡ 2 * 2 ^ k = omega arith in grind arith

-- Doubling `v` k times makes its topmost bit the topmost bit of the word.
pub record HasLeading (half v k : ℕ) : Type 0 where
  pub reached : half ≤ v * 2 ^ k
  pub kept : v * 2 ^ k < half * 2

zeros_loop_lem :
    (fuel half v ret : ℕ)
    → 0 < v
    → v < half * 2
    → half ≤ v * 2 ^ fuel
    → (k : ℕ) × (zeros_loop fuel half v ret ≡ ret + k) × HasLeading half v k
unfolding zeros_loop
zeros_loop_lem zero half v ret h b enough =
    (0, omega arith, record { reached = enough; kept = omega arith })
zeros_loop_lem (suc fuel) half v ret h b enough = elim (compare-cases v half) [
  | inr high ↦ (
    0,
    rw (at_top half v high b) (omega arith),
    record { reached = omega arith; kept = omega arith },
  )
  | inl low ↦
      let more : half ≤ v * 2 * 2 ^ fuel = rw double_step enough in
      let (k, r, t) = zeros_loop_lem fuel half (v * 2) (ret + 1) (omega arith) (omega arith) more in
      (
        suc k,
        rw (below_top half v low, shift_below half v low, r) (omega arith),
        record { reached = rw (← double_step) t.reached; kept = rw (← double_step) t.kept },
      )
]

-- `v` lies m below 2 ^ w; k is the number of ones above its topmost zero.
pub record HasOnes (half m k : ℕ) : Type 0 where
  pub kept : m * 2 ^ k ≤ half * 2
  pub reached : half < m * 2 ^ k

ones_loop_lem :
    (fuel half v m ret : ℕ)
    → v + m ≡ half * 2
    → 0 < m
    → half < m * 2 ^ fuel
    → (k : ℕ) × (ones_loop fuel half v ret ≡ ret + k) × HasOnes half m k
unfolding ones_loop
ones_loop_lem zero half v m ret e h enough =
    (0, omega arith, record { kept = omega arith; reached = enough })
ones_loop_lem (suc fuel) half v m ret e h enough = elim (compare-cases v half) [
  | inl low ↦ (
    0,
    rw (below_top half v low) (omega arith),
    record { kept = omega arith; reached = omega arith },
  )
  | inr high ↦
      let more : half < m * 2 * 2 ^ fuel = rw double_step enough in
      let (k, r, t) =
        ones_loop_lem fuel half (v * 2 - half * 2) (m * 2) (ret + 1) (omega arith) (omega arith)
          more in
      (
        suc k,
        rw (at_top half v high (omega arith), shift_at half v high (omega arith), r) (omega arith),
        record { kept = rw (← double_step) t.kept; reached = rw (← double_step) t.reached },
      )
]

-- For a word below 2 ^ 32, vexop_ctz32 is 32 at 0, and otherwise the k for which the word is an
-- odd number times 2 ^ k.
pub ctz32_lem : (v : ℕ) → v < 2 ^ 32 → ((v ≡ 0) × (ctz32 v ≡ 32)) ⊎ HasTrailing v (ctz32 v)
unfolding ctz32
ctz32_lem v b = elim (Bool-cases (v == 0)) [
  | inl null ↦ rw null (inl (ground arith, refl))
  | inr other ↦
      let (k, r, t) = trailing_loop_lem 32 v 0 (ground arith) b in
      rw (other, r, zero_plus k) (inr t)
]

-- For a word below 2 ^ 32, vexop_clz32 is 32 at 0, and otherwise the k for which the word times
-- 2 ^ k is from 2 ^ 31 up to below 2 ^ 32.
pub clz32_lem : (v : ℕ) → v < 2 ^ 32 → ((v ≡ 0) × (clz32 v ≡ 32)) ⊎ HasLeading (2 ^ 31) v (clz32 v)
unfolding clz32
clz32_lem v b = elim (Bool-cases (v == 0)) [
  | inl null ↦ rw null (inl (ground arith, refl))
  | inr other ↦
      let (k, r, t) = zeros_loop_lem 32 (2 ^ 31) v 0 (ground arith) (omega arith) (ground arith) in
      rw (other, r, zero_plus k) (inr t)
]

-- For a word below 2 ^ 32, vexop_cls32 is 0 below 2 ^ 31, and otherwise the word lies m below 2
-- ^ 32 with m times 2 ^ (vexop_cls32 + 1) above 2 ^ 31 and at most 2 ^ 32.
pub cls32_lem :
    (v : ℕ)
    → v < 2 ^ 32
    → ((v < 2 ^ 31) × (cls32 v ≡ 0)) ⊎ HasOnes (2 ^ 31) (2 ^ 32 - v) (suc (cls32 v))
unfolding cls32
cls32_lem v b = elim (compare-cases v (2 ^ 31)) [
  | inl low ↦ rw (below_top (2 ^ 31) v low) (inl (low, refl))
  | inr high ↦
      let m : ℕ = 2 ^ 32 - v in
      let (k, r, t) =
        ones_loop_lem 32 (2 ^ 31) (v * 2 - 2 ^ 31 * 2) (m * 2) 0 (omega arith) (omega arith)
          (omega arith) in
      rw
        (
          at_top (2 ^ 31) v high (omega arith),
          shift_at (2 ^ 31) v high (omega arith),
          r,
          zero_plus k,
        )
        (inr (record { kept = rw (← double_step) t.kept; reached = rw (← double_step) t.reached }))
]

-- For a word below 2 ^ 64, vexop_ctz64 is 64 at 0, and otherwise the k for which the word is an
-- odd number times 2 ^ k.
pub ctz64_lem : (v : ℕ) → v < 2 ^ 64 → ((v ≡ 0) × (ctz64 v ≡ 64)) ⊎ HasTrailing v (ctz64 v)
unfolding ctz64
ctz64_lem v b = elim (Bool-cases (v == 0)) [
  | inl null ↦ rw null (inl (ground arith, refl))
  | inr other ↦
      let (k, r, t) = trailing_loop_lem 64 v 0 (ground arith) b in
      rw (other, r, zero_plus k) (inr t)
]

-- For a word below 2 ^ 64, vexop_cls64 is 0 below 2 ^ 63, and otherwise the word lies m below 2
-- ^ 64 with m times 2 ^ (vexop_cls64 + 1) above 2 ^ 63 and at most 2 ^ 64.
pub cls64_lem :
    (v : ℕ)
    → v < 2 ^ 64
    → ((v < 2 ^ 63) × (cls64 v ≡ 0)) ⊎ HasOnes (2 ^ 63) (2 ^ 64 - v) (suc (cls64 v))
unfolding cls64
cls64_lem v b = elim (compare-cases v (2 ^ 63)) [
  | inl low ↦ rw (below_top (2 ^ 63) v low) (inl (low, refl))
  | inr high ↦
      let m : ℕ = 2 ^ 64 - v in
      let (k, r, t) =
        ones_loop_lem 64 (2 ^ 63) (v * 2 - 2 ^ 63 * 2) (m * 2) 0 (omega arith) (omega arith)
          (omega arith) in
      rw
        (
          at_top (2 ^ 63) v high (omega arith),
          shift_at (2 ^ 63) v high (omega arith),
          r,
          zero_plus k,
        )
        (inr (record { kept = rw (← double_step) t.kept; reached = rw (← double_step) t.reached }))
]
