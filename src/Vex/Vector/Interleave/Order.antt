-- ===== src/Vex/Vector/Interleave/Order.antt =====
-- src/vexop.cc: the constant shuffles of EMIT_ILEAVE take the lanes of the two operands in turn.
use vexllvm.Base.{
  ℕ, zero, suc, ◌+◌, ◌-◌, ◌*◌, ◌<◌, ◌≤◌, ◌≡◌, refl, sym, arith, ap, ◌∙◌, List, [], ◌∷◌, some,
  get_elem?,
}
use vexllvm.Vex.Llvm.{vec, Builder}
use vexllvm.Vex.Llvm.Documented.{IsDocumented}
use vexllvm.Vex.Vector.Interleave

-- The type of an opcode's vectors; the first of the lanes that it takes.
abbrev pub lane_count : Interleave.Interleave → ℕ
lane_count Interleave.iop_interleavelo8x8 = 8
lane_count Interleave.iop_interleavehi8x8 = 8
lane_count Interleave.iop_interleavelo8x16 = 16
lane_count Interleave.iop_interleavehi8x16 = 16
lane_count Interleave.iop_interleavelo16x4 = 4
lane_count Interleave.iop_interleavehi16x4 = 4
lane_count Interleave.iop_interleavelo16x8 = 8
lane_count Interleave.iop_interleavehi16x8 = 8
lane_count Interleave.iop_interleavelo32x2 = 2
lane_count Interleave.iop_interleavehi32x2 = 2
lane_count Interleave.iop_interleavelo32x4 = 4
lane_count Interleave.iop_interleavehi32x4 = 4
lane_count Interleave.iop_interleavelo64x2 = 2
lane_count Interleave.iop_interleavehi64x2 = 2

abbrev pub lane_width : Interleave.Interleave → ℕ
lane_width Interleave.iop_interleavelo8x8 = 8
lane_width Interleave.iop_interleavehi8x8 = 8
lane_width Interleave.iop_interleavelo8x16 = 8
lane_width Interleave.iop_interleavehi8x16 = 8
lane_width Interleave.iop_interleavelo16x4 = 16
lane_width Interleave.iop_interleavehi16x4 = 16
lane_width Interleave.iop_interleavelo16x8 = 16
lane_width Interleave.iop_interleavehi16x8 = 16
lane_width Interleave.iop_interleavelo32x2 = 32
lane_width Interleave.iop_interleavehi32x2 = 32
lane_width Interleave.iop_interleavelo32x4 = 32
lane_width Interleave.iop_interleavehi32x4 = 32
lane_width Interleave.iop_interleavelo64x2 = 64
lane_width Interleave.iop_interleavehi64x2 = 64

abbrev pub first_lane : Interleave.Interleave → ℕ
first_lane Interleave.iop_interleavelo8x8 = 0
first_lane Interleave.iop_interleavehi8x8 = 4
first_lane Interleave.iop_interleavelo8x16 = 0
first_lane Interleave.iop_interleavehi8x16 = 8
first_lane Interleave.iop_interleavelo16x4 = 0
first_lane Interleave.iop_interleavehi16x4 = 2
first_lane Interleave.iop_interleavelo16x8 = 0
first_lane Interleave.iop_interleavehi16x8 = 4
first_lane Interleave.iop_interleavelo32x2 = 0
first_lane Interleave.iop_interleavehi32x2 = 1
first_lane Interleave.iop_interleavelo32x4 = 0
first_lane Interleave.iop_interleavehi32x4 = 2
first_lane Interleave.iop_interleavelo64x2 = 0
first_lane Interleave.iop_interleavehi64x2 = 1

-- a, c, a + 1, c + 1 and so on, n of each
pairs : ℕ → ℕ → ℕ → List ℕ
pairs zero a c = []
pairs (suc n) a c = a ∷ c ∷ pairs n (suc a) (suc c)

pairs_even : (n a c i : ℕ) → i < n → get_elem? (pairs n a c) (2 * i) ≡ some (a + i)
unfolding pairs
pairs_even zero a c i h = absurd (omega arith)
pairs_even (suc n) a c zero h = ap some (omega arith)
pairs_even (suc n) a c (suc i) h =
    let e : 2 * suc i ≡ suc (suc (2 * i)) = omega arith in
    rw e (pairs_even n (suc a) (suc c) i (omega arith) ∙ ap some (omega arith))

pairs_odd : (n a c i : ℕ) → i < n → get_elem? (pairs n a c) (suc (2 * i)) ≡ some (c + i)
unfolding pairs
pairs_odd zero a c i h = absurd (omega arith)
pairs_odd (suc n) a c zero h = ap some (omega arith)
pairs_odd (suc n) a c (suc i) h =
    let e : 2 * suc i ≡ suc (suc (2 * i)) = omega arith in
    rw e (pairs_odd n (suc a) (suc c) i (omega arith) ∙ ap some (omega arith))

module _ {V : Type 0} {b : Builder V} (laws : IsDocumented b) where
  ileave_lanes :
      (mask : List ℕ) (n w start half : ℕ) (v1 v2 : V) (i : ℕ)
      → mask ≡ pairs half (n + start) start
      → start + half ≤ n
      → i < half
      → (b.lane (Interleave.ileave b mask (vec n w) v1 v2) (2 * i)
          ≡ b.lane (b.create_bit_cast v2 (vec n w)) (start + i))
        × (b.lane (Interleave.ileave b mask (vec n w) v1 v2) (suc (2 * i))
            ≡ b.lane (b.create_bit_cast v1 (vec n w)) (start + i))
  unfolding Interleave.ileave
  ileave_lanes mask n w start half v1 v2 i e bound h =
      let x = b.create_bit_cast v1 (vec n w) in
      let y = b.create_bit_cast v2 (vec n w) in
      let tx = laws.bit_cast-type v1 (vec n w) in
      let same : b.type_of x ≡ b.type_of y = tx ∙ sym (laws.bit_cast-type v2 (vec n w)) in
      let right = laws.shuffle-right x y mask (2 * i) (n + start + i) same in
      let left = laws.shuffle-left x y mask (suc (2 * i)) (start + i) same in
      let back : n + start + i - n ≡ start + i = omega arith in
      (
        (rw tx at right) (ap (λ l. get_elem? l (2 * i)) e ∙ pairs_even half (n + start) start i h)
              (omega arith) (omega arith)
            ∙ ap (b.lane y) back,
        (rw tx at left)
            (ap (λ l. get_elem? l (suc (2 * i))) e ∙ pairs_odd half (n + start) start i h)
            (omega arith),
      )

  -- In the vectors of an interleaving opcode, for every i below half the number of lanes, the
  -- result's lane 2 i is the second operand's lane i, counted from the first lane of the half
  -- that the opcode names, and the result's lane 2 i + 1 is the first operand's lane at that
  -- place.
  pub emit_interleave_lem :
      (op : Interleave.Interleave) (v1 v2 : V) (i : ℕ)
      → 2 * i < lane_count op
      → (b.lane (Interleave.emit_interleave b op v1 v2) (2 * i)
          ≡ b.lane (b.create_bit_cast v2 (vec (lane_count op) (lane_width op))) (first_lane op + i))
        × (b.lane (Interleave.emit_interleave b op v1 v2) (suc (2 * i))
            ≡ b.lane
                (b.create_bit_cast v1 (vec (lane_count op) (lane_width op)))
                (first_lane op + i))
  unfolding Interleave.emit_interleave pairs
  emit_interleave_lem Interleave.iop_interleavelo8x8 v1 v2 i h =
      ileave_lanes _ 8 8 0 4 v1 v2 i refl (omega arith) (omega arith)
  emit_interleave_lem Interleave.iop_interleavehi8x8 v1 v2 i h =
      ileave_lanes _ 8 8 4 4 v1 v2 i refl (omega arith) (omega arith)
  emit_interleave_lem Interleave.iop_interleavelo8x16 v1 v2 i h =
      ileave_lanes _ 16 8 0 8 v1 v2 i refl (omega arith) (omega arith)
  emit_interleave_lem Interleave.iop_interleavehi8x16 v1 v2 i h =
      ileave_lanes _ 16 8 8 8 v1 v2 i refl (omega arith) (omega arith)
  emit_interleave_lem Interleave.iop_interleavelo16x4 v1 v2 i h =
      ileave_lanes _ 4 16 0 2 v1 v2 i refl (omega arith) (omega arith)
  emit_interleave_lem Interleave.iop_interleavehi16x4 v1 v2 i h =
      ileave_lanes _ 4 16 2 2 v1 v2 i refl (omega arith) (omega arith)
  emit_interleave_lem Interleave.iop_interleavelo16x8 v1 v2 i h =
      ileave_lanes _ 8 16 0 4 v1 v2 i refl (omega arith) (omega arith)
  emit_interleave_lem Interleave.iop_interleavehi16x8 v1 v2 i h =
      ileave_lanes _ 8 16 4 4 v1 v2 i refl (omega arith) (omega arith)
  emit_interleave_lem Interleave.iop_interleavelo32x2 v1 v2 i h =
      ileave_lanes _ 2 32 0 1 v1 v2 i refl (omega arith) (omega arith)
  emit_interleave_lem Interleave.iop_interleavehi32x2 v1 v2 i h =
      ileave_lanes _ 2 32 1 1 v1 v2 i refl (omega arith) (omega arith)
  emit_interleave_lem Interleave.iop_interleavelo32x4 v1 v2 i h =
      ileave_lanes _ 4 32 0 2 v1 v2 i refl (omega arith) (omega arith)
  emit_interleave_lem Interleave.iop_interleavehi32x4 v1 v2 i h =
      ileave_lanes _ 4 32 2 2 v1 v2 i refl (omega arith) (omega arith)
  emit_interleave_lem Interleave.iop_interleavelo64x2 v1 v2 i h =
      ileave_lanes _ 2 64 0 1 v1 v2 i refl (omega arith) (omega arith)
  emit_interleave_lem Interleave.iop_interleavehi64x2 v1 v2 i h =
      ileave_lanes _ 2 64 1 1 v1 v2 i refl (omega arith) (omega arith)
