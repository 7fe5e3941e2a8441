-- ===== src/Vex/Vector/Saturate/Narrowed.antt =====
-- src/vexop.cc: the lanes of OPNRWSS_EMIT.
use vexllvm.Base.{
  ℕ, zero, suc, ◌+◌, ◌-◌, ◌/◌, ◌%◌, ◌^◌, ◌<◌, ◌≤◌, ◌≡◌, refl, arith, ap, ◌∙◌, inl, inr, Bool-cases,
  ◌==◌, Bool, true, false, if◌then◌else◌,
}
use vexllvm.Vex.Llvm.{vec, Builder, icmp_sgt, icmp_slt}
use vexllvm.Vex.Llvm.Words.{test}
use vexllvm.Vex.Llvm.Documented.{IsDocumented}
use vexllvm.Vex.Llvm.Scalars.{IsWord, IsWord-constant, IsWord-select, IsWord-trunc}
use vexllvm.Vex.Vector.Lanes.Averaged.{ordered}
use vexllvm.Vex.Vector.Lanes.Loop.{
  constant-is, fill_type, fill_lanes, IsVector-bit_cast, IsVector-element,
}
use vexllvm.Vex.Vector.Lanes.{zeros}
use vexllvm.Vex.Vector.Saturate
use vexllvm.Vex.Vector.Saturate.Clamped.{biased, clamped}
use vexllvm.Vex.Vector.Saturate.Limits.{operand, operand-bound}

-- Whether the opcode's result is signed, the lanes of each operand, and their bits.
abbrev pub narrow_signed : Saturate.Narrow → Bool
narrow_signed Saturate.iop_qnarrowbin16sto8sx8 = true
narrow_signed Saturate.iop_qnarrowbin16sto8sx16 = true
narrow_signed Saturate.iop_qnarrowbin32sto16sx4 = true
narrow_signed Saturate.iop_qnarrowbin32sto16sx8 = true
narrow_signed _ = false

abbrev pub narrow_lanes : Saturate.Narrow → ℕ
narrow_lanes Saturate.iop_qnarrowun16sto8ux8 = 4
narrow_lanes Saturate.iop_qnarrowbin16sto8ux16 = 8
narrow_lanes Saturate.iop_qnarrowbin16sto8ux8 = 4
narrow_lanes Saturate.iop_qnarrowbin32sto16ux8 = 4
narrow_lanes Saturate.iop_qnarrowbin16sto8sx8 = 4
narrow_lanes Saturate.iop_qnarrowbin16sto8sx16 = 8
narrow_lanes Saturate.iop_qnarrowbin32sto16sx4 = 2
narrow_lanes Saturate.iop_qnarrowbin32sto16sx8 = 4

abbrev pub narrow_width : Saturate.Narrow → ℕ
narrow_width Saturate.iop_qnarrowbin32sto16ux8 = 32
narrow_width Saturate.iop_qnarrowbin32sto16sx4 = 32
narrow_width Saturate.iop_qnarrowbin32sto16sx8 = 32
narrow_width _ = 16

-- What the selections of OPNRWSS_EMIT make of a word of u bits, cut to w bits.
abbrev limited : ℕ → ℕ → ℕ → ℕ → ℕ → ℕ
limited u w c d x =
    let e = if test icmp_sgt u x (c % 2 ^ u) then c % 2 ^ u else x in
    (if test icmp_slt u e (d % 2 ^ u) then d % 2 ^ u else e) % 2 ^ w

-- The signed number of a word of u bits, clamped to the signed or unsigned numbers of half the
-- bits: both sides are moved up where they are signed.
abbrev pub IsNarrowed : Bool → ℕ → ℕ → ℕ → Type 0
IsNarrowed s u x r =
    ordered s (u / 2) r
    ≡ clamped (u / 2) (biased u x + (if s then 2 ^ (u / 2) / 2 else 0) - 2 ^ u / 2)

unsigned16 : (x : ℕ) → x < 2 ^ 16 → IsNarrowed false 16 x (limited 16 8 0xFF 0 x)
unfolding test
unsigned16 x h = ground arith

unsigned32 : (x : ℕ) → x < 2 ^ 32 → IsNarrowed false 32 x (limited 32 16 0xFFFF 0 x)
unfolding test
unsigned32 x h = ground arith

signed16 : (x : ℕ) → x < 2 ^ 16 → IsNarrowed true 16 x (limited 16 8 0x7F 0xFF80 x)
unfolding test
signed16 x h = ground arith

signed32 : (x : ℕ) → x < 2 ^ 32 → IsNarrowed true 32 x (limited 32 16 0x7FFF 0xFFFF8000 x)
unfolding test
signed32 x h = ground arith

module _ {V : Type 0} {b : Builder V} (laws : IsDocumented b) where
  above_type :
      (base n : ℕ) (r : V) (elem : ℕ → V)
      → b.type_of (Saturate.fill_above b base n r elem) ≡ b.type_of r
  unfolding Saturate.fill_above
  above_type base zero r elem = refl
  above_type base (suc n) r elem = laws.insert-type _ _ _ ∙ above_type base n r elem

  -- The second loop leaves the lanes below its base alone.
  below_kept :
      (base n : ℕ) (r : V) (elem : ℕ → V)
      → base + n ≤ 2 ^ 32
      → (i : ℕ) → i < base
      → b.lane (Saturate.fill_above b base n r elem) i ≡ b.lane r i
  unfolding Saturate.fill_above
  below_kept base zero r elem large i l = refl
  below_kept base (suc n) r elem large i l =
      let law =
        laws.insert-other (Saturate.fill_above b base n r elem) (elem n) (b.constant 32 (n + base))
          i in
      (rw (constant-is laws (n + base) (omega arith)) at law) (ground arith)
      ∙ below_kept base n r elem (omega arith) i l

  above_filled :
      (base n : ℕ) {m w : ℕ} (r : V) (elem : ℕ → V) (f : ℕ → ℕ)
      → b.type_of r ≡ vec m w
      → base + n ≤ m
      → m ≤ 2 ^ 32
      → ((i : ℕ) → i < n → IsWord b (elem i) w (f i))
      → (i : ℕ) → i < n
      → b.lane (Saturate.fill_above b base n r elem) (i + base) ≡ f i
  unfolding Saturate.fill_above
  above_filled base zero r elem f t bound large words i l = absurd (omega arith)
  above_filled base (suc n) {m} {w} r elem f t bound large words i l =
      let so_far = Saturate.fill_above b base n r elem in
      let type = above_type base n r elem ∙ t in
      let k = b.constant 32 (n + base) in
      let k_is = constant-is laws (n + base) (omega arith) in
      elim (Bool-cases (i == n)) [
        | inl here ↦
            let law = laws.insert-here so_far (elem n) k in
            let e : i ≡ n = ground arith in
            let w_n = words n (omega arith) in
            rw e ((rw (k_is, type) at law) (omega arith) w_n.has_type ∙ w_n.holds)
        | inr other ↦
            let law = laws.insert-other so_far (elem n) k (i + base) in
            (rw k_is at law) (ground arith)
            ∙ above_filled base n r elem f t (omega arith) large (λ j p. words j (omega arith)) i
                (ground arith)
      ]

  IsWord-clamp :
      (n u w c d x : ℕ) (e : V)
      → IsWord b e u x
      → IsWord b
          (Saturate.clamp b (vec n w) (b.constant u c) (b.constant u d) e)
          w
          (limited u w c d x)
  unfolding Saturate.clamp
  IsWord-clamp n u w c d x e h =
      let hi = IsWord-constant laws u c in
      let lo = IsWord-constant laws u d in
      let below = IsWord-select laws icmp_sgt h hi hi h in
      IsWord-trunc laws w (IsWord-select laws icmp_slt below lo lo below)

  -- The low half of the result comes from the second operand, the high half from the first.
  narrow_halves :
      (n u w c d : ℕ) (v1 v2 : V)
      → n + n ≤ 2 ^ 32
      → (i : ℕ) → i < n
      → (b.lane
            (Saturate.opnrwss b (vec n u) (vec (n + n) w) (b.constant u c) (b.constant u d) v1 v2)
            i
          ≡ limited u w c d (operand b v2 n u i))
        × (b.lane
              (Saturate.opnrwss b (vec n u) (vec (n + n) w) (b.constant u c) (b.constant u d) v1 v2)
              (i + n)
            ≡ limited u w c d (operand b v1 n u i))
  unfolding Saturate.opnrwss zeros
  narrow_halves n u w c d v1 v2 large i l =
      let x = IsVector-bit_cast laws v1 n u in
      let y = IsVector-bit_cast laws v2 n u in
      let t = laws.bit_cast-type _ (vec (n + n) w) in
      let low = λ (j : ℕ) (p : j < n).
        IsWord-clamp (n + n) u w c d _ _ (IsVector-element laws j (omega arith) y p) in
      let high = λ (j : ℕ) (p : j < n).
        IsWord-clamp (n + n) u w c d _ _ (IsVector-element laws j (omega arith) x p) in
      (
        below_kept n n _ _ large i l ∙ fill_lanes laws n _ _ _ t (omega arith) large low i l,
        above_filled n n _ _ _ (fill_type laws n _ _ ∙ t) (omega arith) large high i l,
      )

  narrows :
      (s : Bool) (n u c d : ℕ) (v1 v2 : V)
      → ((x : ℕ) → x < 2 ^ u → IsNarrowed s u x (limited u (u / 2) c d x))
      → n + n ≤ 2 ^ 32
      → (i : ℕ) → i < n
      → IsNarrowed s u (operand b v2 n u i) (
          b.lane
            (Saturate.opnrwss b
              (vec n u)
              (vec (n + n) (u / 2))
              (b.constant u c)
              (b.constant u d)
              v1
              v2)
            i)
        × IsNarrowed s u (operand b v1 n u i) (
            b.lane
              (Saturate.opnrwss b
                (vec n u)
                (vec (n + n) (u / 2))
                (b.constant u c)
                (b.constant u d)
                v1
                v2)
              (i + n))
  narrows s n u c d v1 v2 rounds large i l =
      let halves = narrow_halves n u (u / 2) c d v1 v2 large i l in
      (
        ap (ordered s (u / 2)) halves.0 ∙ rounds _ (operand-bound laws v2 n u i),
        ap (ordered s (u / 2)) halves.1 ∙ rounds _ (operand-bound laws v1 n u i),
      )

  -- For every i below the lanes of an operand, the result of a saturating narrowing has in its
  -- lane i the second operand's lane i, and in its lane i + n, with n lanes in an operand, the
  -- first operand's lane i, each read as a signed number and clamped to the signed or unsigned
  -- numbers of half the bits, as the opcode says.
  pub emit_narrow_lem :
      (op : Saturate.Narrow) (v1 v2 : V) (i : ℕ)
      → i < narrow_lanes op
      → IsNarrowed
          (narrow_signed op)
          (narrow_width op)
          (operand b v2 (narrow_lanes op) (narrow_width op) i)
          (b.lane (Saturate.emit_narrow b op v1 v2) i)
        × IsNarrowed
            (narrow_signed op)
            (narrow_width op)
            (operand b v1 (narrow_lanes op) (narrow_width op) i)
            (b.lane (Saturate.emit_narrow b op v1 v2) (i + narrow_lanes op))
  unfolding Saturate.emit_narrow
  emit_narrow_lem Saturate.iop_qnarrowun16sto8ux8 v1 v2 =
      narrows false 4 16 0xFF 0 v1 v2 unsigned16 (omega arith)
  emit_narrow_lem Saturate.iop_qnarrowbin16sto8ux16 v1 v2 =
      narrows false 8 16 0xFF 0 v1 v2 unsigned16 (omega arith)
  emit_narrow_lem Saturate.iop_qnarrowbin16sto8ux8 v1 v2 =
      narrows false 4 16 0xFF 0 v1 v2 unsigned16 (omega arith)
  emit_narrow_lem Saturate.iop_qnarrowbin32sto16ux8 v1 v2 =
      narrows false 4 32 0xFFFF 0 v1 v2 unsigned32 (omega arith)
  emit_narrow_lem Saturate.iop_qnarrowbin16sto8sx8 v1 v2 =
      narrows true 4 16 0x7F 0xFF80 v1 v2 signed16 (omega arith)
  emit_narrow_lem Saturate.iop_qnarrowbin16sto8sx16 v1 v2 =
      narrows true 8 16 0x7F 0xFF80 v1 v2 signed16 (omega arith)
  emit_narrow_lem Saturate.iop_qnarrowbin32sto16sx4 v1 v2 =
      narrows true 2 32 0x7FFF 0xFFFF8000 v1 v2 signed32 (omega arith)
  emit_narrow_lem Saturate.iop_qnarrowbin32sto16sx8 v1 v2 =
      narrows true 4 32 0x7FFF 0xFFFF8000 v1 v2 signed32 (omega arith)
