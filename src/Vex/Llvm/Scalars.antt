-- ===== src/Vex/Llvm/Scalars.antt =====
-- The builder's operations on values of integer type, as rules on the words that they hold.
use vexllvm.Base.{
  ℕ, ◌%◌, ◌^◌, ◌<◌, ◌≡◌, refl, sym, ap, arith, ◌∙◌, Bool-cases, inl, inr, if◌then◌else◌,
}
use vexllvm.Vex.Llvm.{int, width, Builder, Binary, Predicate, Cast, zext, trunc}
use vexllvm.Vex.Llvm.Words.{word, IsDefined, cast, extend, test}
use vexllvm.Vex.Llvm.Documented.{IsDocumented, bit}
use native.Mathlib.Nat.{mod-eq_of_lt}

-- `v` is an integer of w bits that holds x.
pub record IsWord {V : Type 0} (b : Builder V) (v : V) (w x : ℕ) : Type 0 where
  pub has_type : b.type_of v ≡ int w
  pub holds : b.lane v 0 ≡ x

module _ {V : Type 0} {b : Builder V} (laws : IsDocumented b) where
  pub IsWord-bound : {v : V} {w x : ℕ} → IsWord b v w x → x < 2 ^ w
  IsWord-bound {v} {w} {x} h =
      let bound = laws.lane-bound v 0 in
      let e = ap width h.has_type in rw (← h.holds) (rw e at bound)

  pub IsWord-change : {v : V} {w x y : ℕ} → IsWord b v w x → x ≡ y → IsWord b v w y
  IsWord-change h e = record { has_type = h.has_type; holds = h.holds ∙ e }

  pub IsWord-constant : (w x : ℕ) → IsWord b (b.constant w x) w (x % 2 ^ w)
  IsWord-constant w x = record { has_type = laws.constant-type w x; holds = laws.constant-lane w x }

  pub IsWord-create :
      (op : Binary) {v1 v2 : V} {w x y : ℕ}
      → IsWord b v1 w x
      → IsWord b v2 w y
      → IsDefined op w x y
      → IsWord b (b.create op v1 v2) w (word op w x y)
  IsWord-create op {v1} {v2} {w} {x} {y} h k defined =
      let same = h.has_type ∙ sym k.has_type in
      record {
        has_type = laws.create-type op v1 v2 same ∙ h.has_type;
        holds =
            let law = laws.create-lane op v1 v2 0 in
            (rw (h.has_type, k.has_type, h.holds, k.holds) at law) refl (omega arith) defined;
      }

  pub IsWord-cast :
      (c : Cast) {v : V} {u x : ℕ} (w : ℕ)
      → IsWord b v u x
      → IsWord b (b.create_cast c v (int w)) w (cast c u w x)
  IsWord-cast c {v} {u} {x} w h = record {
    has_type = laws.cast-type c v (int w);
    holds =
        let law = laws.cast-lane c v (int w) 0 in
        (rw (h.has_type, h.holds) at law) refl (omega arith);
  }

  pub IsWord-bit_cast :
      {v : V} {w x : ℕ} → IsWord b v w x → IsWord b (b.create_bit_cast v (int w)) w x
  IsWord-bit_cast {v} {w} {x} h = let same = laws.bit_cast-same v in rw (rw h.has_type at same) h

  -- Widening keeps the number, and a number that fits keeps its value in any cast but `sext`.
  pub IsWord-zext :
      {v : V} {u x : ℕ} (w : ℕ)
      → IsWord b v u x
      → x < 2 ^ w
      → IsWord b (b.create_cast zext v (int w)) w x
  unfolding extend
  IsWord-zext w h fits = IsWord-change (IsWord-cast zext w h) (mod-eq_of_lt fits)

  pub IsWord-trunc :
      {v : V} {u x : ℕ} (w : ℕ)
      → IsWord b v u x
      → IsWord b (b.create_cast trunc v (int w)) w (x % 2 ^ w)
  unfolding extend
  IsWord-trunc w h = IsWord-cast trunc w h

  pub IsWord-icmp :
      (p : Predicate) {v1 v2 : V} {w x y : ℕ}
      → IsWord b v1 w x
      → IsWord b v2 w y
      → b.lane (b.create_icmp p v1 v2) 0 ≡ bit (test p w x y)
  IsWord-icmp p {v1} {v2} h k =
      let law = laws.icmp-lane p v1 v2 0 in
      (rw (h.has_type, k.has_type, h.holds, k.holds) at law) refl (omega arith)

  -- A selection by a comparison.
  pub IsWord-select :
      (p : Predicate) {v1 v2 c d : V} {w x y s t : ℕ}
      → IsWord b v1 w x
      → IsWord b v2 w y
      → IsWord b c w s
      → IsWord b d w t
      → IsWord b (b.create_select (b.create_icmp p v1 v2) c d) w (if test p w x y then s else t)
  IsWord-select p {v1} {v2} {c} {d} {w} {x} {y} h k l m = elim (Bool-cases (test p w x y)) [
    | inl taken ↦
        let e = laws.select-true (b.create_icmp p v1 v2) c d (IsWord-icmp p h k ∙ ap bit taken) in
        rw (taken, e) l
    | inr other ↦
        let e = laws.select-false (b.create_icmp p v1 v2) c d (IsWord-icmp p h k ∙ ap bit other) in
        rw (other, e) m
  ]

  pub IsWord-flag :
      (p : Predicate) {v1 v2 : V} {w x y : ℕ}
      → IsWord b v1 w x
      → IsWord b v2 w y
      → IsWord b (b.create_icmp p v1 v2) 1 (bit (test p w x y))
  IsWord-flag p {v1} {v2} h k =
      let type = laws.icmp-type p v1 v2 in
      record { has_type = rw h.has_type at type; holds = IsWord-icmp p h k }
