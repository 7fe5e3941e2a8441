-- ===== src/Vex/Vector/Lanes/Loop.antt =====
-- src/vexop.cc: the loops that insert one element after the other, and the lanes of what the
-- builder makes of vectors.
use vexllvm.Base.{
  ℕ, zero, suc, ◌^◌, ◌<◌, ◌≤◌, ◌≡◌, refl, sym, arith, ◌∙◌, inl, inr, Bool-cases, ◌==◌,
}
use vexllvm.Vex.Llvm.{vec, Builder, Binary, Cast}
use vexllvm.Vex.Llvm.Words.{word, cast, IsDefined}
use vexllvm.Vex.Llvm.Documented.{IsDocumented}
use vexllvm.Vex.Llvm.Scalars.{IsWord}
use vexllvm.Vex.Vector.Lanes.{fill, zeros, element}
use native.Mathlib.Nat.{mod-eq_of_lt}

-- `v` has n lanes of w bits, and f gives what they hold.
pub record IsVector {V : Type 0} (b : Builder V) (v : V) (n w : ℕ) (f : ℕ → ℕ) : Type 0 where
  pub has_type : b.type_of v ≡ vec n w
  pub holds : (i : ℕ) → i < n → b.lane v i ≡ f i

module _ {V : Type 0} {b : Builder V} (laws : IsDocumented b) where
  pub constant-is : (n : ℕ) → n < 2 ^ 32 → b.lane (b.constant 32 n) 0 ≡ n
  constant-is n h = laws.constant-lane 32 n ∙ mod-eq_of_lt h

  pub IsVector-cast :
      (c : Cast) {v : V} {n u : ℕ} {f : ℕ → ℕ} (w : ℕ)
      → IsVector b v n u f
      → IsVector b (b.create_cast c v (vec n w)) n w (λ i. cast c u w (f i))
  IsVector-cast c {v} {n} {u} {f} w h = record {
    has_type = laws.cast-type c v (vec n w);
    holds = λ i l.
        let law = laws.cast-lane c v (vec n w) i in (rw (h.has_type, h.holds i l) at law) refl l;
  }

  pub IsVector-create :
      (op : Binary) {v1 v2 : V} {n w : ℕ} {f g : ℕ → ℕ}
      → ((x y : ℕ) → IsDefined op w x y)
      → IsVector b v1 n w f
      → IsVector b v2 n w g
      → IsVector b (b.create op v1 v2) n w (λ i. word op w (f i) (g i))
  IsVector-create op {v1} {v2} {n} {w} {f} {g} defined h k = record {
    has_type = laws.create-type op v1 v2 (h.has_type ∙ sym k.has_type) ∙ h.has_type;
    holds = λ i l.
        let law = laws.create-lane op v1 v2 i in
        (rw (h.has_type, k.has_type, h.holds i l, k.holds i l) at law) refl l (defined _ _);
  }

  pub IsVector-bit_cast :
      (v : V) (n w : ℕ)
      → IsVector b (b.create_bit_cast v (vec n w)) n w (b.lane (b.create_bit_cast v (vec n w)))
  IsVector-bit_cast v n w = record {
    has_type = laws.bit_cast-type v (vec n w);
    holds = λ i l. refl;
  }

  pub IsVector-element :
      {v : V} {n w : ℕ} {f : ℕ → ℕ} (i : ℕ)
      → n ≤ 2 ^ 32
      → IsVector b v n w f
      → i < n
      → IsWord b (element b v i) w (f i)
  unfolding element
  IsVector-element {v} {n} {w} {f} i large h l =
      let k = b.constant 32 i in
      let type = laws.extract-type v k in
      let law = laws.extract-lane v k in
      record {
        has_type = rw h.has_type at type;
        holds = (rw (constant-is i (omega arith), h.has_type) at law) l ∙ h.holds i l;
      }

  pub fill_type : (n : ℕ) (r : V) (elem : ℕ → V) → b.type_of (fill b n r elem) ≡ b.type_of r
  unfolding fill
  fill_type zero r elem = refl
  fill_type (suc n) r elem = laws.insert-type _ _ _ ∙ fill_type n r elem

  pub fill_lanes :
      (n : ℕ) {m w : ℕ} (r : V) (elem : ℕ → V) (f : ℕ → ℕ)
      → b.type_of r ≡ vec m w
      → n ≤ m
      → m ≤ 2 ^ 32
      → ((i : ℕ) → i < n → IsWord b (elem i) w (f i))
      → (i : ℕ) → i < n
      → b.lane (fill b n r elem) i ≡ f i
  unfolding fill
  fill_lanes zero r elem f t bound large words i l = absurd (omega arith)
  fill_lanes (suc n) {m} {w} r elem f t bound large words i l =
      let so_far = fill b n r elem in
      let type = fill_type n r elem ∙ t in
      let k = b.constant 32 n in
      let k_is = constant-is n (omega arith) in
      elim (Bool-cases (i == n)) [
        | inl here ↦
            let law = laws.insert-here so_far (elem n) k in
            let e : i ≡ n = ground arith in
            let w_n = words n (omega arith) in
            rw e ((rw (k_is, type) at law) (omega arith) w_n.has_type ∙ w_n.holds)
        | inr other ↦
            let law = laws.insert-other so_far (elem n) k i in
            (rw k_is at law) (ground arith)
            ∙ fill_lanes n r elem f t (omega arith) large (λ j p. words j (omega arith)) i
                (ground arith)
      ]

  -- A loop over all lanes, from zeros.
  pub IsVector-fill :
      (n w : ℕ) (elem : ℕ → V) (f : ℕ → ℕ)
      → n ≤ 2 ^ 32
      → ((i : ℕ) → i < n → IsWord b (elem i) w (f i))
      → IsVector b (fill b n (zeros b (vec n w)) elem) n w f
  unfolding zeros
  IsVector-fill n w elem f large words =
      let t = laws.bit_cast-type _ (vec n w) in
      record {
        has_type = fill_type n _ elem ∙ t;
        holds = fill_lanes n _ elem f t (omega arith) large words;
      }
