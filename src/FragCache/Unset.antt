-- ===== src/FragCache/Unset.antt =====
-- src/fragcache.cc: what a lookup in the table of hashes answers for a fragment that was added.
use vexllvm.Base.{
  ℕ, zero, suc, ◌+◌, ◌-◌, ◌<◌, ◌≤◌, ◌≡◌, ◌≢◌, refl, sym, arith, ap, ◌∙◌, true, false, [], ◌∷◌, ok,
  ◌==◌, if◌then◌else◌,
}
use vexllvm.Base.Int.{ℤ, pos}
use vexllvm.FragCache.Hash.{
  is_answer, HashLibc, Hash, not_found, bytes_from, find_hash_rec, rec_at, answer_of,
  find_hash_in_file, find_hash_in_pending, find_hash, lookup_from, lookup, add_hash,
}

abbrev pub empty : Hash
empty = record { f_mmap = []; pending = [] }

-- One pending record.
abbrev one_record : ℕ → ℕ → Hash
one_record d u = record { f_mmap = []; pending = (record { md = d; len = u }, not_found) ∷ [] }

equal : (d : ℕ) → (d == d) ≡ true
equal d = ground arith

unequal : {d e : ℕ} → e ≢ d → (d == e) ≡ false
unequal h = ground arith

positive_answer : (u : ℕ) (rest : ℤ) → 0 < u → (if is_answer (pos u) then pos u else rest) ≡ pos u
positive_answer zero rest h = absurd (omega arith)
positive_answer (suc u) rest h = refl

module _ (c : HashLibc) where
  lookup_from-empty : (i left : ℕ) (p : ℕ → ℕ) → lookup_from c i left p empty ≡ not_found
  unfolding lookup_from find_hash find_hash_in_file find_hash_rec rec_at answer_of
      find_hash_in_pending
  lookup_from-empty i zero p = refl
  lookup_from-empty i (suc left) p = lookup_from-empty (suc i) left p

  lookup_from-one :
      (i left k u : ℕ) (p : ℕ → ℕ) (d : ℕ)
      → k < left
      → 0 < u
      → ((j : ℕ) → i < j → j < i + k + 1 → c.sha1 (bytes_from p j) ≢ d)
      → c.sha1 (bytes_from p (i + k + 1)) ≡ d
      → lookup_from c i left p (one_record d u) ≡ pos u
  unfolding lookup_from find_hash find_hash_in_file find_hash_rec rec_at answer_of
      find_hash_in_pending
  lookup_from-one i zero k u p d h more other found = absurd (omega arith)
  lookup_from-one i (suc left) zero u p d h more other found =
      let here : i + 0 + 1 ≡ i + 1 = omega arith in
      let hit : (d == c.sha1 (bytes_from p (i + 1))) ≡ true = rw (← found, here) (equal _) in
      rw hit (positive_answer u _ more)
  lookup_from-one i (suc left) (suc k) u p d h more other found =
      let miss : (d == c.sha1 (bytes_from p (i + 1))) ≡ false =
        unequal (other (i + 1) (omega arith) (omega arith)) in
      let there : i + suc k + 1 ≡ suc i + k + 1 = omega arith in
      rw miss (
        lookup_from-one (suc i) left k u p d (omega arith) more
          (λ j a b. other j (omega arith) (omega arith))
          (ap (λ n. c.sha1 (bytes_from p n)) (sym there) ∙ found))

  -- In an empty table, let a fragment of at least two bytes be added, of whose prefixes from
  -- two bytes on no shorter one has its digest. A lookup that tries its length then answers the
  -- value that the record's length happened to have, where that is positive, whatever the
  -- length is.
  pub lookup-add_hash :
      (unset len max_len : ℕ) (p : ℕ → ℕ)
      → 2 ≤ len
      → len ≤ max_len + 1
      → 0 < unset
      → ((j : ℕ) → 1 < j → j < len → c.sha1 (bytes_from p j) ≢ c.sha1 (bytes_from p len))
      → (h : Hash) × (add_hash c unset p len empty ≡ ok h) × (lookup c p max_len h ≡ pos unset)
  unfolding add_hash lookup
  lookup-add_hash unset len max_len p long within positive other =
      let reached : 1 + (len - 2) + 1 ≡ len = omega arith in
      (
        one_record (c.sha1 (bytes_from p len)) unset,
        rw (lookup_from-empty 1 len p) refl,
        lookup_from-one 1 max_len (len - 2) unset p _ (omega arith) positive
            (λ j a l. other j a (omega arith)) (ap (λ n. c.sha1 (bytes_from p n)) reached),
      )
