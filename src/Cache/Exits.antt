-- ===== src/Cache/Exits.antt =====
-- src/vexjitcache.cc: the loop over the exits ends by its own tests.
use vexllvm.Base.{
  ℕ, zero, suc, ◌+◌, ◌≤◌, ◌<◌, ◌≡◌, refl, List, [], ◌∷◌, arith, true, false, length, ◌⊎◌, Option,
  none, some, Bool-cases, inl, inr, Result, Ensures, Ensures-bind, Ensures-trivial,
}
use vexllvm.Cache.State.{Cache, Backend}
use vexllvm.Cache.Jit.{
  Walk, is_jitted, fetch, note, visit_one, visit, expand, is_full, unless_full, walk_round, walk,
  walk_fuel,
}

-- The loop's test fails, or its `break` is taken.
abbrev pub IsDone : Walk → Type 0
IsDone w = (w.workset ≡ []) ⊎ (2 < length w.complete + length w.workset)

-- Some function is still to come, of at most two in all.
abbrev IsOpen : Walk → Type 0
IsOpen w = length w.complete + length w.workset ≤ 2

module _ (addr_of : ℕ → ℕ) (b : Backend) where
  note-complete :
      (a : ℕ) (r : Cache × Option ℕ) (w : Walk) → (note addr_of b a r w).complete ≡ w.complete
  unfolding note
  note-complete a (c, none) w = refl
  note-complete a (c, some f) w = ground arith

  visit_one-complete :
      (a : ℕ) (w : Walk) → Ensures (λ w'. w'.complete ≡ w.complete) (visit_one addr_of b a w)
  unfolding visit_one
  visit_one-complete a w = elim (Bool-cases (is_jitted a w.cache)) [
    | inl jitted ↦ rw jitted refl
    | inr new ↦ rw new (
        Ensures-bind (λ _. Unit {0}) (λ w'. w'.complete ≡ w.complete) (fetch addr_of b a a w.cache)
          _ (Ensures-trivial _) λ r _. note-complete a r w)
  ]

  visit-complete :
      (addrs : List ℕ) (w : Walk)
      → Ensures (λ w'. w'.complete ≡ w.complete) (visit addr_of b addrs w)
  unfolding visit
  visit-complete [] w = refl
  visit-complete (a ∷ addrs) w =
      Ensures-bind (λ w'. w'.complete ≡ w.complete) (λ w'. w'.complete ≡ w.complete)
        (visit_one addr_of b a w) _ (visit_one-complete a w)
        λ w' e. rw (← e) (visit-complete addrs w')

  -- Each round completes one function.
  expand-complete :
      (f : ℕ) (queue : List ℕ) (w : Walk)
      → Ensures (λ w'. length w'.complete ≡ suc (length w.complete)) (expand addr_of b f queue w)
  unfolding expand
  expand-complete f queue w =
      Ensures-bind (λ w'. w'.complete ≡ w.complete)
        (λ w'. length w'.complete ≡ suc (length w.complete)) _ _
        (visit-complete (b.ret_addrs f) (record w { queue = queue })) λ w' e. rw e refl

  full→lt : (w : Walk) → is_full addr_of b w ≡ true → 2 < length w.complete + length w.workset
  unfolding is_full
  full→lt w h = ground arith

  not_full→le : (w : Walk) → is_full addr_of b w ≡ false → IsOpen w
  unfolding is_full
  not_full→le w h = ground arith

  -- What the next rounds are asked for after one more function is complete.
  abbrev Ends : (Walk → Result Walk) → ℕ → Type 0
  Ends next n = (w : Walk) → IsOpen w → length w.complete ≡ suc n → Ensures IsDone (next w)

  unless_full-IsDone :
      (next : Walk → Result Walk) (n : ℕ)
      → Ends next n
      → (w : Walk) → length w.complete ≡ suc n
      → Ensures IsDone (unless_full addr_of b next w)
  unfolding unless_full
  unless_full-IsDone next n ends w e = elim (Bool-cases (is_full addr_of b w)) [
    | inl full ↦ rw (full, unless_full) (inr (full→lt w full))
    | inr more ↦ rw (more, unless_full) (ends w (not_full→le w more) e)
  ]

  walk_round-IsDone :
      (next : Walk → Result Walk) (w : Walk) (ws q : List ℕ)
      → Ends next (length w.complete)
      → w.workset ≡ ws
      → Ensures IsDone (walk_round addr_of b next ws q w)
  unfolding walk_round
  walk_round-IsDone next w [] q ends e = inl e
  walk_round-IsDone next w (_ ∷ _) [] ends e = tt
  walk_round-IsDone next w (_ ∷ _) (f ∷ q) ends e =
      Ensures-bind (λ w'. length w'.complete ≡ suc (length w.complete)) IsDone
        (expand addr_of b f q w) _ (expand-complete f q w)
        (unless_full-IsDone next (length w.complete) ends)

  walk-IsDone :
      (fuel : ℕ) (w : Walk)
      → IsOpen w
      → 2 < length w.complete + fuel
      → Ensures IsDone (walk addr_of b fuel w)
  unfolding walk
  walk-IsDone zero w o h = absurd (omega arith)
  walk-IsDone (suc fuel) w o h =
      walk_round-IsDone (walk addr_of b fuel) w w.workset w.queue
        (λ w' o' e. walk-IsDone fuel w' o' (omega arith)) refl

  -- From the work set of one function, when no call in the loop over the exits stops the
  -- process, the loop has ended by its test or by its break within three rounds, so the fuel is
  -- enough.
  pub walk_ends :
      (f : ℕ) (c : Cache)
      → let w : Walk = record {
        cache = c;
        fnames = [];
        workset = f ∷ [];
        queue = f ∷ [];
        complete = [];
      } in
        Ensures IsDone (walk addr_of b walk_fuel w)
  walk_ends f c = walk-IsDone walk_fuel _ (omega arith) (omega arith)
