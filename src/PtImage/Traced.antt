-- ===== src/PtImage/Traced.antt =====
-- src/ptimgchk.cc: the trace over the registers finds each page on which the memories differ.
use vexllvm.Base.{
  ℕ, zero, suc, ◌+◌, ◌-◌, ◌<◌, ◌≡◌, ◌≢◌, ◌↔◌, ◌⊎◌, refl, sym, ap, ◌∙◌, arith, inl, inr, Bool, true,
  false, List, [], ◌∷◌, Option, none, some, ◌==◌, ==_iff, member, All, Bool-cases,
}
use vexllvm.PtImage.Pages.{
  page_of, page_before, is_empty_set, find_mismatch, mismatch_of, get_page_mismatch, check_page,
  root_trace_dat, root_trace_from, root_trace,
}

along : (native guest : ℕ → ℕ) {p q : ℕ} → p ≡ q → native p ≡ guest p → native q ≡ guest q
along native guest e h = ap native (sym e) ∙ (h ∙ ap guest e)

find_mismatch_lem :
    (native guest : ℕ → ℕ) (n p : ℕ)
    → p ≢ 0
    → ((find_mismatch n native guest p ≡ 0) → (i : ℕ) → i < n → native (p + i) ≡ guest (p + i))
      × (((i : ℕ) → i < n → native (p + i) ≡ guest (p + i)) → find_mismatch n native guest p ≡ 0)
unfolding find_mismatch
find_mismatch_lem native guest zero p h = (λ e i l. absurd (omega arith), λ f. refl)
find_mismatch_lem native guest (suc n) p h =
    let (to, back) = find_mismatch_lem native guest n (p + 1) (λ e. h (omega arith)) in
    elim (Bool-cases (native p == guest p)) [
      | inl same ↦ (
        λ e i l. elim (Bool-cases (i == 0)) [
          | inl first ↦
              let here : p + i ≡ p = ground arith in rw here ((==_iff (native p) (guest p)).0 same)
          | inr later ↦
              let there : p + 1 + (i - 1) ≡ p + i = ground arith in
              along native guest there (to (rw same at e) (i - 1) (ground arith))
        ],
        λ f. rw same (
            back (λ i l.
              let there : p + suc i ≡ p + 1 + i = omega arith in
              along native guest there (f (suc i) (omega arith)))),
      )
      | inr differs ↦ (
        λ e. absurd (h (rw differs at e)),
        λ f.
            let here : p + 0 ≡ p = omega arith in
            let same : native p ≡ guest p = along native guest here (f 0 (omega arith)) in
            absurd (ground arith),
      )
    ]

module _ (lookup : ℕ → Option Bool) (native guest : ℕ → ℕ) where
  -- No page that was checked has a mismatch.
  abbrev IsClean : List ℕ → Type 0
  IsClean cptrs = All (λ q. get_page_mismatch lookup native guest q ≡ 0) cptrs

  IsClean-member :
      (q : ℕ) (cptrs : List ℕ)
      → member q cptrs ≡ true
      → IsClean cptrs
      → get_page_mismatch lookup native guest q ≡ 0
  IsClean-member q [] m h = absurd (ground arith)
  IsClean-member q (x ∷ cptrs) m (first, rest) = elim (Bool-cases (q == x)) [
    | inl same ↦ let e : q ≡ x = (==_iff q x).0 same in rw e first
    | inr other ↦ IsClean-member q cptrs (ground arith) rest
  ]

  -- While no mismatch was found, the checked pages have none.
  abbrev IsTracked : List ℕ × List ℕ → Type 0
  IsTracked (mptrs, cptrs) = is_empty_set mptrs ≡ true → IsClean cptrs

  -- What a check of the page adds.
  record IsChecked (q : ℕ) (s s' : List ℕ × List ℕ) : Type 0 where
    tracked : IsTracked s'
    before : is_empty_set s'.0 ≡ true → is_empty_set s.0 ≡ true
    clean : is_empty_set s'.0 ≡ true → get_page_mismatch lookup native guest q ≡ 0
    stays :
        is_empty_set s.0 ≡ true
        → get_page_mismatch lookup native guest q ≡ 0
        → is_empty_set s'.0 ≡ true

  check_page-IsChecked :
      (q : ℕ) (s : List ℕ × List ℕ)
      → IsTracked s
      → IsChecked q s (check_page lookup native guest q s)
  unfolding check_page
  check_page-IsChecked q (mptrs, cptrs) t = elim (Bool-cases (member q cptrs)) [
    | inl known ↦ rw known (record {
      tracked = λ e. (IsClean-member q cptrs known (t e), t e);
      before = λ e. e;
      clean = λ e. IsClean-member q cptrs known (t e);
      stays = λ e m. e;
    })
    | inr new ↦ elim (Bool-cases (get_page_mismatch lookup native guest q == 0)) [
      | inl same ↦
          let none_found : get_page_mismatch lookup native guest q ≡ 0 = (==_iff _ 0).0 same in
          rw (new, same)
            (record {
              tracked = λ e. (none_found, t e);
              before = λ e. e;
              clean = λ e. none_found;
              stays = λ e m. e;
            })
      | inr differs ↦
          rw (new, differs)
            (record {
              tracked = λ e. absurd (ground arith);
              before = λ e. absurd (ground arith);
              clean = λ e. absurd (ground arith);
              stays = λ e m. absurd (ground arith);
            })
    ]
  ]

  -- The pages that a word of the CPU state points to, or behind.
  abbrev IsCleanDat : ℕ → Type 0
  IsCleanDat dat =
      (get_page_mismatch lookup native guest (page_of (page_before dat)) ≡ 0)
      × (get_page_mismatch lookup native guest (page_of dat) ≡ 0)

  root_trace_from_lem :
      (dats : List ℕ) (s : List ℕ × List ℕ)
      → IsTracked s
      → (is_empty_set (root_trace_from lookup native guest dats s).0 ≡ true
          → (is_empty_set s.0 ≡ true) × All IsCleanDat dats)
        × (is_empty_set s.0 ≡ true
            → All IsCleanDat dats
            → is_empty_set (root_trace_from lookup native guest dats s).0 ≡ true)
  unfolding root_trace_from root_trace_dat
  root_trace_from_lem [] s t = (λ e. (e, tt), λ e c. e)
  root_trace_from_lem (dat ∷ dats) s t =
      let s1 = check_page lookup native guest (page_of (page_before dat)) s in
      let one = check_page-IsChecked (page_of (page_before dat)) s t in
      let two = check_page-IsChecked (page_of dat) s1 one.tracked in
      let (to, back) =
        root_trace_from_lem dats (check_page lookup native guest (page_of dat) s1) two.tracked in
      (
        λ e.
            let (found, rest) = to e in
            (
              one.before (two.before found),
              ((one.clean (two.before found), two.clean found), rest),
            ),
        λ e c. back (two.stays (one.stays e c.0.0) c.0.1) c.1,
      )

  -- The memories agree on a page that is mapped and may be written.
  abbrev pub IsSamePage : Option Bool → ℕ → Type 0
  IsSamePage none q = Unit
  IsSamePage (some false) q = Unit
  IsSamePage (some true) q = (i : ℕ) → i < 4096 → native (q + i) ≡ guest (q + i)

  abbrev pub IsSameDat : ℕ → Type 0
  IsSameDat dat =
      IsSamePage (lookup (page_of (page_before dat))) (page_of (page_before dat))
      × IsSamePage (lookup (page_of dat)) (page_of dat)

  mismatch_of_lem :
      (write : Option Bool) (q : ℕ)
      → (q ≢ 0) ⊎ (write ≢ some true)
      → (mismatch_of write native guest q ≡ 0 → IsSamePage write q)
        × (IsSamePage write q → mismatch_of write native guest q ≡ 0)
  unfolding mismatch_of
  mismatch_of_lem none q h = (λ e. tt, λ t. refl)
  mismatch_of_lem (some false) q h = (λ e. tt, λ t. refl)
  mismatch_of_lem (some true) q (inl positive) = find_mismatch_lem native guest 4096 q positive
  mismatch_of_lem (some true) q (inr read_only) = absurd (read_only refl)

  clean_page :
      lookup 0 ≢ some true
      → (d : ℕ)
      → (get_page_mismatch lookup native guest (page_of d) ≡ 0
          → IsSamePage (lookup (page_of d)) (page_of d))
        × (IsSamePage (lookup (page_of d)) (page_of d)
            → get_page_mismatch lookup native guest (page_of d) ≡ 0)
  unfolding get_page_mismatch
  clean_page unmapped d =
      let again : page_of (page_of d) ≡ page_of d = omega arith in
      let reachable : (page_of d ≢ 0) ⊎ (lookup (page_of d) ≢ some true) =
        elim (Bool-cases (page_of d == 0)) [
          | inl first ↦
              let e : page_of d ≡ 0 = (==_iff (page_of d) 0).0 first in
              inr (λ w. unmapped (sym (ap lookup e) ∙ w))
          | inr later ↦ inl (λ e. absurd (ground arith))
        ] in
      let (to, back) = mismatch_of_lem (lookup (page_of d)) (page_of d) reachable in
      rw again (to, back)

  All-map : {P Q : ℕ → Type 0} (l : List ℕ) → ((x : ℕ) → P x → Q x) → All P l → All Q l
  All-map [] f h = tt
  All-map (x ∷ l) f (first, rest) = (f x first, All-map l f rest)

  -- With no page at address 0 that may be written, printRootTrace answers true exactly if, for
  -- each word of the CPU state, the memories of the process and the guest agree on the page
  -- that it points to and on the page 4096 bytes before, where these are mapped and may be
  -- written.
  pub root_trace_lem :
      (dats : List ℕ)
      → lookup 0 ≢ some true
      → (root_trace lookup native guest dats ≡ true) ↔ All IsSameDat dats
  unfolding root_trace
  root_trace_lem dats unmapped =
      let (to, back) = root_trace_from_lem dats ([], []) (λ e. tt) in
      (
        λ e.
            All-map {P = IsCleanDat} {Q = IsSameDat} dats
              (λ d c. ((clean_page unmapped (page_before d)).0 c.0, (clean_page unmapped d).0 c.1))
              (to e).1,
        λ same. back refl (
            All-map {P = IsSameDat} {Q = IsCleanDat} dats
              (λ d c. ((clean_page unmapped (page_before d)).1 c.0, (clean_page unmapped d).1 c.1))
              same),
      )
