-- ===== src/PtImage/Fixed.antt =====
-- src/ptimgchk.cc: which bytes the fixups copy, and that a native process that was fixed up has
-- the guest's memory where the registers point.
use vexllvm.Base.{
  ℕ, ◌+◌, ◌-◌, ◌^◌, ◌<◌, ◌≡◌, ◌≢◌, refl, sym, ap, ◌∙◌, arith, inl, inr, Bool, true, false, ◌||◌,
  List, [], ◌∷◌, Option, none, some, ltb, ◌==◌, ==_iff, if◌then◌else◌, All, Bool-cases,
}
use vexllvm.PtImage.Pages.{
  page_of, page_before, copy_page, copy_mapped, do_fixup_guest, push_page, do_fixup_native,
  root_trace,
}
use vexllvm.PtImage.Traced.{IsSamePage, IsSameDat, root_trace_lem}

-- A page q that is mapped and may be written has the address.
abbrev pub has : Option Bool → ℕ → ℕ → Bool
has none q a = false
has (some false) q a = false
has (some true) q a = page_of a == q

copy_mapped_lem :
    (write : Option Bool) (p : ℕ) (source target : ℕ → ℕ) (a : ℕ)
    → copy_mapped write p source target a ≡ (if has write (page_of p) a then source a else target a)
unfolding copy_mapped copy_page
copy_mapped_lem none p source target a = refl
copy_mapped_lem (some false) p source target a = refl
copy_mapped_lem (some true) p source target a = refl

module _ (lookup : ℕ → Option Bool) where
  -- The address is on the page of one of the words.
  abbrev pub is_copied : List ℕ → ℕ → Bool
  is_copied [] a = false
  is_copied (reg ∷ dats) a = has (lookup reg) (page_of reg) a || is_copied dats a

  -- doFixupGuest copies the process's memory on the pages that the words point to, where these are
  -- mapped and may be written, and leaves the rest of the guest's memory.
  pub do_fixup_guest_lem :
      (dats : List ℕ) (native guest : ℕ → ℕ) (a : ℕ)
      → do_fixup_guest lookup dats native guest a ≡ (if is_copied dats a then native a else guest a)
  unfolding do_fixup_guest
  do_fixup_guest_lem [] native guest a = refl
  do_fixup_guest_lem (reg ∷ dats) native guest a =
      let rest = do_fixup_guest_lem dats native (copy_mapped (lookup reg) reg native guest) a in
      let here = copy_mapped_lem (lookup reg) reg native guest a in ground (arith, rest, here)

  abbrev pub is_pushed_by : ℕ → ℕ → Bool
  is_pushed_by reg a =
      if ltb reg 4096
      then false
      else has (lookup (page_of reg)) (page_of reg) a
        || has (lookup (page_of (reg - 4096))) (page_of (reg - 4096)) a

  abbrev pub is_pushed : List ℕ → ℕ → Bool
  is_pushed [] a = false
  is_pushed (reg ∷ dats) a = is_pushed_by reg a || is_pushed dats a

  push_page_lem :
      (guest : ℕ → ℕ) (p : ℕ) (native : ℕ → ℕ) (a : ℕ)
      → push_page lookup guest p native a
        ≡ (if has (lookup (page_of p)) (page_of p) a then guest a else native a)
  unfolding push_page
  push_page_lem guest p native a =
      let again : page_of (page_of p) ≡ page_of p = omega arith in
      let here = copy_mapped_lem (lookup (page_of p)) (page_of p) guest native a in rw again at here

  do_fixup_native-pushed :
      (dats : List ℕ) (guest native : ℕ → ℕ) (a : ℕ)
      → do_fixup_native lookup dats guest native a
        ≡ (if is_pushed dats a then guest a else native a)
  unfolding do_fixup_native
  do_fixup_native-pushed [] guest native a = refl
  do_fixup_native-pushed (reg ∷ dats) guest native a = elim (Bool-cases (ltb reg 4096)) [
    | inl small ↦ rw small (do_fixup_native-pushed dats guest native a)
    | inr large ↦
        let once = push_page lookup guest (reg - 4096) native in
        let rest = do_fixup_native-pushed dats guest (push_page lookup guest reg once) a in
        let first = push_page_lem guest (reg - 4096) native a in
        let second = push_page_lem guest reg once a in
        rw large (ground (arith, rest, first, second))
  ]

  -- A word pushes its pages.
  abbrev IsPushing : List ℕ → ℕ → Type 0
  IsPushing dats reg = (a : ℕ) → is_pushed_by reg a ≡ true → is_pushed dats a ≡ true

  later : (x : ℕ) (dats l : List ℕ) → All (IsPushing dats) l → All (IsPushing (x ∷ dats)) l
  later x dats [] h = tt
  later x dats (reg ∷ l) (first, rest) = (λ a p. ground (arith, first a p), later x dats l rest)

  pushing : (dats : List ℕ) → All (IsPushing dats) dats
  pushing [] = tt
  pushing (reg ∷ dats) = (λ a p. ground (arith, p), later reg dats dats (pushing dats))

  module _ (guest native : ℕ → ℕ) (dats : List ℕ) where
    unwritten :
        (write : Option Bool) (q : ℕ)
        → write ≢ some true
        → IsSamePage lookup (do_fixup_native lookup dats guest native) guest write q
    unwritten none q h = tt
    unwritten (some false) q h = tt
    unwritten (some true) q h = absurd (h refl)

    pushed_page :
        (write : Option Bool) (q : ℕ)
        → page_of q ≡ q
        → ((a : ℕ) → has write q a ≡ true → is_pushed dats a ≡ true)
        → IsSamePage lookup (do_fixup_native lookup dats guest native) guest write q
    pushed_page none q aligned h = tt
    pushed_page (some false) q aligned h = tt
    pushed_page (some true) q aligned h = λ i l.
        let there : page_of (q + i) ≡ q = omega arith in
        let on_page : (page_of (q + i) == q) ≡ true = (==_iff (page_of (q + i)) q).1 there in
        let e = do_fixup_native-pushed dats guest native (q + i) in e ∙ rw (h (q + i) on_page) refl

    pushed_dat :
        (reg : ℕ)
        → reg < 2 ^ 64
        → lookup 0 ≢ some true
        → lookup (2 ^ 64 - 4096) ≢ some true
        → IsPushing dats reg
        → IsSameDat lookup (do_fixup_native lookup dats guest native) guest reg
    pushed_dat reg word first last h = elim (Bool-cases (ltb reg 4096)) [
      | inl small ↦
          let here : page_of reg ≡ 0 = ground arith in
          let behind : page_of (page_before reg) ≡ 2 ^ 64 - 4096 = ground arith in
          (
            unwritten (lookup (page_of (page_before reg))) _
                (λ w. last (sym (ap lookup behind) ∙ w)),
            unwritten (lookup (page_of reg)) _ (λ w. first (sym (ap lookup here) ∙ w)),
          )
      | inr large ↦
          let before : page_before reg ≡ reg - 4096 = ground arith in
          rw before (
            pushed_page (lookup (page_of (reg - 4096))) (page_of (reg - 4096)) (omega arith)
                (λ a p. h a (ground (arith, p))),
            pushed_page (lookup (page_of reg)) (page_of reg) (omega arith)
                (λ a p. h a (ground (arith, p))),
          )
    ]

    pushed_dats :
        (l : List ℕ)
        → lookup 0 ≢ some true
        → lookup (2 ^ 64 - 4096) ≢ some true
        → All (λ reg. reg < 2 ^ 64) l
        → All (IsPushing dats) l
        → All (IsSameDat lookup (do_fixup_native lookup dats guest native) guest) l
    pushed_dats [] first last words h = tt
    pushed_dats (reg ∷ l) first last (word, words) (p, h) =
        (pushed_dat reg word first last p, pushed_dats l first last words h)

    -- Behind doFixupNative printRootTrace finds no mismatch, whatever the memories were, if the
    -- words are 64-bit and neither the first nor the last page is mapped to be written.
    pub root_trace-do_fixup_native :
        lookup 0 ≢ some true
        → lookup (2 ^ 64 - 4096) ≢ some true
        → All (λ reg. reg < 2 ^ 64) dats
        → root_trace lookup (do_fixup_native lookup dats guest native) guest dats ≡ true
    root_trace-do_fixup_native first last words =
        (root_trace_lem lookup (do_fixup_native lookup dats guest native) guest dats first).1
          (pushed_dats dats first last words (pushing dats))
