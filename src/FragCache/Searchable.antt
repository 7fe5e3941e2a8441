-- ===== src/FragCache/Searchable.antt =====
-- src/fragcache.cc: a file of fragments is a set of them.
use vexllvm.Base.{
  ◌≤◌, ◌≡◌, refl, sym, ap, ◌∙◌, Bool, true, false, not, ◌||◌, List, [], ◌∷◌, ◌++◌, arith, ltb,
  if◌then◌else◌, length, All, ok, Bool-cases, inl, inr,
}
use vexllvm.Base.Int.{ℤ, pos, negsuc}
use vexllvm.FragCache.File.{
  flush_trigger, Fragment, Libc, is_zero, is_empty, File, mmap_fd, open_file, sort, flush,
  contains_buffer, contains_file, contains, add, close_file,
}

module _ (c : Libc) where
  open c use {memcmp, qsort, bsearch}

  -- No fragment compares greater than a later one.
  abbrev pub IsAtMost : ℤ → Type 0
  IsAtMost (pos n) = n ≡ 0
  IsAtMost (negsuc n) = Unit

  abbrev pub IsOrdered : List Fragment → Type 0
  IsOrdered [] = Unit
  IsOrdered (x ∷ l) = All (λ y. IsAtMost (memcmp x y)) l × IsOrdered l

  -- What the C library promises: a fragment equals itself, `qsort` orders the same fragments,
  -- and `bsearch` finds what equals one of an ordered array.
  pub record IsLibc : Type 0 where
    pub memcmp_same : (x : Fragment) → is_zero (memcmp x x) ≡ true
    pub qsort_ordered : (l : List Fragment) → IsOrdered (qsort l)
    pub qsort_keeps :
        (x : Fragment) (l : List Fragment) → contains_buffer c x (qsort l) ≡ contains_buffer c x l
    pub qsort_empty : (l : List Fragment) → is_empty (qsort l) ≡ is_empty l
    pub bsearch_finds :
        (x : Fragment) (l : List Fragment) → IsOrdered l → bsearch x l ≡ contains_buffer c x l

  -- The fragments of a file are those on disk and those in the buffer.
  abbrev pub holds : Fragment → File → Bool
  holds x f = contains_buffer c x f.file || contains_buffer c x f.buffer

  -- The file on disk is ordered, it is mapped unless it is empty, and the buffer is no longer
  -- than its trigger.
  pub record IsSearchable (f : File) : Type 0 where
    pub ordered : IsOrdered f.file
    pub mapped : f.mapped ≡ not (is_empty f.file)
    pub bounded : length f.buffer ≤ flush_trigger

  contains_buffer-append :
      (x : Fragment) (l m : List Fragment)
      → contains_buffer c x (l ++ m) ≡ contains_buffer c x l || contains_buffer c x m
  unfolding contains_buffer
  contains_buffer-append x [] m = refl
  contains_buffer-append x (y ∷ l) m = ground (arith, contains_buffer-append x l m)

  module _ (libc : IsLibc) where
    -- `contains` is membership, by search on disk and by scan in the buffer.
    contains-holds : (x : Fragment) {f : File} → IsSearchable f → contains c x f ≡ holds x f
    unfolding contains contains_file
    contains-holds x {f} s = from f.file f.mapped s.mapped s.ordered
      where
        from :
            (l : List Fragment) (m : Bool)
            → m ≡ not (is_empty l)
            → IsOrdered l
            → (if (if m then bsearch x l else false)
                then true
                else if contains_buffer c x f.buffer
                then true
                else false)
              ≡ contains_buffer c x l || contains_buffer c x f.buffer
        from [] m e o = unfold contains_buffer in ground arith
        from (y ∷ l) m e o = ground (arith, libc.bsearch_finds x (y ∷ l) o)

    -- After a sort the file is searchable and has the same fragments.
    sort-IsSearchable :
        (f : File)
        → length f.buffer ≤ flush_trigger
        → IsSearchable (sort c f) × ((x : Fragment) → holds x (sort c f) ≡ holds x f)
    unfolding sort mmap_fd
    sort-IsSearchable f b = from f.file refl
      where
        from :
            (l : List Fragment)
            → f.file ≡ l
            → IsSearchable (sort c f) × ((x : Fragment) → holds x (sort c f) ≡ holds x f)
        from [] e =
            unfold sort mmap_fd in
            simp e (record { ordered = tt; mapped = refl; bounded = b }, λ x. refl)
        from (y ∷ l) e =
            unfold sort mmap_fd in
            simp e (
              record {
                ordered = libc.qsort_ordered (y ∷ l);
                mapped = ap not (sym (libc.qsort_empty (y ∷ l)));
                bounded = b;
              },
              λ x. ap (λ found. found || contains_buffer c x f.buffer) (libc.qsort_keeps x (y ∷ l)),
            )

    flush-IsSearchable :
        (f : File)
        → is_empty f.buffer ≡ false
        → IsSearchable (flush c f) × ((x : Fragment) → holds x (flush c f) ≡ holds x f)
    unfolding flush contains_buffer
    flush-IsSearchable f full =
        let all : File = record f { file = f.file ++ f.buffer; buffer = [] } in
        let (s, kept) = sort-IsSearchable all (omega arith) in
        simp full (s, λ x. kept x ∙ ground (arith, contains_buffer-append x f.file f.buffer))

    is_empty-append : (l : List Fragment) (x : Fragment) → is_empty (l ++ x ∷ []) ≡ false
    is_empty-append [] x = refl
    is_empty-append (y ∷ l) x = refl

    add_step :
        (x : Fragment) {f : File}
        → IsSearchable f
        → contains c x f ≡ false
        → (f' : File) × (add c x f ≡ ok f')
          × IsSearchable f'
          × ((y : Fragment) → contains c y f' ≡ is_zero (memcmp y x) || contains c y f)
    unfolding add contains_buffer
    add_step x {f} s new =
        let f' : File = record f { buffer = f.buffer ++ x ∷ [] } in
        let held : (y : Fragment) → holds y f' ≡ is_zero (memcmp y x) || contains c y f =
          λ y. ground (arith, contains-holds y s, contains_buffer-append y f.buffer (x ∷ [])) in
        elim (Bool-cases (ltb flush_trigger (length (f.buffer ++ x ∷ [])))) [
          | inl full ↦
              let (s', kept) = flush-IsSearchable f' (is_empty-append f.buffer x) in
              (flush c f', simp (new, full) refl, s', λ y. contains-holds y s' ∙ (kept y ∙ held y))
          | inr roomy ↦
              let s' : IsSearchable f' = record {
                ordered = s.ordered;
                mapped = s.mapped;
                bounded = ground arith;
              } in
              (f', simp (new, roomy) refl, s', λ y. contains-holds y s' ∙ held y)
        ]

    -- With what the C library promises of memcmp, qsort and bsearch, adding to a searchable
    -- file a fragment that it does not contain succeeds: the new file is searchable and
    -- contains the fragment, what compares equal to it, what was contained before, and nothing
    -- else. A searchable file is ordered on disk, mapped unless it is empty, and has a buffer
    -- of at most FLUSH_FCF_TRIGGER fragments.
    pub add_lem :
        (x : Fragment) {f : File}
        → IsSearchable f
        → contains c x f ≡ false
        → (f' : File) × (add c x f ≡ ok f')
          × IsSearchable f'
          × (contains c x f' ≡ true)
          × ((y : Fragment) → contains c y f' ≡ is_zero (memcmp y x) || contains c y f)
    add_lem x {f} s new =
        let (f', added, s', rest) = add_step x s new in
        let found : is_zero (memcmp x x) || contains c x f ≡ true = rw (libc.memcmp_same x) refl in
        (f', added, s', rest x ∙ found, rest)

    pub open-IsSearchable :
        (l : List Fragment)
        → IsOrdered l
        → IsSearchable (open_file l)
          × ((x : Fragment) → contains c x (open_file l) ≡ contains_buffer c x l)
    unfolding open_file mmap_fd contains_buffer
    open-IsSearchable l o =
        let s : IsSearchable (open_file l) = record {
          ordered = o;
          mapped = refl;
          bounded = omega arith;
        } in
        (s, λ x. contains-holds x s ∙ ground arith)

    on_disk :
        (x : Fragment) (l m : List Fragment)
        → is_empty m ≡ true
        → (contains_buffer c x l || contains_buffer c x m) ≡ contains_buffer c x l
    unfolding contains_buffer
    on_disk x l [] h = ground arith
    on_disk x l (y ∷ m) h = absurd (ground arith)

    flush-buffer : (f : File) → (flush c f).buffer ≡ []
    unfolding flush sort mmap_fd
    flush-buffer f = from f.buffer refl
      where
        from : (l : List Fragment) → f.buffer ≡ l → (flush c f).buffer ≡ []
        from [] e = unfold flush in simp e refl
        from (x ∷ l) e =
            unfold flush sort mmap_fd in
            simp e (elim (Bool-cases (not (is_empty (f.file ++ x ∷ l)))) [
              | inl some ↦ rw some refl
              | inr none ↦ rw none refl
            ])

    -- With what the C library promises of memcmp, qsort and bsearch, a searchable file that is
    -- closed and opened again is searchable and contains the same fragments.
    pub reopen_lem :
        {f : File}
        → IsSearchable f
        → IsSearchable (open_file (close_file c f).file)
          × ((x : Fragment) → contains c x (open_file (close_file c f).file) ≡ contains c x f)
    unfolding close_file contains_buffer
    reopen_lem {f} s = elim (Bool-cases (is_empty f.buffer)) [
      | inl empty ↦
          let (s', same) = open-IsSearchable f.file s.ordered in
          unfold flush in
          simp empty (s', λ x. same x ∙ sym (contains-holds x s ∙ on_disk x f.file f.buffer empty))
      | inr full ↦
          let g : File = record f { mapped = false } in
          let (s', kept) = flush-IsSearchable g full in
          let (s'', same) = open-IsSearchable (flush c g).file s'.ordered in
          (
            s'',
            λ x.
                same x
                ∙ (sym (on_disk x (flush c g).file (flush c g).buffer (rw (flush-buffer g) refl))
                    ∙ (kept x ∙ sym (contains-holds x s))),
          )
    ]
