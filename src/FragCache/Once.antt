-- ===== src/FragCache/Once.antt =====
-- src/fragcache.cc: FragCache holds a fragment once.
use vexllvm.Base.{
  ℕ, zero, suc, ◌<◌, ◌≡◌, refl, arith, Bool, true, false, List, [], ◌∷◌, Option, none, some, ◌==◌,
  set, ok, Bool-cases, inl, inr,
}
use vexllvm.FragCache.File.{Fragment, Libc, File, open_file, contains}
use vexllvm.FragCache.Searchable.{IsLibc, IsOrdered, IsSearchable, add_lem, open-IsSearchable}
use vexllvm.FragCache.Hash.{HashLibc, Hash, bytes_from, add_hash}
use vexllvm.FragCache.Table.{
  Table, grow, entry, contents, open_stored, assign, load_cache_file, file_or_load, get_fcfile,
  add_unless_held, add_fragment,
}

entry-set-grow :
    {A : Type 0} (l : List (Option A)) (i : ℕ) (x : A)
    → entry (set (grow (suc i) l) i (some x)) i ≡ some x
unfolding entry grow
entry-set-grow [] zero x = refl
entry-set-grow (y ∷ l) zero x = refl
entry-set-grow [] (suc i) x = entry-set-grow [] i x
entry-set-grow (y ∷ l) (suc i) x = entry-set-grow l i x

entry-set :
    {A : Type 0} (l : List (Option A)) (i : ℕ) (x : A) {y : A}
    → entry l i ≡ some y
    → entry (set l i (some x)) i ≡ some x
unfolding entry
entry-set [] i x h = absurd (ground arith)
entry-set (z ∷ l) zero x h = refl
entry-set (z ∷ l) (suc i) x h = entry-set l i x h

-- The file of the length is searchable where it is loaded, and in order where it is not.
abbrev pub IsFiled : Libc → Option File → List Fragment → Type 0
IsFiled c (some f) stored = IsSearchable c f
IsFiled c none stored = IsOrdered c stored

module _ (libc : ℕ → Libc) (c : HashLibc) where
  -- The file that getFCFile returns.
  pub record IsServed (len : ℕ) (t : Table) : Type 0 where
    served : Table
    file : File
    returned : get_fcfile len t ≡ ok (served, some file)
    held : entry served.cachetab len ≡ some file
    searchable : IsSearchable (libc len) file
    same_hash : served.fchash ≡ t.fchash

  get_fcfile-IsServed :
      {len : ℕ} {t : Table}
      → IsLibc (libc len)
      → 0 < len
      → IsFiled (libc len) (entry t.cachetab len) (contents (entry t.directory len))
      → IsServed len t
  unfolding get_fcfile file_or_load load_cache_file open_stored assign
  get_fcfile-IsServed {len} {t} promised some_bytes filed = from (entry t.cachetab len) refl filed
    where
      from :
          (e : Option File)
          → entry t.cachetab len ≡ e
          → IsFiled (libc len) e (contents (entry t.directory len))
          → IsServed len t
      from (some f) e s = record {
        served = t;
        file = f;
        returned = unfold get_fcfile file_or_load in simp e refl;
        held = e;
        searchable = s;
        same_hash = refl;
      }
      from none e s =
          let stored = contents (entry t.directory len) in
          let (searchable, same) = open-IsSearchable (libc len) promised stored s in
          let opened : (len == 0) ≡ false = ground arith in
          let listed : List (Option (List Fragment)) =
            set (grow (suc len) t.directory) len (some stored) in
          let again : entry listed len ≡ some stored = entry-set-grow t.directory len stored in
          let f = open_file stored in
          let table : List (Option File) = set (grow (suc len) t.cachetab) len (some f) in
          let there : entry table len ≡ some f = entry-set-grow t.cachetab len f in
          record {
            served = record t {
              cachetab = table;
              directory = set (grow (suc len) listed) len (some stored);
            };
            file = f;
            returned =
                unfold get_fcfile file_or_load load_cache_file open_stored assign in
                simp (e, opened, again, there) refl;
            held = there;
            searchable = searchable;
            same_hash = refl;
          }

  add_fragment-held :
      (unset len : ℕ) (p : ℕ → ℕ) (t : Table) (f : File)
      → entry t.cachetab len ≡ some f
      → contains (libc len) (bytes_from p len) f ≡ true
      → add_fragment libc c unset p len t ≡ ok (t, false)
  unfolding add_fragment add_unless_held get_fcfile file_or_load
  add_fragment-held unset len p t f held old = simp (held, old) refl

  -- With what the C library promises of memcmp, qsort and bsearch, let a fragment be added
  -- whose length is not 0 and whose file is searchable, or in order where it is not loaded, and
  -- let the table of hashes take it. Then addFragment returns, and a second addFragment of the
  -- same fragment changes nothing and returns false.
  pub add_fragment-once :
      (unset len : ℕ) (p : ℕ → ℕ) (t : Table) {h : Hash}
      → IsLibc (libc len)
      → 0 < len
      → IsFiled (libc len) (entry t.cachetab len) (contents (entry t.directory len))
      → add_hash c unset p len t.fchash ≡ ok h
      → (t' : Table) × (b : Bool) × (add_fragment libc c unset p len t ≡ ok (t', b))
        × (add_fragment libc c unset p len t' ≡ ok (t', false))
  unfolding add_fragment add_unless_held
  add_fragment-once unset len p t {h} promised some_bytes filed hashed =
      let i : IsServed len t = get_fcfile-IsServed promised some_bytes filed in
      let x = bytes_from p len in
      elim (Bool-cases (contains (libc len) x i.file)) [
        | inl old ↦ (
          i.served,
          false,
          simp (i.returned, old) refl,
          add_fragment-held unset len p i.served i.file i.held old,
        )
        | inr new ↦
            let (f', added, s', found, rest) = add_lem (libc len) promised x i.searchable new in
            let t' : Table = record i.served {
              fchash = h;
              cachetab = set i.served.cachetab len (some f');
            } in
            let hashed' : add_hash c unset p len i.served.fchash ≡ ok h = rw i.same_hash hashed in
            (
              t',
              true,
              simp (i.returned, new, hashed', added) refl,
              add_fragment-held unset len p t' f' (entry-set i.served.cachetab len f' i.held) found,
            )
      ]
