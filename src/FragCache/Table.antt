-- ===== src/FragCache/Table.antt =====
-- src/fragcache.cc: FragCache, a file of fragments for each length behind the table of hashes. The
-- directory is what its files held when they were opened last, by the length that is their name.
-- Opening a file succeeds.
use vexllvm.Base.{
  ℕ, zero, suc, Bool, true, false, List, [], ◌∷◌, Option, none, some, ◌==◌, if◌then◌else◌, length,
  set, Result, ok, fault, Fault, ◌>>=◌,
}
use vexllvm.Base.Int.{ℤ, pos, negsuc}
use vexllvm.FragCache.File.{Fragment, Libc, File, open_file, contains, add}
use vexllvm.FragCache.Hash.{HashLibc, Hash, bytes_from, is_positive, lookup, add_hash}

-- `class FragCache`, with the files of its directory
pub record Table : Type 0 where
  pub cachetab : List (Option File)
  pub fchash : Hash
  pub directory : List (Option (List Fragment))

-- `resize(len + 1, NULL)` of a shorter vector, by n entries
unfoldable pub grow {ℓ} : {A : Type ℓ} → ℕ → List (Option A) → List (Option A)
grow zero [] = []
grow zero (x ∷ l) = x ∷ l
grow (suc n) [] = none ∷ grow n []
grow (suc n) (x ∷ l) = x ∷ grow n l

-- An entry, or null where the vector is shorter.
unfoldable pub entry {ℓ} : {A : Type ℓ} → List (Option A) → ℕ → Option A
entry [] i = none
entry (x ∷ l) zero = x
entry (x ∷ l) (suc i) = entry l i

-- The fragments of a file that `open` creates where it is missing.
abbrev pub contents : Option (List Fragment) → List Fragment
contents none = []
contents (some stored) = stored

-- FCFile::open, with O_CREAT; FCFile::create opens the same way.
unfoldable pub open_stored : ℕ → Table → Result (Table × File)
open_stored len t =
    let stored = contents (entry t.directory len) in
    if len == 0
    then fault Fault.assertion
    else ok (
      record t { directory = set (grow (suc len) t.directory) len (some stored) },
      open_file stored,
    )

-- `assert (cachetab[len] == NULL)` and the assignment
unfoldable pub assign : ℕ → File → Table → Option File → Result Table
assign len fcf t (some old) = fault Fault.assertion
assign len fcf t none = ok (record t { cachetab = set (grow (suc len) t.cachetab) len (some fcf) })

-- FragCache::loadCacheFile
unfoldable pub load_cache_file : ℕ → Table → Result Table
load_cache_file len t = do
  opened ← open_stored len t
  assign len opened.1 opened.0 (entry opened.0.cachetab len)

-- FragCache::getFCFile, given the entry of the length
unfoldable pub file_or_load : ℕ → Table → Option File → Result (Table × Option File)
file_or_load len t (some f) = ok (t, some f)
file_or_load len t none = do
  created ← open_stored len t
  t' ← load_cache_file len created.0
  ok (t', entry t'.cachetab len)

unfoldable pub get_fcfile : ℕ → Table → Result (Table × Option File)
get_fcfile len t = file_or_load len t (entry t.cachetab len)

-- FragCache::loadDir, over the names of the directory that read as numbers
unfoldable pub load_dir : List ℕ → Table → Result Table
load_dir [] t = ok t
load_dir (len ∷ names) t = load_cache_file len t >>= load_dir names

module _ (libc : ℕ → Libc) (c : HashLibc) where
  unfoldable pub add_unless_held : ℕ → (ℕ → ℕ) → ℕ → Table × Option File → Result (Table × Bool)
  add_unless_held unset guest_bytes len (t, none) = fault Fault.assertion
  add_unless_held unset guest_bytes len (t, some fcf) =
      if contains (libc len) (bytes_from guest_bytes len) fcf then ok (t, false) else do
        fchash ← add_hash c unset guest_bytes len t.fchash
        f ← add (libc len) (bytes_from guest_bytes len) fcf
        ok (record t { fchash = fchash; cachetab = set t.cachetab len (some f) }, true)

  -- FragCache::addFragment; `unset` as in add_hash
  unfoldable pub add_fragment : ℕ → (ℕ → ℕ) → ℕ → Table → Result (Table × Bool)
  add_fragment unset guest_bytes len t = get_fcfile len t >>= add_unless_held unset guest_bytes len

  -- The loop of findLength: the first file that contains the fragment of its length
  unfoldable pub search_files : (ℕ → ℕ) → ℕ → List (Option File) → ℤ
  search_files guest_bytes len [] = negsuc 0
  search_files guest_bytes len (none ∷ files) = search_files guest_bytes (suc len) files
  search_files guest_bytes len (some fcf ∷ files) =
      let rest = search_files guest_bytes (suc len) files in
      if contains (libc len) (bytes_from guest_bytes len) fcf then pos len else rest

  -- FragCache::findLength
  unfoldable pub find_length : List ℕ → (ℕ → ℕ) → Table → Result (Table × ℤ)
  find_length names guest_bytes t =
      let size = length t.cachetab in
      let ret = lookup c guest_bytes (if size == 0 then 1024 else size) t.fchash in
      let loaded = if size == 0 then load_dir names t else ok t in
      if is_positive ret
      then ok (t, ret)
      else do t' ← loaded; ok (t', search_files guest_bytes 0 t'.cachetab)
