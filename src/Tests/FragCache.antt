-- ===== src/Tests/FragCache.antt =====
-- src/fragcache.cc: fragments of one byte, over a C library that sorts by insertion.
use vexllvm.Base.{
  ℕ, zero, suc, length, none, ◌-◌, ◌≤◌, ◌≡◌, refl, Bool, true, false, ◌||◌, List, [], ◌∷◌, some,
  arith, leb, ltb, if◌then◌else◌, All, Bool-cases, inl, inr, ok,
}
use vexllvm.Base.Int.{ℤ, pos, negsuc}
use vexllvm.FragCache.File.{
  Fragment, Libc, is_zero, is_empty, File, open_file, close_file, contains_buffer, contains_file,
  contains, add,
}
use vexllvm.FragCache.Table.{Table, entry, contents, add_fragment}
use vexllvm.FragCache.Once.{IsFiled, add_fragment-once}
use vexllvm.FragCache.Hash.{
  HashLibc, Hash, bytes_from, add_hash, lookup, lookup_from, find_hash, find_hash_in_file,
  answer_of, rec_at, find_hash_rec, find_hash_in_pending,
}
use vexllvm.FragCache.Unset.{empty}
use vexllvm.FragCache.Searchable.{IsAtMost, IsOrdered, IsLibc, IsSearchable, add_lem, reopen_lem}

abbrev byte : Fragment → ℕ
byte [] = 0
byte (b ∷ l) = b

abbrev compare_byte : Fragment → Fragment → ℤ
compare_byte x y = if ltb (byte x) (byte y) then negsuc 0 else pos (byte x - byte y)

abbrev insert_byte : Fragment → List Fragment → List Fragment
insert_byte x [] = x ∷ []
insert_byte x (y ∷ l) =
    let rest = insert_byte x l in if leb (byte x) (byte y) then x ∷ y ∷ l else y ∷ rest

abbrev sort_bytes : List Fragment → List Fragment
sort_bytes [] = []
sort_bytes (x ∷ l) = insert_byte x (sort_bytes l)

abbrev scan : Fragment → List Fragment → Bool
scan x [] = false
scan x (y ∷ l) = is_zero (compare_byte x y) || scan x l

abbrev bytes : Libc
bytes = record { memcmp = compare_byte; qsort = sort_bytes; bsearch = scan }

-- `x` comes before all of `l`.
abbrev IsBefore : Fragment → List Fragment → Type 0
IsBefore x l = All (λ y. IsAtMost bytes (compare_byte x y)) l

at_most : (x y : Fragment) → byte x ≤ byte y → IsAtMost bytes (compare_byte x y)
at_most x y h = elim (Bool-cases (ltb (byte x) (byte y))) [
  | inl less ↦ rw less tt
  | inr not_less ↦ rw not_less (omega arith)
]

at_most-le : (x y : Fragment) → IsAtMost bytes (compare_byte x y) → byte x ≤ byte y
at_most-le x y h = elim (Bool-cases (ltb (byte x) (byte y))) [
  | inl less ↦ ground arith
  | inr not_less ↦ let e : byte x - byte y ≡ 0 = rw not_less at h in omega arith
]

IsBefore-trans :
    (x y : Fragment) (l : List Fragment) → byte x ≤ byte y → IsBefore y l → IsBefore x l
IsBefore-trans x y [] h b = tt
IsBefore-trans x y (z ∷ l) h (first, rest) =
    let le = at_most-le y z first in (at_most x z (omega arith), IsBefore-trans x y l h rest)

insert_byte-IsBefore :
    (z x : Fragment) (l : List Fragment)
    → byte z ≤ byte x
    → IsBefore z l
    → IsBefore z (insert_byte x l)
insert_byte-IsBefore z x [] h b = (at_most z x h, tt)
insert_byte-IsBefore z x (y ∷ l) h (first, rest) = elim (Bool-cases (leb (byte x) (byte y))) [
  | inl before ↦ rw before (at_most z x h, (first, rest))
  | inr behind ↦ rw behind (first, insert_byte-IsBefore z x l h rest)
]

insert_byte-IsOrdered :
    (x : Fragment) (l : List Fragment) → IsOrdered bytes l → IsOrdered bytes (insert_byte x l)
insert_byte-IsOrdered x [] o = (tt, tt)
insert_byte-IsOrdered x (y ∷ l) (first, rest) = elim (Bool-cases (leb (byte x) (byte y))) [
  | inl before ↦
      let le : byte x ≤ byte y = ground arith in
      rw before ((at_most x y le, IsBefore-trans x y l le first), (first, rest))
  | inr behind ↦
      rw behind (insert_byte-IsBefore y x l (ground arith) first, insert_byte-IsOrdered x l rest)
]

sort_bytes-IsOrdered : (l : List Fragment) → IsOrdered bytes (sort_bytes l)
sort_bytes-IsOrdered [] = tt
sort_bytes-IsOrdered (x ∷ l) = insert_byte-IsOrdered x (sort_bytes l) (sort_bytes-IsOrdered l)

scan-insert_byte :
    (z x : Fragment) (l : List Fragment)
    → contains_buffer bytes z (insert_byte x l)
      ≡ is_zero (compare_byte z x) || contains_buffer bytes z l
unfolding contains_buffer
scan-insert_byte z x [] = refl
scan-insert_byte z x (y ∷ l) = elim (Bool-cases (leb (byte x) (byte y))) [
  | inl before ↦ rw before refl
  | inr behind ↦ rw (behind, scan-insert_byte z x l) (ground arith)
]

scan-sort_bytes :
    (z : Fragment) (l : List Fragment)
    → contains_buffer bytes z (sort_bytes l) ≡ contains_buffer bytes z l
unfolding contains_buffer
scan-sort_bytes z [] = refl
scan-sort_bytes z (x ∷ l) = rw (scan-insert_byte z x (sort_bytes l), scan-sort_bytes z l) refl

insert_byte-full : (x : Fragment) (l : List Fragment) → is_empty (insert_byte x l) ≡ false
insert_byte-full x [] = refl
insert_byte-full x (y ∷ l) = ground arith

sort_bytes-empty : (l : List Fragment) → is_empty (sort_bytes l) ≡ is_empty l
sort_bytes-empty [] = refl
sort_bytes-empty (x ∷ l) = insert_byte-full x (sort_bytes l)

scan_lem : (x : Fragment) (l : List Fragment) → scan x l ≡ contains_buffer bytes x l
unfolding contains_buffer
scan_lem x [] = refl
scan_lem x (y ∷ l) = rw (scan_lem x l) refl

compare_same : (x : Fragment) → is_zero (compare_byte x x) ≡ true
compare_same x =
    let e : ltb (byte x) (byte x) ≡ false = ground arith in
    let d : byte x - byte x ≡ 0 = omega arith in rw (e, d) refl

bytes-IsLibc : IsLibc bytes
bytes-IsLibc = record {
  memcmp_same = compare_same;
  qsort_ordered = sort_bytes-IsOrdered;
  qsort_keeps = scan-sort_bytes;
  qsort_empty = sort_bytes-empty;
  bsearch_finds = λ x l o. scan_lem x l;
}

abbrev two_bytes : File
two_bytes = record { file = (5 ∷ []) ∷ (9 ∷ []) ∷ []; mapped = true; buffer = (7 ∷ []) ∷ [] }

two_bytes-IsSearchable : IsSearchable bytes two_bytes
two_bytes-IsSearchable = record {
  ordered = ((tt, tt), (tt, tt));
  mapped = refl;
  bounded = omega arith;
}

no_six : contains bytes (6 ∷ []) two_bytes ≡ false
unfolding contains contains_file contains_buffer
no_six = refl

add_example :
    (f' : File) × (add bytes (6 ∷ []) two_bytes ≡ ok f')
    × IsSearchable bytes f'
    × (contains bytes (6 ∷ []) f' ≡ true)
    × ((y : Fragment)
        → contains bytes y f' ≡ is_zero (compare_byte y (6 ∷ [])) || contains bytes y two_bytes)
add_example = add_lem bytes bytes-IsLibc (6 ∷ []) two_bytes-IsSearchable no_six

reopen_example :
    IsSearchable bytes (open_file (close_file bytes two_bytes).file)
    × ((x : Fragment)
        → contains bytes x (open_file (close_file bytes two_bytes).file)
          ≡ contains bytes x two_bytes)
reopen_example = reopen_lem bytes bytes-IsLibc two_bytes-IsSearchable

-- Digests that are the numbers of bytes.
abbrev sizes : HashLibc
sizes = record { sha1 = length; qsort = λ l. l; bsearch = λ md l. none }

abbrev code : ℕ → ℕ
code i = i

length-bytes_from : (p : ℕ → ℕ) (n : ℕ) → length (bytes_from p n) ≡ n
unfolding bytes_from
length-bytes_from p zero = refl
length-bytes_from p (suc n) = omega (arith, length-bytes_from (λ i. p (suc i)) n)

-- Fragments of one byte are loaded, those of two bytes are on disk.
abbrev one_loaded : Table
one_loaded = record {
  cachetab = none ∷ some two_bytes ∷ [];
  fchash = empty;
  directory = none ∷ none ∷ some ((4 ∷ 4 ∷ []) ∷ []) ∷ [];
}

hashed : (h : Hash) × (add_hash sizes 0 code 2 empty ≡ ok h)
unfolding add_hash lookup lookup_from find_hash find_hash_in_file answer_of rec_at find_hash_rec
    find_hash_in_pending
hashed = (_, refl)

one_loaded-IsFiled :
    IsFiled bytes (entry one_loaded.cachetab 2) (contents (entry one_loaded.directory 2))
unfolding entry
one_loaded-IsFiled = (tt, tt)

add_fragment-once_example :
    (t' : Table) × (b : Bool) × (add_fragment (λ n. bytes) sizes 0 code 2 one_loaded ≡ ok (t', b))
    × (add_fragment (λ n. bytes) sizes 0 code 2 t' ≡ ok (t', false))
add_fragment-once_example =
    add_fragment-once (λ n. bytes) sizes 0 2 code one_loaded bytes-IsLibc (omega arith)
      one_loaded-IsFiled hashed.1
