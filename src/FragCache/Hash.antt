-- ===== src/FragCache/Hash.antt =====
-- src/fragcache.cc: the table of hashes, FCHash. Reads of the file's size and writes succeed, as
-- the source asserts; the mapped file is the list of its records.
use vexllvm.Base.{
  ℕ, zero, suc, ◌+◌, Bool, true, false, ◌||◌, List, [], ◌∷◌, ◌++◌, Option, none, some, ltb, ◌==◌,
  if◌then◌else◌, length, set, get_elem?, Result, ok, fault, Fault, ◌>>=◌,
}
use vexllvm.Base.Int.{ℤ, pos, negsuc}
use vexllvm.FragCache.File.{is_empty}

-- FLUSH_FCH_TRIGGER
abbrev pub flush_hash_trigger : ℕ
flush_hash_trigger = 1024

-- FCHASH_NOTFOUND and FCHASH_COLLISION, -1 and -2
abbrev pub not_found : ℤ
not_found = negsuc 0

abbrev pub collision : ℤ
collision = negsuc 1

-- `fchash_rec`, its digest as a number
pub record HashRec : Type 0 where
  pub md : ℕ
  pub len : ℕ

-- `SHA1`, and the C library over records; `bsearch` answers the index of what it found.
pub record HashLibc : Type 0 where
  pub sha1 : List ℕ → ℕ
  pub qsort : List HashRec → List HashRec
  pub bsearch : ℕ → List HashRec → Option ℕ

-- A pending record has the answer of the lookup that came before it.
pub record Hash : Type 0 where
  pub f_mmap : List HashRec
  pub pending : List (HashRec × ℤ)

-- The first n bytes from a pointer on.
unfoldable pub bytes_from : (ℕ → ℕ) → ℕ → List ℕ
bytes_from p zero = []
bytes_from p (suc n) = p 0 ∷ bytes_from (λ i. p (suc i)) n

-- `ret > 0 || ret == FCHASH_COLLISION`
abbrev pub is_answer : ℤ → Bool
is_answer (pos zero) = false
is_answer (pos (suc n)) = true
is_answer (negsuc zero) = false
is_answer (negsuc (suc zero)) = true
is_answer (negsuc (suc (suc n))) = false

-- `(*it).second <= 0`
abbrev pub is_positive : ℤ → Bool
is_positive (pos zero) = false
is_positive (pos (suc n)) = true
is_positive (negsuc n) = false

abbrev pub equals : ℤ → ℕ → Bool
equals (pos m) n = m == n
equals (negsuc m) n = false

-- `rc == FCHASH_COLLISION`
abbrev pub is_collision : ℤ → Bool
is_collision (pos n) = false
is_collision (negsuc zero) = false
is_collision (negsuc (suc zero)) = true
is_collision (negsuc (suc (suc n))) = false

module _ (c : HashLibc) where
  -- FCHash::findHashRec: the index of the record
  unfoldable pub find_hash_rec : ℕ → Hash → Option ℕ
  find_hash_rec md h = if is_empty h.f_mmap then none else c.bsearch md h.f_mmap

  unfoldable pub rec_at : Hash → Option ℕ → Option HashRec
  rec_at h none = none
  rec_at h (some i) = get_elem? h.f_mmap i

  unfoldable pub answer_of : Option HashRec → ℤ
  answer_of none = not_found
  answer_of (some r) = if r.len == 0 then collision else pos r.len

  -- FCHash::findHashInFile
  unfoldable pub find_hash_in_file : ℕ → Hash → ℤ
  find_hash_in_file md h = answer_of (rec_at h (find_hash_rec md h))

  -- FCHash::findHashInPending
  unfoldable pub find_hash_in_pending : ℕ → List (HashRec × ℤ) → ℤ
  find_hash_in_pending md [] = not_found
  find_hash_in_pending md ((r, rc) ∷ pending) =
      if r.md == md then pos r.len else find_hash_in_pending md pending

  -- FCHash::findHash
  unfoldable pub find_hash : ℕ → Hash → ℤ
  find_hash md h =
      let ret = find_hash_in_file md h in
      if is_answer ret then ret else find_hash_in_pending md h.pending

  -- The rounds of FCHash::lookup from i on.
  unfoldable pub lookup_from : ℕ → ℕ → (ℕ → ℕ) → Hash → ℤ
  lookup_from i zero guest_bytes h = not_found
  lookup_from i (suc left) guest_bytes h =
      let rest = lookup_from (suc i) left guest_bytes h in
      let ret = find_hash (c.sha1 (bytes_from guest_bytes (i + 1))) h in
      if is_answer ret then ret else rest

  -- FCHash::lookup
  unfoldable pub lookup : (ℕ → ℕ) → ℕ → Hash → ℤ
  lookup guest_bytes max_len h = lookup_from 1 max_len guest_bytes h

  -- `r->len = 0` at the record that is found
  unfoldable pub mark_record : Hash → Option ℕ → Option HashRec → Result (List HashRec)
  mark_record h none r = fault Fault.assertion
  mark_record h (some i) none = fault Fault.assertion
  mark_record h (some i) (some r) =
      if r.len == 0 then fault Fault.assertion else ok (set h.f_mmap i (record r { len = 0 }))

  -- The first loop of FCHash::flush: the mapped records, and what is still pending.
  unfoldable pub mark_collisions :
      List (HashRec × ℤ) → List HashRec → Result (List HashRec × List (HashRec × ℤ))
  mark_collisions [] f_mmap = ok (f_mmap, [])
  mark_collisions ((r, rc) ∷ pending) f_mmap =
      let h : Hash = record { f_mmap = f_mmap; pending = [] } in
      let i = find_hash_rec r.md h in
      let kept = do rest ← mark_collisions pending f_mmap; ok (rest.0, (r, rc) ∷ rest.1)
      in let marked = mark_record h i (rec_at h i) >>= mark_collisions pending in
        if is_positive rc then marked else kept

  unfoldable pub records_of : List (HashRec × ℤ) → List HashRec
  records_of [] = []
  records_of ((r, rc) ∷ pending) = r ∷ records_of pending

  -- FCHash::flush
  unfoldable pub flush_hash : Hash → Result Hash
  flush_hash h = if is_empty h.pending then ok h else do
    rest ← mark_collisions h.pending h.f_mmap
    ok (
        if is_empty rest.1
        then record { f_mmap = rest.0; pending = [] }
        else record { f_mmap = c.qsort (rest.0 ++ records_of rest.1); pending = [] })

  -- FCHash::add; `unset` is what `rec.first.len` holds, which nothing assigns.
  unfoldable pub add_hash : ℕ → (ℕ → ℕ) → ℕ → Hash → Result Hash
  add_hash unset guest_bytes len h =
      let rc = lookup guest_bytes len h in
      let r : HashRec = record { md = c.sha1 (bytes_from guest_bytes len); len = unset } in
      let h' : Hash = record h { pending = h.pending ++ (r, rc) ∷ [] } in
      if equals rc len || is_collision rc
      then ok h
      else if ltb flush_hash_trigger (length h'.pending)
      then flush_hash h'
      else ok h'
