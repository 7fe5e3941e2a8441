-- ===== src/FragCache/File.antt =====
-- src/fragcache.cc: the fragments of one length, in a sorted file and a buffer in front of it.
-- A fragment stands for its bytes. The source asserts that its reads of the file's size and its
-- writes succeed; here they do.
use vexllvm.Base.{
  ℕ, zero, suc, Bool, true, false, not, ◌||◌, List, [], ◌∷◌, ◌++◌, ltb, if◌then◌else◌, length,
  Result, ok, fault, Fault,
}
use vexllvm.Base.Int.{ℤ, pos, negsuc}

-- FLUSH_FCF_TRIGGER
abbrev pub flush_trigger : ℕ
flush_trigger = 1024

-- The bytes of one fragment.
abbrev pub Fragment : Type 0
Fragment = List ℕ

-- What the C library answers over fragments of one length. `qsort` and `bsearch` are called with
-- `memcmp` as their order; `bsearch` answers whether it found one.
pub record Libc : Type 0 where
  pub memcmp : Fragment → Fragment → ℤ
  pub qsort : List Fragment → List Fragment
  pub bsearch : Fragment → List Fragment → Bool

-- `memcmp(...) == 0`
abbrev pub is_zero : ℤ → Bool
is_zero (pos zero) = true
is_zero (pos (suc n)) = false
is_zero (negsuc n) = false

abbrev pub is_empty {ℓ} : {A : Type ℓ} → List A → Bool
is_empty [] = true
is_empty (x ∷ l) = false

-- `class FCFile`: `mapped` is whether `f_mmap` is not null. It then maps the whole file.
pub record File : Type 0 where
  pub file : List Fragment
  pub mapped : Bool
  pub buffer : List Fragment

-- FCFile::mmapFd; an empty file is not mapped.
unfoldable pub mmap_fd : File → File
mmap_fd f = record f { mapped = not (is_empty f.file) }

-- FCFile::FCFile, on a file with these fragments.
unfoldable pub open_file : List Fragment → File
open_file l = mmap_fd (record { file = l; mapped = false; buffer = [] })

module _ (c : Libc) where
  -- FCFile::sort
  unfoldable pub sort : File → File
  sort f = let f' = mmap_fd f in if f'.mapped then record f' { file = c.qsort f'.file } else f'

  -- FCFile::flush
  unfoldable pub flush : File → File
  flush f =
      if is_empty f.buffer then f else sort (record f { file = f.file ++ f.buffer; buffer = [] })

  -- FCFile::containsBuffer
  unfoldable pub contains_buffer : Fragment → List Fragment → Bool
  contains_buffer guest_bytes [] = false
  contains_buffer guest_bytes (x ∷ buffer) =
      is_zero (c.memcmp guest_bytes x) || contains_buffer guest_bytes buffer

  -- FCFile::containsFile
  unfoldable pub contains_file : Fragment → File → Bool
  contains_file guest_bytes f = if f.mapped then c.bsearch guest_bytes f.file else false

  -- FCFile::contains
  unfoldable pub contains : Fragment → File → Bool
  contains guest_bytes f =
      if contains_file guest_bytes f
      then true
      else if contains_buffer guest_bytes f.buffer
      then true
      else false

  -- FCFile::add
  unfoldable pub add : Fragment → File → Result File
  add guest_bytes f =
      if contains guest_bytes f
      then fault Fault.assertion
      else let f' : File = record f { buffer = f.buffer ++ guest_bytes ∷ [] } in
        ok (if ltb flush_trigger (length f'.buffer) then flush f' else f')

  -- FCFile::~FCFile
  unfoldable pub close_file : File → File
  close_file f = flush (record f { mapped = false })
