-- ===== src/Exec/Pending.antt =====
-- src/vexexec.cc: the flush that a write to translated code asked for.
use vexllvm.Base.{
  ℕ, ◌+◌, ◌-◌, ◌%◌, ◌^◌, ◌≤◌, ◌<◌, ◌≡◌, ◌⊎◌, refl, ◌∙◌, false, Option, none, some, arith, ◌==◌, ok,
  Ensures, Ensures-bind, Ensures-mono,
}
use vexllvm.Base.Maps.{find}
use vexllvm.Cache.Jit
use vexllvm.Cache.Coherence.Entries.{IsCoherent}
use vexllvm.Cache.Coherence.Flush.{IsFlushed, flush_range-IsFlushed}
use vexllvm.Exec.State.{Mapping, Guest, Exec}
use vexllvm.Exec.Dispatch.{
  max_code_bytes, flush_pending, unprotect_code, flush_tampered_code, signal_handler,
}

module _ (addr_of : ℕ → ℕ) (g : Guest) where
  open g use {Mem, lookup_mapping, record_mapping, mapping_end}

  -- A range of guest addresses that leaves room for a superblock on both sides.
  abbrev pub HasMargins : ℕ → ℕ → Type 0
  HasMargins begin end = (max_code_bytes < begin) × (begin ≤ end) × (end + max_code_bytes < 2 ^ 64)

  -- With coherent caches and a pending range that leaves MAX_CODE_BYTES of the address space on
  -- both sides, a pending flush that returns takes out the translations that start from
  -- MAX_CODE_BYTES before the range to MAX_CODE_BYTES behind it, keeps all others and the
  -- coherence, and is no longer pending.
  pub flush_pending-IsFlushed :
      (e : Exec Mem) (begin end : ℕ)
      → IsCoherent addr_of e.cache
      → e.to_flush ≡ (begin, end)
      → HasMargins begin end
      → Ensures
          (λ e'.
            IsFlushed addr_of (begin - max_code_bytes) (end + max_code_bytes) e.cache e'.cache
            × (e'.to_flush ≡ (0, 0)))
          (flush_pending addr_of g e)
  unfolding flush_pending
  flush_pending-IsFlushed e begin end v h m =
      let lo : (begin + 2 ^ 64 - max_code_bytes) % 2 ^ 64 ≡ begin - max_code_bytes = omega arith in
      let hi : (end + max_code_bytes) % 2 ^ 64 ≡ end + max_code_bytes = omega arith in
      let set : (begin == 0) ≡ false = ground arith in
      rw (h, set, lo, hi)
        (Ensures-bind (IsFlushed addr_of (begin - max_code_bytes) (end + max_code_bytes) e.cache) _
          (Jit.flush_range (begin - max_code_bytes) (end + max_code_bytes) e.cache) _
          (flush_range-IsFlushed addr_of _ _ v) λ c f. (f, refl))

  unprotect_code-pending :
      (m : Option Mapping) (e e' : Exec Mem)
      → unprotect_code addr_of g m e ≡ ok e'
      → (e'.cache ≡ e.cache)
        × ((k : Mapping) → m ≡ some k → e'.to_flush ≡ (k.offset, mapping_end k))
  unfolding unprotect_code flush_tampered_code
  unprotect_code-pending none e e' h = cc
  unprotect_code-pending (some m) e e' h = ground arith

  -- With coherent caches, after two handled signals of which the second is at a mapping that
  -- leaves MAX_CODE_BYTES on both sides, a pending flush that returns keeps the compiled code
  -- at every address more than MAX_CODE_BYTES outside the second mapping, those of the first
  -- included, and is no longer pending.
  pub first_flush_lost :
      (a b : ℕ) (e e' e'' : Exec Mem) (m : Mapping)
      → IsCoherent addr_of e.cache
      → signal_handler addr_of g a e ≡ ok e'
      → signal_handler addr_of g b e' ≡ ok e''
      → lookup_mapping e'.mem b ≡ some m
      → HasMargins m.offset (mapping_end m)
      → (x : ℕ) → (x + max_code_bytes < m.offset) ⊎ (mapping_end m + max_code_bytes < x)
      → Ensures
          (λ k. (find x k.cache.jit_cache ≡ find x e.cache.jit_cache) × (k.to_flush ≡ (0, 0)))
          (flush_pending addr_of g e'')
  unfolding signal_handler
  first_flush_lost a b e e' e'' m v h h' found margins x outside =
      let p = unprotect_code-pending (lookup_mapping e.mem a) e e' h in
      let q = unprotect_code-pending (lookup_mapping e'.mem b) e' e'' h' in
      let same : e''.cache ≡ e.cache = q.0 ∙ p.0 in
      Ensures-mono _ _ (flush_pending addr_of g e'')
        (λ k r. (r.0.jits x ∙ rw same (ground arith), r.1))
        (flush_pending-IsFlushed e'' m.offset (mapping_end m) (rw same v) (q.1 m found) margins)
