-- ===== src/Exec/Signals.antt =====
-- src/vexexec.cc: what a write to translated code sets off.
use vexllvm.Base.{
  ℕ, zero, suc, ◌≡◌, ◌⊎◌, refl, true, false, not, ◌&&◌, Option, none, some, arith, List, [], ◌∷◌,
  Bool-cases, inl, inr, ok, fault, Fault,
}
use vexllvm.Exec.State.{Mapping, Guest, Exec}
use vexllvm.Exec.Dispatch.{unprotect_code, flush_tampered_code, signal_handler, handle_faults}
use vexllvm.Exec.Protection.{KeepsMappings}

abbrev pub replicate {ℓ} : {A : Type ℓ} → ℕ → A → List A
replicate zero a = []
replicate (suc n) a = a ∷ replicate n a

module _ (addr_of : ℕ → ℕ) (g : Guest) where
  open g use {Mem, lookup_mapping, record_mapping, mapping_end, host_ptr}

  -- What a handled signal leaves: the page as it was asked for but not to be run, and its
  -- addresses to be flushed.
  record IsUnprotected (a : ℕ) (m : Mapping) (e e' : Exec Mem) : Type 0 where
    pub mapping : Mapping
    pub found : lookup_mapping e'.mem a ≡ some mapping
    pub asked : mapping.req_prot ≡ m.req_prot
    pub not_run : mapping.cur_prot.exec ≡ false
    pub as_asked : mapping.cur_prot.write ≡ m.req_prot.write
    pub pending : e'.to_flush ≡ (m.offset, mapping_end m)
    pub cache_kept : e'.cache ≡ e.cache

  -- With a guest memory that finds a recorded mapping again, a signal at an address whose
  -- mapping may be run and cannot be written now is handled: the mapping keeps what was asked
  -- for, is writable if that was asked for, cannot be run, its range is to be flushed, and the
  -- caches are as before.
  signal_handler-IsUnprotected :
      KeepsMappings addr_of g
      → (a : ℕ) (e : Exec Mem) (m : Mapping) → lookup_mapping e.mem a ≡ some m
      → m.req_prot.exec ≡ true
      → m.cur_prot.write ≡ false
      → (e' : Exec Mem) × (signal_handler addr_of g a e ≡ ok e') × IsUnprotected a m e e'
  unfolding signal_handler unprotect_code flush_tampered_code
  signal_handler-IsUnprotected keeps a e m h runs fixed =
      let m' : Mapping = record m { cur_prot = record (m.req_prot) { exec = false } } in
      (
        record e { mem = record_mapping e.mem m'; to_flush = (m.offset, mapping_end m) },
        rw (h, unprotect_code) (ground arith),
        record {
          mapping = m';
          found = keeps e.mem a m _ h;
          asked = refl;
          not_run = refl;
          as_asked = refl;
          pending = refl;
          cache_kept = refl;
        },
      )

  -- What a signal that is handled has in common: its address has a mapping.
  abbrev pub IsHandled : Option Mapping → Type 0
  IsHandled none = ⊥
  IsHandled (some m) = (m.req_prot.exec ≡ true) × (m.cur_prot.write ≡ false)

  -- A signal is at an address whose mapping may be run and cannot be written now, or it ends
  -- the process.
  pub signal_handler_exits :
      (a : ℕ) (e : Exec Mem)
      → IsHandled (lookup_mapping e.mem a)
        ⊎ (signal_handler addr_of g a e ≡ fault Fault.signal_exit)
  unfolding signal_handler
  signal_handler_exits a e = exits (lookup_mapping e.mem a)
    where
      exits :
          (m : Option Mapping)
          → IsHandled m ⊎ (unprotect_code addr_of g m e ≡ fault Fault.signal_exit)
      exits none = unfold unprotect_code in inr refl
      exits (some m) =
          unfold unprotect_code in
          elim (Bool-cases (m.req_prot.exec && not m.cur_prot.write)) [
            | inl handled ↦ inl (ground arith, ground arith)
            | inr other ↦ inr (rw other refl)
          ]

  -- With a guest memory that finds a recorded mapping again, any number of signals at an
  -- address whose mapping may be run and was asked for without write permission are all
  -- handled, and the mapping stays unwritable.
  pub readonly_code_loops :
      KeepsMappings addr_of g
      → (n a : ℕ) (e : Exec Mem) (m : Mapping) → lookup_mapping e.mem a ≡ some m
      → m.req_prot.exec ≡ true
      → m.req_prot.write ≡ false
      → m.cur_prot.write ≡ false
      → (e' : Exec Mem) × (m' : Mapping) × (handle_faults addr_of g (replicate n a) e ≡ ok e')
        × (lookup_mapping e'.mem a ≡ some m')
        × (m'.cur_prot.write ≡ false)
  unfolding handle_faults
  readonly_code_loops keeps zero a e m h runs never fixed = (e, m, refl, h, fixed)
  readonly_code_loops keeps (suc n) a e m h runs never fixed =
      let (e', handled, u) = signal_handler-IsUnprotected keeps a e m h runs fixed in
      rw handled (
        readonly_code_loops keeps n a e' u.mapping u.found (rw u.asked runs) (rw u.asked never)
          (rw u.as_asked never))
