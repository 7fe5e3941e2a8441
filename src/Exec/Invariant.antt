-- ===== src/Exec/Invariant.antt =====
-- src/vexexec.cc: what every round of the dispatcher keeps.
use vexllvm.Base.{
  ℕ, ◌+◌, ◌≤◌, ◌<◌, ◌≡◌, refl, not, ◌&&◌, List, [], ◌∷◌, Option, none, some, arith, ltb, ◌==◌,
  Bool-cases, ◌⊎◌, inl, inr, length, length-append, Ensures, Ensures-bind,
}
use vexllvm.Base.Int.{ℤ}
use vexllvm.Cache.State.{Cache}
use vexllvm.Cache.Coherence.Entries.{IsCoherent}
use vexllvm.Cache.Coherence.Flush.{IsFlushed, flush_range-IsFlushed}
use vexllvm.Exec.State.{Mapping, Guest, TraceConf, Exec}
use vexllvm.Exec.Dispatch.{
  trace_max, pop_front, log_dispatch, flush_pending, protect_code, unprotect_code,
  flush_tampered_code, signal_handler, handle_faults,
}

length-pop_front {ℓ} :
    {A : Type ℓ} (l : List A) → 0 < length l → length (pop_front l) + 1 ≡ length l
unfolding pop_front
length-pop_front [] h = absurd (omega arith)
length-pop_front (x ∷ l) h = omega arith

-- Coherent caches, and a trace as long as its counter says, of at most one entry more than
-- TRACE_MAX.
pub record IsSound (addr_of : ℕ → ℕ) {Mem : Type 0} (e : Exec Mem) : Type 0 where
  pub coherent : IsCoherent addr_of e.cache
  pub counted : length e.trace ≡ e.trace_c
  pub bounded : e.trace_c ≤ trace_max + 1

module _ (addr_of : ℕ → ℕ) (g : Guest) where
  open g use {Mem, lookup_mapping, record_mapping, mapping_end, host_ptr}

  pub log_dispatch-IsSound :
      (conf : TraceConf) {e : Exec Mem}
      → IsSound addr_of e
      → IsSound addr_of (log_dispatch addr_of g conf e)
  unfolding log_dispatch
  log_dispatch-IsSound TraceConf.off s = s
  log_dispatch-IsSound TraceConf.stderr s = s
  log_dispatch-IsSound TraceConf.log {e} s =
      let entry : List (ℕ × ℤ) = (e.next_addr, e.call_depth) ∷ [] in
      elim (Bool-cases (ltb trace_max e.trace_c)) [
        | inl full ↦ rw full (record {
          coherent = s.coherent;
          counted =
              ground (arith, length-append (pop_front e.trace) entry, length-pop_front e.trace);
          bounded = s.bounded;
        })
        | inr roomy ↦ rw roomy (record {
          coherent = s.coherent;
          counted = omega (arith, length-append e.trace entry, s.counted);
          bounded = ground arith;
        })
      ]

  -- A round changes the trace in `log_dispatch` alone.
  pub with_cache-IsSound :
      {e : Exec Mem} {c : Cache}
      → IsSound addr_of e
      → IsCoherent addr_of c
      → IsSound addr_of (record e { cache = c })
  with_cache-IsSound s v = record { coherent = v; counted = s.counted; bounded = s.bounded }

  pub flush_pending-IsSound :
      {e : Exec Mem} → IsSound addr_of e → Ensures (IsSound addr_of) (flush_pending addr_of g e)
  unfolding flush_pending
  flush_pending-IsSound {e} s = elim (Bool-cases (e.to_flush.0 == 0)) [
    | inl none_set ↦ rw none_set s
    | inr pending ↦ rw pending (
        Ensures-bind (IsFlushed addr_of _ _ e.cache) (IsSound addr_of) _ _
          (flush_range-IsFlushed addr_of _ _ s.coherent)
          λ c f. record { coherent = f.coherent; counted = s.counted; bounded = s.bounded })
  ]

  -- Only the memory is changed before the superblock is looked up.
  pub protect_code-cases :
      (m : Option Mapping) (e : Exec Mem)
      → (protect_code addr_of g m e ≡ none)
        ⊎ ((mem : Mem) × (protect_code addr_of g m e ≡ some (record e { mem = mem })))
  unfolding protect_code
  protect_code-cases none e = inr (e.mem, refl)
  protect_code-cases (some m) e = elim (Bool-cases (not m.req_prot.exec)) [
    | inl refused ↦ rw refused (inl refl)
    | inr runs ↦ elim (Bool-cases m.cur_prot.write) [
      | inl writable ↦ rw (runs, writable) (inr (_, refl))
      | inr fixed ↦ rw (runs, fixed) (inr (e.mem, refl))
    ]
  ]

  unprotect_code-IsSound :
      (m : Option Mapping) {e : Exec Mem}
      → IsSound addr_of e
      → Ensures (IsSound addr_of) (unprotect_code addr_of g m e)
  unfolding unprotect_code flush_tampered_code
  unprotect_code-IsSound none s = tt
  unprotect_code-IsSound (some m) s = elim (Bool-cases (m.req_prot.exec && not m.cur_prot.write)) [
    | inl code ↦
        rw code (record { coherent = s.coherent; counted = s.counted; bounded = s.bounded })
    | inr normal ↦ rw normal tt
  ]

  pub handle_faults-IsSound :
      (addrs : List ℕ) {e : Exec Mem}
      → IsSound addr_of e
      → Ensures (IsSound addr_of) (handle_faults addr_of g addrs e)
  unfolding handle_faults signal_handler
  handle_faults-IsSound [] s = s
  handle_faults-IsSound (a ∷ addrs) {e} s =
      Ensures-bind (IsSound addr_of) (IsSound addr_of) (unprotect_code addr_of g _ e) _
        (unprotect_code-IsSound (lookup_mapping e.mem a) s) λ e' s'. handle_faults-IsSound addrs s'
