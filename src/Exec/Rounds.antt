-- ===== src/Exec/Rounds.antt =====
-- src/vexexec.cc: the invariant over whole rounds of the dispatcher.
use vexllvm.Base.{
  ℕ, ◌≡◌, Option, none, some, ◌==◌, Bool-cases, inl, inr, Ensures, Ensures-bind, Ensures-mono,
}
use vexllvm.Base.Maps.{find}
use vexllvm.Cache.State.{Cache}
use vexllvm.Cache.Lookup.{get_cached_fptr}
use vexllvm.Cache.Coherence.Entries.{IsCoherent, get_cached_fptr_lem}
use vexllvm.Cache.Coherence.Steps.{refill_jit-IsCoherent}
use vexllvm.Cache.Coherence.Fetch.{IsAddressed, HasVsb, get_vsb-HasVsb}
use vexllvm.Cache.Coherence.Walk.{HasFptr, get_fptr-HasFptr}
use vexllvm.Exec.Invariant.{
  IsSound, log_dispatch-IsSound, with_cache-IsSound, flush_pending-IsSound, protect_code-cases,
  handle_faults-IsSound,
}
use vexllvm.Exec.State.{Mapping, Guest, ExitType, Exec, Env}
use vexllvm.Exec.Dispatch.{
  protect_code, fits_mapping, compile_sb, load_sb, get_sb_from_guest_addr, run_fptr, do_vex_sb,
  do_sys_call, go_on, go_on_unless_exited, special_exit, execute, dispatch, do_next_sb,
}

module _ (addr_of : ℕ → ℕ) (g : Guest) (v : Env) (addressed : IsAddressed addr_of v.backend) where
  open g use {Mem, lookup_mapping, host_ptr}

  -- A superblock that was loaded is filed under the address, and so is its code.
  abbrev IsFiled : ℕ → Cache → Option ℕ → Type 0
  IsFiled a c none = Unit
  IsFiled a c (some s) = (addr_of s ≡ a) × ((p : ℕ) × (find a c.jit_cache ≡ some p))

  abbrev IsLoaded : ℕ → Exec Mem × Option ℕ → Type 0
  IsLoaded a r = IsSound addr_of r.0 × IsFiled a r.0.cache r.1

  -- The code that `doVexSB` looks up for a superblock is there.
  abbrev pub HasCode : Exec Mem × Option ℕ → Type 0
  HasCode (e, none) = Unit
  HasCode (e, some s) = (p : ℕ) × ((get_cached_fptr e.cache (addr_of s)).1 ≡ some p)

  compile_sb-IsLoaded :
      (hostptr a : ℕ) (m : Option Mapping) {e : Exec Mem} (r : Cache × Option ℕ)
      → IsSound addr_of e
      → HasVsb addr_of a e.cache r
      → Ensures (IsLoaded a) (compile_sb addr_of g v hostptr a m e r)
  unfolding compile_sb
  compile_sb-IsLoaded hostptr a m (c, none) s (x, has) =
      (with_cache-IsSound addr_of g s x.coherent, tt)
  compile_sb-IsLoaded hostptr a m {e} (c, some vsb) s (x, has) =
      Ensures-bind (HasFptr addr_of a) (IsLoaded a) _ _
        (get_fptr-HasFptr addr_of v.backend addressed hostptr a x.coherent)
        λ r k. elim (Bool-cases (fits_mapping addr_of g v m vsb)) [
          | inr spans ↦ rw spans tt
          | inl fits ↦
              rw fits
                (with_cache-IsSound addr_of g s k.0, (x.coherent.addressed a vsb has, (r.1, k.1)))
        ]

  load_sb-IsLoaded :
      (a : ℕ) (m : Option Mapping) {e : Exec Mem}
      → IsSound addr_of e
      → Ensures (IsLoaded a) (load_sb addr_of g v a m e (protect_code addr_of g m e))
  unfolding load_sb
  load_sb-IsLoaded a m {e} s = elim (protect_code-cases addr_of g m e) [
    | inl refused ↦ rw refused (s, tt)
    | inr (mem, e') ↦
        let s' : IsSound addr_of (record e { mem = mem }) = record {
          coherent = s.coherent;
          counted = s.counted;
          bounded = s.bounded;
        } in
        rw e' (
          Ensures-bind (HasVsb addr_of a e.cache) (IsLoaded a) _ _
            (get_vsb-HasVsb addr_of v.backend addressed (host_ptr e.mem a) a s.coherent)
            λ r x. compile_sb-IsLoaded (host_ptr e.mem a) a m r s' x)
  ]

  run_fptr-IsSound :
      {e : Exec Mem} (r : Cache × Option ℕ)
      → IsSound addr_of e
      → IsCoherent addr_of r.0
      → Ensures (λ x. IsSound addr_of x.0) (run_fptr addr_of g v e r)
  unfolding run_fptr
  run_fptr-IsSound (c, none) s k = tt
  run_fptr-IsSound {e} (c, some p) s k =
      Ensures-bind (IsSound addr_of) (λ x. IsSound addr_of x.0) _ _
        (handle_faults-IsSound addr_of g (v.run p).faults (with_cache-IsSound addr_of g s k))
        λ e' s'. record { coherent = s'.coherent; counted = s'.counted; bounded = s'.bounded }

  -- From a sound state, with a translator that gives a superblock the address that was asked
  -- for, a superblock that getSBFromGuestAddr returns has compiled code in the caches, at the
  -- address by which doVexSB looks it up.
  pub get_sb-HasCode :
      (a : ℕ) {e : Exec Mem}
      → IsSound addr_of e
      → Ensures HasCode (get_sb_from_guest_addr addr_of g v a e)
  unfolding get_sb_from_guest_addr
  get_sb-HasCode a {e} s =
      Ensures-mono (IsLoaded a) HasCode _ loaded (load_sb-IsLoaded a (lookup_mapping e.mem a) s)
    where
      loaded : (r : Exec Mem × Option ℕ) → IsLoaded a r → HasCode r
      loaded (e', none) k = tt
      loaded (e', some t) (s', (here, (p, found))) =
          let (d, same, backed) = get_cached_fptr_lem s'.coherent a in (p, rw (here, same) found)

  go_on-IsSound :
      (vsb ip : ℕ) {e : Exec Mem} → IsSound addr_of e → IsSound addr_of (go_on addr_of g vsb ip e).0
  unfolding go_on
  go_on-IsSound vsb ip s = record {
    coherent = s.coherent;
    counted = s.counted;
    bounded = s.bounded;
  }

  go_on_unless_exited-IsSound :
      (vsb ip : ℕ) {e : Exec Mem}
      → IsSound addr_of e
      → IsSound addr_of (go_on_unless_exited addr_of g vsb ip e).0
  unfolding go_on_unless_exited
  go_on_unless_exited-IsSound vsb ip {e} s = elim (Bool-cases e.exited) [
    | inl over ↦
        simp over (record { coherent = s.coherent; counted = s.counted; bounded = s.bounded })
    | inr running ↦ simp running (go_on-IsSound vsb ip s)
  ]

  do_sys_call-IsSound :
      {e : Exec Mem} → IsSound addr_of e → IsSound addr_of (do_sys_call addr_of g v e)
  unfolding do_sys_call
  do_sys_call-IsSound {e} s = elim (Bool-cases v.call.is_exit) [
    | inl last ↦
        rw last (record { coherent = s.coherent; counted = s.counted; bounded = s.bounded })
    | inr other ↦
        rw other (record { coherent = s.coherent; counted = s.counted; bounded = s.bounded })
  ]

  special_exit-IsSound :
      (t : ExitType) (vsb ip : ℕ) {e : Exec Mem}
      → IsSound addr_of e
      → Ensures (λ r. IsSound addr_of r.0) (special_exit addr_of g v t vsb ip e)
  unfolding special_exit
  special_exit-IsSound ExitType.ignore vsb ip s = go_on-IsSound vsb ip s
  special_exit-IsSound ExitType.call vsb ip s =
      go_on-IsSound vsb ip
        (record { coherent = s.coherent; counted = s.counted; bounded = s.bounded })
  special_exit-IsSound ExitType.return vsb ip s =
      go_on-IsSound vsb ip
        (record { coherent = s.coherent; counted = s.counted; bounded = s.bounded })
  special_exit-IsSound ExitType.int vsb ip s =
      go_on_unless_exited-IsSound vsb ip (do_sys_call-IsSound s)
  special_exit-IsSound ExitType.syscall vsb ip s =
      go_on_unless_exited-IsSound vsb ip (do_sys_call-IsSound s)
  special_exit-IsSound ExitType.sigtrap vsb ip s = go_on_unless_exited-IsSound vsb ip s
  special_exit-IsSound ExitType.emwarn vsb ip s = go_on-IsSound vsb ip s
  special_exit-IsSound ExitType.sigsegv vsb ip s = tt
  special_exit-IsSound ExitType.sigbus vsb ip s = tt
  special_exit-IsSound ExitType.yield vsb ip s = tt

  execute-IsSound :
      (r : Exec Mem × Option ℕ)
      → IsSound addr_of r.0
      → Ensures (λ x. IsSound addr_of x.0) (execute addr_of g v r)
  unfolding execute do_vex_sb
  execute-IsSound (e, none) s = s
  execute-IsSound (e, some vsb) s =
      let (d, e', backed) = get_cached_fptr_lem s.coherent (addr_of vsb) in
      rw e' (
        Ensures-bind (λ x. IsSound addr_of x.0) (λ x. IsSound addr_of x.0) _ _
          (run_fptr-IsSound _ s (refill_jit-IsCoherent s.coherent backed))
          λ r s'. special_exit-IsSound r.0.exit_type vsb r.1 s')

  dispatch-IsSound :
      (a : ℕ) {e : Exec Mem}
      → IsSound addr_of e
      → Ensures (λ x. IsSound addr_of x.0) (dispatch addr_of g v a e)
  unfolding dispatch get_sb_from_guest_addr
  dispatch-IsSound a {e} s = elim (Bool-cases (a == 0)) [
    | inl null ↦ rw null s
    | inr other ↦ rw other (
        Ensures-bind (IsLoaded a) (λ x. IsSound addr_of x.0) _ _
          (load_sb-IsLoaded a (lookup_mapping e.mem a) s) λ r k. execute-IsSound r k.0)
  ]

  -- A round of the dispatcher that does not stop the process keeps the caches coherent and the
  -- trace bounded.
  pub do_next_sb-IsSound :
      {e : Exec Mem}
      → IsSound addr_of e
      → Ensures (λ x. IsSound addr_of x.0) (do_next_sb addr_of g v e)
  unfolding do_next_sb
  do_next_sb-IsSound {e} s =
      Ensures-bind (IsSound addr_of) (λ x. IsSound addr_of x.0) _ _
        (flush_pending-IsSound addr_of g (log_dispatch-IsSound addr_of g e.trace_conf s))
        λ e' s'. dispatch-IsSound e.next_addr s'
