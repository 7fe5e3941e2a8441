-- ===== src/Exec/Dispatch.antt =====
-- src/vexexec.cc: one round of the dispatcher.
use vexllvm.Base.{
  ℕ, ◌+◌, ◌-◌, ◌%◌, ◌^◌, Bool, true, false, not, ◌&&◌, List, [], ◌∷◌, ◌++◌, Option, none, some, ltb,
  ◌==◌, if◌then◌else◌, Result, ok, fault, Fault, ◌>>=◌,
}
use vexllvm.Base.Int.{ℤ, increment, decrement}
use vexllvm.Cache.Lookup.{get_cached_fptr}
use vexllvm.Cache.Fetch.{get_vsb}
use vexllvm.Cache.Jit
use vexllvm.Cache.State.{Cache}
use vexllvm.Exec.State.{Mapping, Guest, ExitType, TraceConf, Exec, Env}

abbrev pub trace_max : ℕ
trace_max = 500

abbrev pub max_code_bytes : ℕ
max_code_bytes = 1024

-- `trace.pop_front()`
unfoldable pub pop_front {ℓ} : {A : Type ℓ} → List A → List A
pop_front [] = []
pop_front (x ∷ l) = l

module _ (addr_of : ℕ → ℕ) (g : Guest) where
  open g use {Mem, lookup_mapping, record_mapping, mapping_end, host_ptr}

  -- The trace under TRACE_LOG; under TRACE_STDERR the dispatcher only prints.
  unfoldable pub log_dispatch : TraceConf → Exec Mem → Exec Mem
  log_dispatch TraceConf.off e = e
  log_dispatch TraceConf.stderr e = e
  log_dispatch TraceConf.log e =
      let entry : ℕ × ℤ = (e.next_addr, e.call_depth) in
      if ltb trace_max e.trace_c
      then record e { trace = pop_front e.trace ++ entry ∷ [] }
      else record e { trace = e.trace ++ entry ∷ []; trace_c = e.trace_c + 1 }

  -- The flush that a write to translated code asked for; guest addresses have 64 bits.
  unfoldable pub flush_pending : Exec Mem → Result (Exec Mem)
  flush_pending e = if e.to_flush.0 == 0 then ok e else do
    c ←
        Jit.flush_range ((e.to_flush.0 + 2 ^ 64 - max_code_bytes) % 2 ^ 64)
          ((e.to_flush.1 + max_code_bytes) % 2 ^ 64) e.cache
    ok (record e { cache = c; to_flush = (0, 0) })

  -- The protections in `getSBFromGuestAddr`: `none` refuses to run the page.
  unfoldable pub protect_code : Option Mapping → Exec Mem → Option (Exec Mem)
  protect_code none e = some e
  protect_code (some m) e =
      if not m.req_prot.exec
      then none
      else if m.cur_prot.write
      then some (record e {
        mem = record_mapping e.mem (record m { cur_prot = record (m.req_prot) { write = false } });
      })
      else some e

  -- `assert((!found || vsb->getEndAddr() < m.end()))`
  unfoldable pub fits_mapping : Env → Option Mapping → ℕ → Bool
  fits_mapping v none vsb = true
  fits_mapping v (some m) vsb = ltb (v.end_addr vsb) (mapping_end m)

  -- `getSBFromGuestAddr` from the lookup of the superblock on.
  unfoldable pub compile_sb :
      Env → ℕ → ℕ → Option Mapping → Exec Mem → Cache × Option ℕ → Result (Exec Mem × Option ℕ)
  compile_sb v hostptr elfptr m e (c, none) = ok (record e { cache = c }, none)
  compile_sb v hostptr elfptr m e (c, some vsb) = do
    r ← Jit.get_fptr addr_of v.backend hostptr elfptr c
    if fits_mapping v m vsb then ok (record e { cache = r.0 }, some vsb) else fault Fault.assertion

  -- `getSBFromGuestAddr` after the protections.
  unfoldable pub load_sb :
      Env → ℕ → Option Mapping → Exec Mem → Option (Exec Mem) → Result (Exec Mem × Option ℕ)
  load_sb v elfptr m e none = ok (e, none)
  load_sb v elfptr m e (some e') = do
    r ← get_vsb addr_of v.backend Jit.evict (host_ptr e.mem elfptr) elfptr e'.cache
    compile_sb v (host_ptr e.mem elfptr) elfptr m e' r

  -- VexExec::getSBFromGuestAddr
  unfoldable pub get_sb_from_guest_addr : Env → ℕ → Exec Mem → Result (Exec Mem × Option ℕ)
  get_sb_from_guest_addr v elfptr e =
      let m = lookup_mapping e.mem elfptr in load_sb v elfptr m e (protect_code m e)

  -- VexExec::flushTamperedCode
  unfoldable pub flush_tampered_code : ℕ → ℕ → Exec Mem → Exec Mem
  flush_tampered_code begin end e = record e { to_flush = (begin, end) }

  -- `signalHandler`, on the mapping of the address.
  unfoldable pub unprotect_code : Option Mapping → Exec Mem → Result (Exec Mem)
  unprotect_code none e = fault Fault.signal_exit
  unprotect_code (some m) e =
      if m.req_prot.exec && not m.cur_prot.write
      then ok (
          flush_tampered_code m.offset (mapping_end m) (record e {
            mem =
                record_mapping e.mem (record m { cur_prot = record (m.req_prot) { exec = false } });
          }))
      else fault Fault.signal_exit

  -- VexExec::signalHandler
  unfoldable pub signal_handler : ℕ → Exec Mem → Result (Exec Mem)
  signal_handler addr e = unprotect_code (lookup_mapping e.mem addr) e

  -- The signals that a run of compiled code meets.
  unfoldable pub handle_faults : List ℕ → Exec Mem → Result (Exec Mem)
  handle_faults [] e = ok e
  handle_faults (addr ∷ addrs) e = do e' ← signal_handler addr e; handle_faults addrs e'

  -- `doVexSB`, on the compiled code that the caches have for the superblock.
  unfoldable pub run_fptr : Env → Exec Mem → Cache × Option ℕ → Result (Exec Mem × ℕ)
  run_fptr v e (c, none) = fault Fault.assertion
  run_fptr v e (c, some func_ptr) = do
    let r = v.run func_ptr
    e' ← handle_faults r.faults (record e { cache = c })
    ok (
      record e' { exit_type = r.exit_type; sb_executed_c = (e'.sb_executed_c + 1) % 2 ^ 32 },
      r.new_ip,
    )

  -- VexExec::doVexSB
  unfoldable pub do_vex_sb : Env → ℕ → Exec Mem → Result (Exec Mem × ℕ)
  do_vex_sb v vsb e = run_fptr v e (get_cached_fptr e.cache (addr_of vsb))

  -- VexExec::doSysCall; `exit_code` is an `int`, kept as its bit pattern.
  unfoldable pub do_sys_call : Env → Exec Mem → Exec Mem
  do_sys_call v e =
      let c = v.call in
      let e' = if c.is_exit then record e { exited = true; exit_code = c.sc_ret % 2 ^ 32 } else e in
      record e' { syscall_result = c.sc_ret }

  -- The end of a round that goes on: the exit type is taken back and the next address set.
  unfoldable pub go_on : ℕ → ℕ → Exec Mem → Exec Mem × Option ℕ
  go_on vsb new_ip e = (record e { exit_type = ExitType.ignore; next_addr = new_ip }, some vsb)

  -- A round after which the guest may have exited.
  unfoldable pub go_on_unless_exited : ℕ → ℕ → Exec Mem → Exec Mem × Option ℕ
  go_on_unless_exited vsb new_ip e =
      if e.exited then (record e { exit_type = ExitType.ignore }, none) else go_on vsb new_ip e

  -- The `switch` of `doNextSB`. `doTrap` does nothing in `VexExec`.
  unfoldable pub special_exit : Env → ExitType → ℕ → ℕ → Exec Mem → Result (Exec Mem × Option ℕ)
  special_exit v ExitType.ignore vsb ip e = ok (go_on vsb ip e)
  special_exit v ExitType.call vsb ip e =
      ok (go_on vsb ip (record e { call_depth = increment e.call_depth }))
  special_exit v ExitType.return vsb ip e =
      ok (go_on vsb ip (record e { call_depth = decrement e.call_depth }))
  special_exit v ExitType.int vsb ip e = ok (go_on_unless_exited vsb ip (do_sys_call v e))
  special_exit v ExitType.syscall vsb ip e = ok (go_on_unless_exited vsb ip (do_sys_call v e))
  special_exit v ExitType.sigtrap vsb ip e = ok (go_on_unless_exited vsb ip e)
  special_exit v ExitType.emwarn vsb ip e = ok (go_on vsb ip e)
  special_exit v ExitType.sigsegv vsb ip e = fault Fault.assertion
  special_exit v ExitType.sigbus vsb ip e = fault Fault.assertion
  special_exit v ExitType.yield vsb ip e = fault Fault.assertion

  -- `doNextSB` from the superblock on.
  unfoldable pub execute : Env → Exec Mem × Option ℕ → Result (Exec Mem × Option ℕ)
  execute v (e, none) = ok (e, none)
  execute v (e, some vsb) = do
    (e', new_jmpaddr) ← do_vex_sb v vsb e
    special_exit v e'.exit_type vsb new_jmpaddr e'

  -- `doNextSB` after the pending flush.
  unfoldable pub dispatch : Env → ℕ → Exec Mem → Result (Exec Mem × Option ℕ)
  dispatch v elfptr e =
      if elfptr == 0 then ok (e, none) else do r ← get_sb_from_guest_addr v elfptr e; execute v r

  -- VexExec::doNextSB
  unfoldable pub do_next_sb : Env → Exec Mem → Result (Exec Mem × Option ℕ)
  do_next_sb v e = do e' ← flush_pending (log_dispatch e.trace_conf e); dispatch v e.next_addr e'

  -- VexExec::stepVSB
  unfoldable pub step_vsb : Env → Exec Mem → Result (Exec Mem × Bool)
  step_vsb v e =
      let round = do_next_sb v e in
      if e.exited
      then ok (e, false)
      else do (e', vsb) ← round; ok (e', (elim vsb [ none ↦ false | some _ ↦ true ]))
