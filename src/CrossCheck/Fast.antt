-- ===== src/CrossCheck/Fast.antt =====
-- src/vexexecfastchk.cc: the checker that compares a native process with the guest at system calls,
-- with doSysCallCore of src/vexexecchk.cc.
use vexllvm.Base.{ℕ, ◌+◌, ◌-◌, ◌^◌, ◌%◌, Bool, ◌==◌, if◌then◌else◌, Result, ok, fault, Fault, ◌>>=◌}

-- `VexGuestAMD64State`: the registers that the checker reads and writes, and the others
pub record Cpu (S : Type 0) : Type 0 where
  pub guest_rip : ℕ
  pub guest_rcx : ℕ
  pub others : S

-- What the checker calls: the methods of PTImgChk and its PTImgArch on the native process, those
-- of Guest and Syscalls on the guest, and the compiled code of a superblock, without and with a
-- log of its stores. A run returns the next address. A stands for SyscallParams, M for the
-- SyscallsMarshalled that a call is logged in. The native step of a call reads both the log and
-- the guest's registers.
pub record Native (S P A M : Type 0) : Type 0 where
  pub sys_brk : ℕ
  pub is_match : Cpu S → P → Bool
  pub breakpoint_sys_calls : ℕ → ℕ → P → P
  pub has_mem_log : P → Bool
  pub clear_mem_log : P → P
  pub step_to_breakpoint : P → P × ℕ
  pub set_rcx : ℕ → P → P
  pub reset_breakpoint : ℕ → P → P
  pub set_breakpoint : ℕ → P → P
  pub step_sys_call : M → Cpu S → P → P
  pub sys_call_result : P → ℕ
  pub get_sys_call_params : Cpu S → A
  pub get_sys_call : A → ℕ
  pub set_arg : ℕ → ℕ → A → A
  pub translate_sys_call : ℕ → ℕ
  pub reset_sys_call : Cpu S → Cpu S
  pub exec_sys_call : A → M → Cpu S → Result (M × Cpu S)
  pub run_sb : Cpu S → Result (ℕ × Cpu S)
  pub run_sb_aux : Cpu S → P → Result (ℕ × Cpu S × P)

-- `class VexExecFastChk`
pub record FastChecker (S P M : Type 0) : Type 0 where
  pub guest : Cpu S
  pub shadow : P
  -- `sc`
  pub marshalled : M
  pub pt_sc_req_c : ℕ
  pub pt_sc_done_c : ℕ

-- `guest_RIP -= 2` and `guest_RIP += 2`
unfoldable pub move_back : {S : Type 0} → Cpu S → Cpu S
move_back g = record g { guest_rip = (g.guest_rip + (2 ^ 64 - 2)) % 2 ^ 64 }

unfoldable pub move_on : {S : Type 0} → Cpu S → Cpu S
move_on g = record g { guest_rip = (g.guest_rip + 2) % 2 ^ 64 }

module _ {S P A M : Type 0} (n : Native S P A M) where
  -- VexExecFastChk::doVexSB
  unfoldable pub fast_vex_sb : ℕ → ℕ → FastChecker S P M → Result (FastChecker S P M × ℕ)
  fast_vex_sb start end c =
      let p = n.breakpoint_sys_calls start end c.shadow in
      let logged = do
        ran ← n.run_sb_aux c.guest (n.clear_mem_log p)
        ok (record c { guest = ran.1; shadow = ran.2 }, ran.0)
      in let plain = do
        ran ← n.run_sb c.guest
        ok (record c { guest = record ran.1 { guest_rip = ran.0 }; shadow = p }, ran.0)
        in if n.has_mem_log p then logged else plain

  -- VexExecChk::stepSysCall
  unfoldable pub step_sys_call : M → Cpu S → P → Cpu S × P
  step_sys_call sc g p = (n.reset_sys_call g, n.step_sys_call sc g p)

  -- VexExecChk::doSysCallCore
  unfoldable pub do_sys_call_core : M → Cpu S → P → Result (M × Cpu S × P)
  do_sys_call_core sc g p =
      let sp = n.get_sys_call_params g in
      let stepped = step_sys_call sc g p in
      let brk = do
        r ← n.exec_sys_call (n.set_arg 0 (n.sys_call_result stepped.1) sp) sc stepped.0
        ok (r.0, r.1, stepped.1)
      in let plain = do
        r ← n.exec_sys_call sp sc g
        let s = step_sys_call r.0 r.1 p in ok (r.0, s.0, s.1)
        in if n.translate_sys_call (n.get_sys_call sp) == n.sys_brk then brk else plain

  -- The native process as it stands before the first comparison.
  unfoldable pub scoot : ℕ → P × ℕ → P
  scoot rcx (p, bp_addr) = n.reset_breakpoint bp_addr (n.set_rcx rcx p)

  -- VexExecFastChk::doSysCall; `dumpShadow` ends the process.
  unfoldable pub fast_sys_call : FastChecker S P M → Result (FastChecker S P M)
  fast_sys_call c =
      let stepped = n.step_to_breakpoint c.shadow in
      let g = move_back c.guest in
      let p = scoot c.guest.guest_rcx stepped in
      let finish : M × Cpu S × P → Result (FastChecker S P M) = λ done.
        if n.is_match done.1 done.2
        then ok (record {
          guest = done.1;
          shadow = n.set_breakpoint stepped.1 done.2;
          marshalled = done.0;
          pt_sc_req_c = (c.pt_sc_req_c + 1) % 2 ^ 32;
          pt_sc_done_c = (c.pt_sc_done_c + 1) % 2 ^ 32;
        })
        else fault Fault.mismatch_exit in
      if n.is_match g p
      then do_sys_call_core c.marshalled (move_on g) p >>= finish
      else fault Fault.mismatch_exit
