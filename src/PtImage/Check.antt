-- ===== src/PtImage/Check.antt =====
-- src/ptimgchk.cc: the comparison of the native process with the guest, and its fixups; and
-- verifyBlockRun of src/vexexecchk.cc, which calls them.
use vexllvm.Base.{
  ℕ, ◌+◌, ◌%◌, ◌^◌, Bool, true, false, not, ◌&&◌, List, Option, none, some, ◌==◌, if◌then◌else◌,
  Result, ok, fault, Fault, ◌>>=◌,
}
use vexllvm.PtShadow.Regs.{UserRegs, FpRegs, VexState, Amd64Lib, set_regs, vex2ptrace}
use vexllvm.PtShadow.Compare
use vexllvm.PtShadow.Decode.{FixupDir, fixup_none, fixup_guest, fixup_native, can_fixup}
use vexllvm.PtImage.MemLog.{MemLog, clear, is_match_mem_log}
use vexllvm.PtImage.Pages.{
  root_trace, is_watch_ptr_match, is_stack_match, do_fixup_guest, do_fixup_native,
}

-- `class PTImgChk` with the registers and memories of both sides
pub record Image : Type 0 where
  pub mem_log : Option MemLog
  pub xchk_eflags : Bool
  pub xchk_stack : Bool
  pub xchk_rootptrs : Bool
  pub xchk_watchptr : ℕ
  pub fixup_eflags : Bool
  pub fixup_c : ℕ
  pub vex : VexState
  pub user : UserRegs
  -- what PTRACE_GETFPREGS gives
  pub fp : FpRegs
  pub guest_mem : ℕ → ℕ
  pub native_mem : ℕ → ℕ

abbrev pub is_logged : Option MemLog → Bool
is_logged none = false
is_logged (some l) = true

abbrev pub clear_log : Option MemLog → Option MemLog
clear_log none = none
clear_log (some l) = some clear

-- What the source calls: `lookup` is GuestMem::lookupMapping, as in Pages; `state_words` is the CPU
-- state as 64-bit words; `set_regs_fp` gives the process's floating-point registers after
-- PTAMD64CPUState::setRegs with these user registers; `lib` as in PtShadow.
pub record Host : Type 0 where
  pub lookup : ℕ → Option Bool
  pub state_words : VexState → List ℕ
  pub set_regs_fp : UserRegs → FpRegs → FpRegs
  pub lib : Amd64Lib

module _ (h : Host) where
  -- The tests of isMatch from the one of the log on, given its answer
  unfoldable pub last_tests : Image → Bool → Bool
  last_tests c stored =
      let watch = is_watch_ptr_match h.lookup c.native_mem c.guest_mem c.xchk_watchptr in
      let root = root_trace h.lookup c.native_mem c.guest_mem (h.state_words c.vex) in
      if not stored
      then false
      else if not (c.xchk_watchptr == 0) && not watch
      then false
      else if c.xchk_rootptrs && not root
      then false
      else true

  -- PTImgChk::isMatch
  unfoldable pub is_match : Image → Result Bool
  is_match c =
      let logged = do
        stored ← is_match_mem_log c.native_mem c.guest_mem c.mem_log
        ok (last_tests c stored)
      in if not (Compare.is_match h.lib c.xchk_eflags c.vex c.user c.fp)
        then ok false
        else if not (is_stack_match c.xchk_stack c.native_mem c.guest_mem c.user.rsp)
        then ok false
        else logged

  -- PTImgChk::doFixupNative; PTShadowAMD64::pushRegisters sets the process's user registers from
  -- what vex2ptrace made of them, and leaves the floating-point registers in the checker.
  unfoldable pub to_native : Image → Image
  to_native c =
      let pushed = vex2ptrace h.lib c.vex c.user c.fp in
      record c {
        user = pushed.0;
        fp = h.set_regs_fp pushed.0 c.fp;
        native_mem = do_fixup_native h.lookup (h.state_words c.vex) c.guest_mem c.native_mem;
      }

  -- PTImgChk::doFixupGuest
  unfoldable pub to_guest : Image → Result Image
  to_guest c = do
    vex ← set_regs c.user c.fp c.vex
    ok (record c {
      vex = vex;
      guest_mem = do_fixup_guest h.lookup (h.state_words vex) c.native_mem c.guest_mem;
    })

  -- The end of PTImgChk::fixup
  unfoldable pub settle : Image → Image
  settle c = record c { mem_log = clear_log c.mem_log; fixup_c = (c.fixup_c + 1) % 2 ^ 32 }

  unfoldable pub fixup_by : FixupDir → Image → Result (Image × Bool)
  fixup_by fixup_none c = ok (c, false)
  fixup_by fixup_native c = ok (settle (to_native c), true)
  fixup_by fixup_guest c = do c' ← to_guest c; ok (settle c', true)

  -- PTImgChk::fixup, of the instructions' addresses and lengths
  unfoldable pub fixup : Bool → (ℕ → ℕ) → List (ℕ × ℕ) → Image → Result (Image × Bool)
  fixup is_sigill stack insts c = do
    dir ← can_fixup is_sigill c.fixup_eflags (is_logged c.mem_log) c.guest_mem insts stack
    fixup_by dir c

  -- VexExecChk::verifyBlockRun: the image and next_addr where the guest goes on.
  -- `at_bad_address` is the test whose branch exits.
  unfoldable pub verify_block_run :
      Bool → Bool → (ℕ → ℕ) → List (ℕ × ℕ) → ℕ → Image → Result (Image × ℕ)
  verify_block_run at_bad_address is_sigill stack insts next_addr c = do
    matched ← is_match c
    if matched
        then ok (c, next_addr)
        else if at_bad_address
        then fault Fault.bad_address_exit
        else do
          fixed ← fixup is_sigill stack insts c
          if fixed.1 then ok (fixed.0, fixed.0.vex.rip) else fault Fault.mismatch_exit
