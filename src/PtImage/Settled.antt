-- ===== src/PtImage/Settled.antt =====
-- src/ptimgchk.cc: a native process that stops at an instruction that it does not know is fixed up
-- to match the guest.
use vexllvm.Base.{
  ℕ, ◌^◌, ◌-◌, ◌<◌, ◌≤◌, ◌≡◌, ◌≢◌, refl, sym, ap, ◌∙◌, arith, inl, inr, Bool, true, false, List,
  Option, none, some, All, Bool-cases, Result, ok, ◌&&◌, if◌then◌else◌,
}
use vexllvm.PtShadow.Regs.{UserRegs, FpRegs, vex2ptrace}
use vexllvm.PtShadow.Compare
use vexllvm.PtShadow.Copies.{is_match-vex2ptrace}
use vexllvm.PtShadow.Decode.{can_fixup}
use vexllvm.PtImage.MemLog.{max_store_bytes, MemLog, clear, is_match_mem_log}
use vexllvm.PtImage.Stored.{is_match_mem_log_lem}
use vexllvm.PtImage.Pages.{is_stack_match, do_fixup_native}
use vexllvm.PtImage.Fixed.{root_trace-do_fixup_native}
use vexllvm.PtImage.Check.{
  Image, Host, clear_log, last_tests, is_match, to_native, settle, fixup_by, fixup,
  verify_block_run,
}

-- A log that was cleared matches.
cleared :
    (native guest : ℕ → ℕ) (log : Option MemLog)
    → is_match_mem_log native guest (clear_log log) ≡ ok true
unfolding is_match_mem_log
cleared native guest none = refl
cleared native guest (some l) =
    let (b, done, same) = is_match_mem_log_lem native guest clear (omega arith) in
    done ∙ ap ok (same.1 tt)

-- A log is no longer than a store.
abbrev pub IsShort : Option MemLog → Type 0
IsShort none = Unit
IsShort (some l) = l.size ≤ max_store_bytes

log_returns :
    (native guest : ℕ → ℕ) (log : Option MemLog)
    → IsShort log
    → (b : Bool) × (is_match_mem_log native guest log ≡ ok b)
unfolding is_match_mem_log
log_returns native guest none short = (true, refl)
log_returns native guest (some l) short =
    let (b, done, same) = is_match_mem_log_lem native guest l short in (b, done)

spoiled : (flags regs base : Bool) → (if flags then false else regs && false && base) ≡ false
spoiled true regs base = refl
spoiled false true base = refl
spoiled false false base = refl

ok_differs : Result.ok true ≡ ok false → ⊥
ok_differs e = ground arith

module _ (h : Host) where
  is_match_returns : (c : Image) → IsShort c.mem_log → (b : Bool) × (is_match h c ≡ ok b)
  unfolding is_match
  is_match_returns c short =
      let (b, done) = log_returns c.native_mem c.guest_mem c.mem_log short in
      elim (Bool-cases (Compare.is_match h.lib c.xchk_eflags c.vex c.user c.fp)) [
        | inl same ↦
            elim (Bool-cases (is_stack_match c.xchk_stack c.native_mem c.guest_mem c.user.rsp)) [
              | inl level ↦ (last_tests h c b, rw (same, level, done) refl)
              | inr uneven ↦ (false, rw (same, uneven) refl)
            ]
        | inr differs ↦ (false, rw differs refl)
      ]

  -- Whether the x87 and the SSE registers of both sides agree.
  abbrev pub is_fp_ok : Image → Bool
  is_fp_ok c =
      Compare.passes_from 0 8 (Compare.is_x87_ok h.lib c.vex c.fp)
      && Compare.passes_from 0 16 (Compare.is_sse_ok c.vex c.fp)

  is_match-is_fp_ok : (c : Image) → is_match h c ≡ ok true → is_fp_ok c ≡ true
  unfolding is_match Compare.is_match
  is_match-is_fp_ok c e = elim (Bool-cases (is_fp_ok c)) [
    | inl same ↦ same
    | inr differs ↦
        let wrong : Compare.is_match h.lib c.xchk_eflags c.vex c.user c.fp ≡ false =
          rw differs (spoiled _ _ _) in
        absurd (ok_differs (sym e ∙ rw wrong refl))
  ]

  -- A fixup of the native process leaves the floating-point registers alone to be compared.
  fixup-is_match :
      (stack : ℕ → ℕ) (insts : List (ℕ × ℕ)) (c : Image)
      → ((u : UserRegs) (fp : FpRegs) → h.set_regs_fp u fp ≡ fp)
      → c.xchk_stack ≡ false
      → c.xchk_watchptr ≡ 0
      → All (λ w. w < 2 ^ 64) (h.state_words c.vex)
      → h.lookup 0 ≢ some true
      → h.lookup (2 ^ 64 - 4096) ≢ some true
      → (c' : Image) × (fixup h true stack insts c ≡ ok (c', true))
        × (is_match h c' ≡ ok (is_fp_ok c))
  unfolding fixup can_fixup fixup_by is_match last_tests settle to_native is_stack_match
  fixup-is_match stack insts c user_only no_stack no_watch words first last =
      let kept = user_only (vex2ptrace h.lib c.vex c.user c.fp).0 c.fp in
      let registers = is_match-vex2ptrace h.lib c.xchk_eflags c.vex c.user c.fp c.fp in
      let pages =
        root_trace-do_fixup_native h.lookup c.guest_mem c.native_mem (h.state_words c.vex) first
          last words in
      let memory = do_fixup_native h.lookup (h.state_words c.vex) c.guest_mem c.native_mem in
      let log = cleared memory c.guest_mem c.mem_log in
      (
        settle h (to_native h c),
        refl,
        rw (kept, registers, no_stack, no_watch, pages, log)
            (elim (Bool-cases (is_fp_ok c)) [
              | inr differs ↦ rw differs refl
              | inl same ↦ rw same (elim (Bool-cases c.xchk_rootptrs) [
                | inl on ↦ rw on refl
                | inr off ↦ rw off refl
              ])
            ]),
      )

  -- Let setRegs of the native process set its user registers alone, the log be no longer than a
  -- store, the stack check and the watched pointer be off, the words of the CPU state be
  -- 64-bit, and neither the first nor the last page be mapped to be written. For a native
  -- process that stopped with SIGILL verifyBlockRun then returns, and isMatch finds the native
  -- process that it leaves the same as the guest exactly if the x87 and SSE registers passed
  -- its tests before.
  pub verify_block_run-is_match :
      (stack : ℕ → ℕ) (insts : List (ℕ × ℕ)) (next_addr : ℕ) (c : Image)
      → ((u : UserRegs) (fp : FpRegs) → h.set_regs_fp u fp ≡ fp)
      → IsShort c.mem_log
      → c.xchk_stack ≡ false
      → c.xchk_watchptr ≡ 0
      → All (λ w. w < 2 ^ 64) (h.state_words c.vex)
      → h.lookup 0 ≢ some true
      → h.lookup (2 ^ 64 - 4096) ≢ some true
      → (c' : Image) × (n : ℕ) × (verify_block_run h false true stack insts next_addr c
          ≡ ok (c', n))
        × (is_match h c' ≡ ok (is_fp_ok c))
  unfolding verify_block_run
  verify_block_run-is_match stack insts next_addr c user_only short no_stack no_watch words first
        last =
      let (b, done) = is_match_returns c short in
      let (c', fixed, same) =
        fixup-is_match stack insts c user_only no_stack no_watch words first last in
      elim (Bool-cases b) [
        | inl matched ↦
            let e : is_match h c ≡ ok true = done ∙ ap ok matched in
            (c, next_addr, rw e refl, rw (is_match-is_fp_ok c e) e)
        | inr differs ↦
            let e : is_match h c ≡ ok false = done ∙ ap ok differs in
            (c', c'.vex.rip, rw (e, fixed) refl, same)
      ]
