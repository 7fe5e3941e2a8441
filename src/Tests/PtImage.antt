-- ===== src/Tests/PtImage.antt =====
-- src/ptimgchk.cc and src/cpu/ptshadowamd64.cc: a guest and a process that stand at one instruction.
use vexllvm.Base.{
  ℕ, ◌+◌, ◌^◌, ◌-◌, ◌≡◌, ◌≢◌, ◌↔◌, refl, arith, Bool, true, false, [], ◌∷◌, Option, none, some, ltb,
  leb, ◌&&◌, if◌then◌else◌, All, ok,
}
use vexllvm.PtShadow.Regs.{
  VexState, UserRegs, FpRegs, Amd64Lib, user_regs_desc_tab, get_reg_user, get_reg_vex,
}
use vexllvm.PtShadow.Compare
use vexllvm.PtShadow.Matched.{AllBelow, IsMatched, is_match_lem}
use vexllvm.PtShadow.Decode.{fixup_guest}
use vexllvm.PtImage.MemLog.{MemLog, is_match_mem_log}
use vexllvm.PtImage.Stored.{is_match_mem_log_lem}
use vexllvm.PtImage.Pages.{root_trace}
use vexllvm.PtImage.Traced.{IsSameDat, root_trace_lem}
use vexllvm.PtImage.Fixed.{is_copied}
use vexllvm.PtImage.Check.{Image, Host, is_match, fixup_by, verify_block_run}
use vexllvm.PtImage.Settled.{is_fp_ok, verify_block_run-is_match}
use vexllvm.PtImage.Slurped.{fixup_by-guest}

abbrev vex : VexState
vex = record {
  rip = 4100;
  rax = 5;
  rbx = 0;
  rcx = 0;
  rdx = 0;
  rsp = 70000;
  rbp = 0;
  rdi = 0;
  rsi = 0;
  r8 = 0;
  r9 = 0;
  r10 = 0;
  r11 = 0;
  r12 = 0;
  r13 = 0;
  r14 = 0;
  r15 = 0;
  fs_const = 139000;
  ymm_low = λ i. i;
  ymm_high = λ i. 0;
  ftop = 3;
  fpreg = λ i. 0;
  dflag = 1;
  cc_op = 0;
  cc_dep1 = 4;
  cc_dep2 = 0;
  cc_ndep = 4;
}

-- The process is one instruction behind, and has another RAX and RSP.
abbrev user : UserRegs
user = record {
  rip = 4096;
  rax = 6;
  rbx = 0;
  rcx = 0;
  rdx = 0;
  rsp = 71000;
  rbp = 0;
  rdi = 0;
  rsi = 0;
  r8 = 0;
  r9 = 0;
  r10 = 0;
  r11 = 0;
  r12 = 0;
  r13 = 0;
  r14 = 0;
  r15 = 0;
  fs_base = 139000;
  eflags = 582;
}

abbrev fp : FpRegs
fp = record { xmm_space = λ i. 0; st_space = λ i. 7 }

-- Flags as `AMD64G_CC_OP_COPY` has them, and no long doubles.
abbrev copied_flags : Amd64Lib
copied_flags = record { get_rflags = λ v. v.cc_dep1; long_double_is = λ a b c d. false }

-- One page is mapped, and may be written.
abbrev stack_page : ℕ → Option Bool
stack_page a = if leb 69632 a && ltb a 73728 then some true else none

abbrev host : Host
host = record {
  lookup = stack_page;
  state_words = λ v. v.rsp ∷ v.rip ∷ [];
  set_regs_fp = λ u p. p;
  lib = copied_flags;
}

abbrev guest_bytes : ℕ → ℕ
guest_bytes a = 9

abbrev native_bytes : ℕ → ℕ
native_bytes a = 8

-- A store of five bytes at an address that is not a multiple of eight.
abbrev store : MemLog
store = record { address = 70005; size = 5; bytes = λ j. 9 }

abbrev image : Image
image = record {
  mem_log = some store;
  xchk_eflags = true;
  xchk_stack = false;
  xchk_rootptrs = true;
  xchk_watchptr = 0;
  fixup_eflags = true;
  fixup_c = 0;
  vex = vex;
  user = user;
  fp = fp;
  guest_mem = guest_bytes;
  native_mem = native_bytes;
}

is_match_example :
    (Compare.is_match copied_flags true vex user fp ≡ true)
    ↔ IsMatched copied_flags true vex user fp
is_match_example = is_match_lem copied_flags true vex user fp

is_match_mem_log_example :
    (b : Bool) × (is_match_mem_log native_bytes guest_bytes (some store) ≡ ok b)
    × ((b ≡ true) ↔ AllBelow 5 (λ j. native_bytes (70005 + j) ≡ guest_bytes (70005 + j)))
is_match_mem_log_example = is_match_mem_log_lem native_bytes guest_bytes store (omega arith)

nothing_first : stack_page 0 ≢ some true
nothing_first e = absurd (ground arith)

nothing_last : stack_page (2 ^ 64 - 4096) ≢ some true
nothing_last e = absurd (ground arith)

root_trace_example :
    (root_trace stack_page native_bytes guest_bytes (70000 ∷ 4096 ∷ []) ≡ true)
    ↔ All (IsSameDat stack_page native_bytes guest_bytes) (70000 ∷ 4096 ∷ [])
root_trace_example =
    root_trace_lem stack_page native_bytes guest_bytes (70000 ∷ 4096 ∷ []) nothing_first

-- The XMM registers differ, and still do behind the fixup.
verify_block_run_example :
    (c' : Image) × (n : ℕ) × (verify_block_run host false true (λ i. 0) [] 4100 image ≡ ok (c', n))
    × (is_match host c' ≡ ok (is_fp_ok host image))
verify_block_run_example =
    verify_block_run-is_match host (λ i. 0) [] 4100 image (λ u p. refl) (omega arith) refl refl
      (omega arith, (omega arith, tt)) nothing_first nothing_last

has_tls : user.fs_base ≢ 0
has_tls e = omega arith

fixup_by-guest_example :
    (c' : Image) × (fixup_by host fixup_guest image ≡ ok (c', true))
    × All (λ x. get_reg_vex x c'.vex ≡ get_reg_user x user) user_regs_desc_tab
    × (Compare.is_match copied_flags false c'.vex user fp
        ≡ Compare.passes_from 0 8 (Compare.is_x87_ok copied_flags c'.vex fp))
    × (c'.guest_mem 70005
        ≡ (if is_copied stack_page (c'.vex.rsp ∷ c'.vex.rip ∷ []) 70005 then 8 else 9))
fixup_by-guest_example = fixup_by-guest host image 70005 has_tls
