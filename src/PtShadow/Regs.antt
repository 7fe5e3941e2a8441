-- ===== src/PtShadow/Regs.antt =====
-- src/cpu/ptshadowamd64.cc and src/cpu/amd64cpustate.cc: the registers of the native process and
-- those of the guest, and the copies between them. A flag register is a number.
use vexllvm.Base.{
  ℕ, zero, suc, ◌+◌, ◌*◌, ◌/◌, ◌%◌, ◌^◌, ◌-◌, Bool, List, [], ◌∷◌, ◌==◌, if◌then◌else◌, Result, ok,
  fault, Fault,
}

-- The registers of user_regs_desc_tab
pub data Reg : Type 0 where
  rip rax rbx rcx rdx rsp rbp rdi rsi : Reg
  r8 r9 r10 r11 r12 r13 r14 r15 fs_base : Reg

-- `struct user_regs_struct`, its fields that the source uses
pub record UserRegs : Type 0 where
  pub rip : ℕ
  pub rax : ℕ
  pub rbx : ℕ
  pub rcx : ℕ
  pub rdx : ℕ
  pub rsp : ℕ
  pub rbp : ℕ
  pub rdi : ℕ
  pub rsi : ℕ
  pub r8 : ℕ
  pub r9 : ℕ
  pub r10 : ℕ
  pub r11 : ℕ
  pub r12 : ℕ
  pub r13 : ℕ
  pub r14 : ℕ
  pub r15 : ℕ
  pub fs_base : ℕ
  pub eflags : ℕ

-- `struct user_fpregs_struct`: xmm registers of 128 bits and words of 32
pub record FpRegs : Type 0 where
  pub xmm_space : ℕ → ℕ
  pub st_space : ℕ → ℕ

-- `VexGuestAMD64State`, its fields that the source uses; a YMM register is its two halves.
pub record VexState : Type 0 where
  pub rip : ℕ
  pub rax : ℕ
  pub rbx : ℕ
  pub rcx : ℕ
  pub rdx : ℕ
  pub rsp : ℕ
  pub rbp : ℕ
  pub rdi : ℕ
  pub rsi : ℕ
  pub r8 : ℕ
  pub r9 : ℕ
  pub r10 : ℕ
  pub r11 : ℕ
  pub r12 : ℕ
  pub r13 : ℕ
  pub r14 : ℕ
  pub r15 : ℕ
  pub fs_const : ℕ
  pub ymm_low : ℕ → ℕ
  pub ymm_high : ℕ → ℕ
  pub ftop : ℕ
  pub fpreg : ℕ → ℕ
  pub dflag : ℕ
  pub cc_op : ℕ
  pub cc_dep1 : ℕ
  pub cc_dep2 : ℕ
  pub cc_ndep : ℕ

-- user_regs_desc_tab
abbrev pub user_regs_desc_tab : List Reg
user_regs_desc_tab =
    rip ∷ rax ∷ rbx ∷ rcx ∷ rdx ∷ rsp ∷ rbp ∷ rdi ∷ rsi ∷ r8 ∷ r9 ∷ r10 ∷ r11 ∷ r12 ∷ r13 ∷ r14
    ∷ r15 ∷ fs_base ∷ []

-- GPR_COUNT
abbrev pub gpr_count : ℕ
gpr_count = 16

abbrev pub get_reg_user : Reg → UserRegs → ℕ
get_reg_user rip u = u.rip
get_reg_user rax u = u.rax
get_reg_user rbx u = u.rbx
get_reg_user rcx u = u.rcx
get_reg_user rdx u = u.rdx
get_reg_user rsp u = u.rsp
get_reg_user rbp u = u.rbp
get_reg_user rdi u = u.rdi
get_reg_user rsi u = u.rsi
get_reg_user r8 u = u.r8
get_reg_user r9 u = u.r9
get_reg_user r10 u = u.r10
get_reg_user r11 u = u.r11
get_reg_user r12 u = u.r12
get_reg_user r13 u = u.r13
get_reg_user r14 u = u.r14
get_reg_user r15 u = u.r15
get_reg_user fs_base u = u.fs_base

abbrev pub set_reg_user : Reg → ℕ → UserRegs → UserRegs
set_reg_user rip z u = record u { rip = z }
set_reg_user rax z u = record u { rax = z }
set_reg_user rbx z u = record u { rbx = z }
set_reg_user rcx z u = record u { rcx = z }
set_reg_user rdx z u = record u { rdx = z }
set_reg_user rsp z u = record u { rsp = z }
set_reg_user rbp z u = record u { rbp = z }
set_reg_user rdi z u = record u { rdi = z }
set_reg_user rsi z u = record u { rsi = z }
set_reg_user r8 z u = record u { r8 = z }
set_reg_user r9 z u = record u { r9 = z }
set_reg_user r10 z u = record u { r10 = z }
set_reg_user r11 z u = record u { r11 = z }
set_reg_user r12 z u = record u { r12 = z }
set_reg_user r13 z u = record u { r13 = z }
set_reg_user r14 z u = record u { r14 = z }
set_reg_user r15 z u = record u { r15 = z }
set_reg_user fs_base z u = record u { fs_base = z }

abbrev pub get_reg_vex : Reg → VexState → ℕ
get_reg_vex rip v = v.rip
get_reg_vex rax v = v.rax
get_reg_vex rbx v = v.rbx
get_reg_vex rcx v = v.rcx
get_reg_vex rdx v = v.rdx
get_reg_vex rsp v = v.rsp
get_reg_vex rbp v = v.rbp
get_reg_vex rdi v = v.rdi
get_reg_vex rsi v = v.rsi
get_reg_vex r8 v = v.r8
get_reg_vex r9 v = v.r9
get_reg_vex r10 v = v.r10
get_reg_vex r11 v = v.r11
get_reg_vex r12 v = v.r12
get_reg_vex r13 v = v.r13
get_reg_vex r14 v = v.r14
get_reg_vex r15 v = v.r15
get_reg_vex fs_base v = v.fs_const

-- `& FLAGS_MASK`: the bits 0 to 7, 10 and 11
abbrev pub mask_flags : ℕ → ℕ
mask_flags x = x % 256 + x / 1024 % 4 * 1024

-- `| (1 << k)`
abbrev pub or_bit : ℕ → ℕ → ℕ
or_bit k x = if x / 2 ^ k % 2 == 0 then x + 2 ^ k else x

-- A loop of copies to the entries below n.
unfoldable pub copy_below : ℕ → (ℕ → ℕ) → (ℕ → ℕ) → ℕ → ℕ
copy_below zero source target = target
copy_below (suc n) source target =
    let rest = copy_below n source target in λ j. if j == n then source n else rest j

-- Two words of the x87 registers.
abbrev pub two_words : (ℕ → ℕ) → ℕ → ℕ
two_words st i = st (2 * i) + 2 ^ 32 * st (2 * i + 1)

-- The assignments of AMD64CPUState::setRegs
unfoldable pub assign_regs : UserRegs → FpRegs → VexState → VexState
assign_regs r fp v = record {
  rip = r.rip;
  rax = r.rax;
  rbx = r.rbx;
  rcx = r.rcx;
  rdx = r.rdx;
  rsp = r.rsp;
  rbp = r.rbp;
  rdi = r.rdi;
  rsi = r.rsi;
  r8 = r.r8;
  r9 = r.r9;
  r10 = r.r10;
  r11 = r.r11;
  r12 = r.r12;
  r13 = r.r13;
  r14 = r.r14;
  r15 = r.r15;
  fs_const = r.fs_base;
  ymm_low = copy_below 16 fp.xmm_space v.ymm_low;
  ymm_high = v.ymm_high;
  ftop = v.ftop;
  fpreg = copy_below 8 (two_words fp.st_space) v.fpreg;
  dflag = if r.eflags / 2 ^ 10 % 2 == 1 then 2 ^ 64 - 1 else 1;
  cc_op = 0;
  cc_dep1 = mask_flags r.eflags;
  cc_dep2 = 0;
  cc_ndep = mask_flags r.eflags;
}

-- AMD64CPUState::setRegs
unfoldable pub set_regs : UserRegs → FpRegs → VexState → Result VexState
set_regs r fp v = if r.fs_base == 0 then fault Fault.assertion else ok (assign_regs r fp v)

-- What the source calls: VEX's LibVEX_GuestAMD64_get_rflags, and the host's conversion of the long
-- double in three words, whose result is compared with a double.
pub record Amd64Lib : Type 0 where
  pub get_rflags : VexState → ℕ
  pub long_double_is : ℕ → ℕ → ℕ → ℕ → Bool

-- The loop of vex2ptrace over the table.
unfoldable pub copy_regs : List Reg → VexState → UserRegs → UserRegs
copy_regs [] v r = r
copy_regs (x ∷ tab) v r = copy_regs tab v (set_reg_user x (get_reg_vex x v) r)

module _ (c : Amd64Lib) where
  -- AMD64CPUState::getRFLAGS
  unfoldable pub get_rflags : VexState → ℕ
  get_rflags v = or_bit 1 (mask_flags (c.get_rflags v))

  -- PTShadowAMD64::vex2ptrace
  unfoldable pub vex2ptrace : VexState → UserRegs → FpRegs → UserRegs × FpRegs
  vex2ptrace v r fp = (
    record (copy_regs user_regs_desc_tab v r) { eflags = or_bit 9 (get_rflags v) },
    record { xmm_space = copy_below 16 v.ymm_low (λ i. 0); st_space = λ i. 0 },
  )
