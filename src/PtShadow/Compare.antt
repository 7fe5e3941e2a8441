-- ===== src/PtShadow/Compare.antt =====
-- src/cpu/ptshadowamd64.cc: whether the native process and the guest have the same registers.
use vexllvm.Base.{
  ℕ, zero, suc, ◌+◌, ◌*◌, ◌%◌, ◌^◌, Bool, true, false, not, ◌&&◌, ◌||◌, List, [], ◌∷◌, ◌==◌,
  if◌then◌else◌,
}
use vexllvm.PtShadow.Regs.{
  Reg, UserRegs, FpRegs, VexState, user_regs_desc_tab, gpr_count, get_reg_user, get_reg_vex,
  mask_flags, Amd64Lib, get_rflags,
}

-- The loop of isRegMismatch: at most n entries of the table.
unfoldable pub mismatch_below : ℕ → List Reg → VexState → UserRegs → Bool
mismatch_below zero tab v u = false
mismatch_below (suc n) [] v u = false
mismatch_below (suc n) (x ∷ tab) v u =
    let rest = mismatch_below n tab v u in
    if not (get_reg_user x u == get_reg_vex x v) then true else rest

-- PTShadowAMD64::isRegMismatch
unfoldable pub is_reg_mismatch : VexState → UserRegs → Bool
is_reg_mismatch v u = mismatch_below gpr_count user_regs_desc_tab v u

-- A loop over i that ends at the first test that fails, and whether none did.
unfoldable pub passes_from : ℕ → ℕ → (ℕ → Bool) → Bool
passes_from i zero test = true
passes_from i (suc left) test =
    let rest = passes_from (suc i) left test in if test i then rest else false

-- `memcmp` of a YMM register's low half with an XMM register
abbrev pub is_sse_ok : VexState → FpRegs → ℕ → Bool
is_sse_ok v fp i = v.ymm_low i == fp.xmm_space i

-- `seg_fail`
abbrev pub is_seg_fail : VexState → UserRegs → Bool
is_seg_fail v u = if u.fs_base == 0 then false else not (u.fs_base == v.fs_const)

module _ (c : Amd64Lib) where
  -- fcompare, of the words from i on
  unfoldable pub fcompare : (ℕ → ℕ) → ℕ → ℕ → Bool
  fcompare st i d =
      ((d == st i + 2 ^ 32 * st (i + 1))
        && ((st (i + 2) == 0) || (st (i + 2) == 65535))
        && (st (i + 3) == 0))
      || c.long_double_is (st i) (st (i + 1)) (st (i + 2)) d

  -- `is_ok` of the x87 loop
  unfoldable pub is_x87_ok : VexState → FpRegs → ℕ → Bool
  is_x87_ok v fp i = fcompare fp.st_space (2 * i) (v.fpreg ((v.ftop + i) % 8))

  -- PTShadowAMD64::isMatch, with what PTRACE_GETFPREGS gave
  unfoldable pub is_match : Bool → VexState → UserRegs → FpRegs → Bool
  is_match xchk_eflags v u fp =
      if xchk_eflags && not (mask_flags u.eflags == get_rflags c v)
      then false
      else not (is_reg_mismatch v u)
        && (passes_from 0 8 (is_x87_ok v fp) && passes_from 0 16 (is_sse_ok v fp))
        && not (is_seg_fail v u)
