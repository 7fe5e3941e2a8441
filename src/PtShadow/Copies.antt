-- ===== src/PtShadow/Copies.antt =====
-- src/cpu/ptshadowamd64.cc: the registers behind a copy to the native process, or from it.
use vexllvm.Base.{
  ℕ, zero, suc, ◌+◌, ◌*◌, ◌/◌, ◌%◌, ◌<◌, ◌≡◌, ◌≢◌, inl, inr, refl, arith, Bool, true, false, not,
  ◌&&◌, ◌==◌, ==_iff, if◌then◌else◌, All, Bool-cases, ok,
}
use vexllvm.PtShadow.Regs.{
  UserRegs, FpRegs, VexState, user_regs_desc_tab, get_reg_user, get_reg_vex, mask_flags, or_bit,
  copy_below, assign_regs, set_regs, Amd64Lib, copy_regs, get_rflags, vex2ptrace,
}
use vexllvm.PtShadow.Compare.{
  is_reg_mismatch, is_seg_fail, passes_from, is_sse_ok, is_x87_ok, is_match,
}
use vexllvm.PtShadow.Matched.{below, passes_from_lem, is_reg_mismatch_lem}

copy_below_lem :
    (n : ℕ) (source target : ℕ → ℕ) (j : ℕ) → j < n → copy_below n source target j ≡ source j
unfolding copy_below
copy_below_lem zero source target j h = absurd (omega arith)
copy_below_lem (suc n) source target j h = elim (Bool-cases (j == n)) [
  | inl last ↦ let e : j ≡ n = ground arith in rw (last, e) refl
  | inr below ↦ rw below (copy_below_lem n source target j (ground arith))
]

or_bit-flags :
    (a b : ℕ) → a < 256 → b < 4 → (a' : ℕ) × (a' < 256) × (or_bit 1 (a + b * 1024) ≡ a' + b * 1024)
or_bit-flags a b small high = elim (Bool-cases ((a + b * 1024) / 2 % 2 == 0)) [
  | inl clear ↦
      let e : (a + b * 1024) / 2 % 2 ≡ 0 = (==_iff ((a + b * 1024) / 2 % 2) 0).0 clear in
      (a + 2, omega arith, rw clear (omega arith))
  | inr set ↦ (a, small, rw set refl)
]

mask_flags-or_nine :
    (a b : ℕ) → a < 256 → b < 4 → mask_flags (or_bit 9 (a + b * 1024)) ≡ a + b * 1024
mask_flags-or_nine a b small high =
    let clear : (a + b * 1024) / 512 % 2 ≡ 0 = omega arith in
    let e : ((a + b * 1024) / 512 % 2 == 0) ≡ true =
      (==_iff ((a + b * 1024) / 512 % 2) 0).1 clear in
    rw e (omega arith)

-- The bit that vex2ptrace sets is none of those that are compared.
mask_flags-or_bit :
    (y : ℕ) → mask_flags (or_bit 9 (or_bit 1 (mask_flags y))) ≡ or_bit 1 (mask_flags y)
mask_flags-or_bit y =
    let (a, small, e) = or_bit-flags (y % 256) (y / 1024 % 4) (omega arith) (omega arith) in
    rw e (mask_flags-or_nine a (y / 1024 % 4) small (omega arith))

right_true : (x : Bool) → (true && (x && true) && true) ≡ x
right_true true = refl
right_true false = refl

unflagged : (xchk x : Bool) → (if xchk && not true then false else true && x && true) ≡ x
unflagged true true = refl
unflagged true false = refl
unflagged false true = refl
unflagged false false = refl

module _ (c : Amd64Lib) where
  -- With the guest's user registers, the floating-point registers alone decide.
  pub is_match-vex2ptrace :
      (xchk_eflags : Bool) (v : VexState) (u : UserRegs) (fp stopped : FpRegs)
      → is_match c xchk_eflags v (vex2ptrace c v u fp).0 stopped
        ≡ passes_from 0 8 (is_x87_ok c v stopped) && passes_from 0 16 (is_sse_ok v stopped)
  unfolding vex2ptrace copy_regs get_rflags is_match
  is_match-vex2ptrace xchk_eflags v u fp stopped =
      let pushed = (vex2ptrace c v u fp).0 in
      let flags : (mask_flags pushed.eflags == or_bit 1 (mask_flags (c.get_rflags v))) ≡ true =
        (==_iff _ _).1 (mask_flags-or_bit (c.get_rflags v)) in
      let regs : is_reg_mismatch v pushed ≡ false = (is_reg_mismatch_lem c v pushed).1 (
        refl,
        (
          refl,
          (
            refl,
            (
              refl,
              (
                refl,
                (
                  refl,
                  (
                    refl,
                    (refl, (refl, (refl, (refl, (refl, (refl, (refl, (refl, (refl, tt))))))))),
                  ),
                ),
              ),
            ),
          ),
        ),
      ) in
      let base_ok : is_seg_fail v pushed ≡ false = ground arith in
      rw (flags, regs, base_ok)
        (unflagged xchk_eflags
          (passes_from 0 8 (is_x87_ok c v stopped) && passes_from 0 16 (is_sse_ok v stopped)))

  pub is_match-set_regs :
      (v : VexState) (u : UserRegs) (fp : FpRegs)
      → u.fs_base ≢ 0
      → (v' : VexState) × (set_regs u fp v ≡ ok v')
        × All (λ x. get_reg_vex x v' ≡ get_reg_user x u) user_regs_desc_tab
        × (is_match c false v' u fp ≡ passes_from 0 8 (is_x87_ok c v' fp))
  unfolding set_regs assign_regs is_match
  is_match-set_regs v u fp base =
      let set : (u.fs_base == 0) ≡ false = ground arith in
      let sse : passes_from 0 16 (is_sse_ok (assign_regs u fp v) fp) ≡ true =
        (passes_from_lem 16 (is_sse_ok (assign_regs u fp v) fp)).1
          (below 16 (λ i h. (==_iff _ _).1 (copy_below_lem 16 fp.xmm_space v.ymm_low i h))) in
      let regs : is_reg_mismatch (assign_regs u fp v) u ≡ false =
        (is_reg_mismatch_lem c (assign_regs u fp v) u).1 (
          refl,
          (
            refl,
            (
              refl,
              (
                refl,
                (
                  refl,
                  (
                    refl,
                    (
                      refl,
                      (refl, (refl, (refl, (refl, (refl, (refl, (refl, (refl, (refl, tt))))))))),
                    ),
                  ),
                ),
              ),
            ),
          ),
        ) in
      let base_ok : is_seg_fail (assign_regs u fp v) u ≡ false = ground arith in
      (
        assign_regs u fp v,
        rw set refl,
        (
          refl,
          (
            refl,
            (
              refl,
              (
                refl,
                (
                  refl,
                  (
                    refl,
                    (
                      refl,
                      (
                        refl,
                        (
                          refl,
                          (
                            refl,
                            (refl, (refl, (refl, (refl, (refl, (refl, (refl, (refl, tt)))))))),
                          ),
                        ),
                      ),
                    ),
                  ),
                ),
              ),
            ),
          ),
        ),
        rw (sse, regs, base_ok)
            (right_true (passes_from 0 8 (is_x87_ok c (assign_regs u fp v) fp))),
      )
