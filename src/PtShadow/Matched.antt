-- ===== src/PtShadow/Matched.antt =====
-- src/cpu/ptshadowamd64.cc: what isMatch tests, and when it holds behind a copy of the registers.
use vexllvm.Base.{
  ℕ, zero, suc, ◌+◌, ◌<◌, ◌≤◌, ◌≡◌, ◌↔◌, ◌⊎◌, inl, inr, refl, sym, ap, ◌∙◌, arith, Bool, true,
  false, not, ◌&&◌, List, [], ◌∷◌, ◌==◌, if◌then◌else◌, All, length, ==_iff, Bool-cases,
}
use vexllvm.PtShadow.Regs.{
  Reg, rip, rax, rbx, rcx, rdx, rsp, rbp, rdi, rsi, r8, r9, r10, r11, r12, r13, r14, UserRegs,
  FpRegs, VexState, get_reg_user, get_reg_vex, mask_flags, Amd64Lib, get_rflags,
}
use vexllvm.PtShadow.Compare.{
  mismatch_below, is_reg_mismatch, passes_from, is_sse_ok, is_seg_fail, is_x87_ok, is_match,
}

-- What holds of each number below n.
abbrev pub AllBelow : ℕ → (ℕ → Type 0) → Type 0
AllBelow zero P = Unit
AllBelow (suc n) P = AllBelow n P × P n

pub AllBelow-map : {P Q : ℕ → Type 0} (n : ℕ) → ((i : ℕ) → P i → Q i) → AllBelow n P → AllBelow n Q
AllBelow-map zero f h = tt
AllBelow-map (suc n) f (h, p) = (AllBelow-map n f h, f n p)

pub below : {P : ℕ → Type 0} (n : ℕ) → ((i : ℕ) → i < n → P i) → AllBelow n P
below zero f = tt
below (suc n) f = (below n (λ i h. f i (omega arith)), f n (omega arith))

pub at : (P : ℕ → Type 0) (n i : ℕ) → i < n → AllBelow n P → P i
at P zero i h a = absurd (omega arith)
at P (suc n) i h (a, p) = elim (Bool-cases (i == n)) [
  | inl last ↦ let e : i ≡ n = ground arith in rw e p
  | inr below ↦ at P n i (ground arith) a
]

passes_from-suc :
    (i n : ℕ) (test : ℕ → Bool) → passes_from i (suc n) test ≡ passes_from i n test && test (i + n)
unfolding passes_from
passes_from-suc i zero test = let e : i + 0 ≡ i = omega arith in rw e (ground arith)
passes_from-suc i (suc n) test =
    let e : i + suc n ≡ suc i + n = omega arith in
    let h = passes_from-suc (suc i) n test in
    elim (Bool-cases (test i)) [ inl passes ↦ rw (passes, e) h | inr fails ↦ rw fails refl ]

both_true : (a b : Bool) → (a && b) ≡ true → (a ≡ true) × (b ≡ true)
both_true true true h = (refl, refl)
both_true true false h = absurd (ground arith)
both_true false b h = absurd (ground arith)

-- The loop passes exactly if each test does.
pub passes_from_lem :
    (n : ℕ) (test : ℕ → Bool)
    → (passes_from 0 n test ≡ true → AllBelow n (λ i. test i ≡ true))
      × (AllBelow n (λ i. test i ≡ true) → passes_from 0 n test ≡ true)
passes_from_lem zero test = (λ h. tt, λ h. unfold passes_from in refl)
passes_from_lem (suc n) test =
    let (to, back) = passes_from_lem n test in
    let zero_n : 0 + n ≡ n = omega arith in
    let e : passes_from 0 (suc n) test ≡ passes_from 0 n test && test n =
      passes_from-suc 0 n test ∙ ap (λ k. passes_from 0 n test && test k) zero_n in
    (
      λ h.
          let (below, last) = both_true (passes_from 0 n test) (test n) (sym e ∙ h) in
          (to below, last),
      λ h. e ∙ rw (back h.0, h.1) refl,
    )

-- The registers that isMatch compares: R15 is not among them.
abbrev pub compared : List Reg
compared =
    rip ∷ rax ∷ rbx ∷ rcx ∷ rdx ∷ rsp ∷ rbp ∷ rdi ∷ rsi ∷ r8 ∷ r9 ∷ r10 ∷ r11 ∷ r12 ∷ r13 ∷ r14 ∷ []

mismatch_below_lem :
    (n : ℕ) (tab : List Reg) (v : VexState) (u : UserRegs)
    → length tab ≤ n
    → ((mismatch_below n tab v u ≡ false) → All (λ x. get_reg_user x u ≡ get_reg_vex x v) tab)
      × (All (λ x. get_reg_user x u ≡ get_reg_vex x v) tab → mismatch_below n tab v u ≡ false)
unfolding mismatch_below
mismatch_below_lem zero [] v u l = (λ h. tt, λ h. refl)
mismatch_below_lem zero (x ∷ tab) v u l = absurd (omega arith)
mismatch_below_lem (suc n) [] v u l = (λ h. tt, λ h. refl)
mismatch_below_lem (suc n) (x ∷ tab) v u l =
    let (to, back) = mismatch_below_lem n tab v u (omega arith) in
    elim (Bool-cases (get_reg_user x u == get_reg_vex x v)) [
      | inl same ↦ (λ h. (ground arith, to (rw same at h)), λ h. rw same (back h.1))
      | inr differs ↦ (λ h. absurd (ground arith), λ h. absurd (ground arith))
    ]

parts :
    (e f r x s g : Bool)
    → (if e && not f then false else not r && (x && s) && not g) ≡ true
    → ((e ≡ false) ⊎ (f ≡ true)) × (r ≡ false) × (x ≡ true) × (s ≡ true) × (g ≡ false)
parts true false r x s g h = absurd (ground arith)
parts true true r x s g h = (inr refl, ground arith, ground arith, ground arith, ground arith)
parts false f r x s g h = (inl refl, ground arith, ground arith, ground arith, ground arith)

segment_of :
    (v : VexState) (u : UserRegs)
    → is_seg_fail v u ≡ false
    → (u.fs_base ≡ 0) ⊎ (u.fs_base ≡ v.fs_const)
segment_of v u h = elim (Bool-cases (u.fs_base == 0)) [
  | inl clear ↦ inl (ground arith)
  | inr set ↦ inr (ground arith)
]

flags_pass : (e : Bool) (m n : ℕ) → (e ≡ false) ⊎ (m ≡ n) → (e && not (m == n)) ≡ false
flags_pass e m n (inl off) = rw off refl
flags_pass e m n (inr same) = ground arith

segment_passes :
    (v : VexState) (u : UserRegs)
    → (u.fs_base ≡ 0) ⊎ (u.fs_base ≡ v.fs_const)
    → is_seg_fail v u ≡ false
segment_passes v u (inl clear) = ground arith
segment_passes v u (inr same) = ground arith

module _ (c : Amd64Lib) where
  -- What isMatch compares.
  pub record IsMatched (xchk_eflags : Bool) (v : VexState) (u : UserRegs) (fp : FpRegs)
      : Type 0 where
    pub flags : (xchk_eflags ≡ false) ⊎ (mask_flags u.eflags ≡ get_rflags c v)
    pub registers : All (λ x. get_reg_user x u ≡ get_reg_vex x v) compared
    pub x87 : AllBelow 8 (λ i. is_x87_ok c v fp i ≡ true)
    pub sse : AllBelow 16 (λ i. v.ymm_low i ≡ fp.xmm_space i)
    pub segment : (u.fs_base ≡ 0) ⊎ (u.fs_base ≡ v.fs_const)

  pub is_reg_mismatch_lem :
      (v : VexState) (u : UserRegs)
      → ((is_reg_mismatch v u ≡ false) → All (λ x. get_reg_user x u ≡ get_reg_vex x v) compared)
        × (All (λ x. get_reg_user x u ≡ get_reg_vex x v) compared → is_reg_mismatch v u ≡ false)
  unfolding is_reg_mismatch mismatch_below
  is_reg_mismatch_lem v u = mismatch_below_lem 16 compared v u (omega arith)

  -- isMatch holds exactly if the flags agree, unless they are not checked, RIP and the 15
  -- general registers but R15 agree, each pair of x87 registers passes fcompare, the low halves
  -- of the 16 YMM registers are the XMM registers, and the FS bases agree, unless the one of
  -- the process is 0.
  pub is_match_lem :
      (xchk_eflags : Bool) (v : VexState) (u : UserRegs) (fp : FpRegs)
      → (is_match c xchk_eflags v u fp ≡ true) ↔ IsMatched xchk_eflags v u fp
  unfolding is_match
  is_match_lem xchk_eflags v u fp =
      let (regs, regs_back) = is_reg_mismatch_lem v u in
      let (x87, x87_back) = passes_from_lem 8 (is_x87_ok c v fp) in
      let (sse, sse_back) = passes_from_lem 16 (is_sse_ok v fp) in
      (
        λ h.
            let (flags, same, st, xmm, segment) =
              parts xchk_eflags (mask_flags u.eflags == get_rflags c v) (is_reg_mismatch v u)
                (passes_from 0 8 (is_x87_ok c v fp)) (passes_from 0 16 (is_sse_ok v fp))
                (is_seg_fail v u) h in
            record {
              flags = elim flags [ inl off ↦ inl off | inr equal ↦ inr (ground arith) ];
              registers = regs same;
              x87 = x87 st;
              sse =
                  AllBelow-map {P = λ i. is_sse_ok v fp i ≡ true}
                    {Q = λ i. v.ymm_low i ≡ fp.xmm_space i} 16
                    (λ i e. (==_iff (v.ymm_low i) (fp.xmm_space i)).0 e) (sse xmm);
              segment = segment_of v u segment;
            },
        λ m.
            rw
              (
                flags_pass xchk_eflags (mask_flags u.eflags) (get_rflags c v) m.flags,
                regs_back m.registers,
                x87_back m.x87,
                sse_back (
                    AllBelow-map {P = λ i. v.ymm_low i ≡ fp.xmm_space i}
                      {Q = λ i. is_sse_ok v fp i ≡ true} 16
                      (λ i e. (==_iff (v.ymm_low i) (fp.xmm_space i)).1 e) m.sse),
                segment_passes v u m.segment,
              )
              refl,
      )
