-- ===== src/PtShadow/Fewer.antt =====
-- src/cpu/ptshadowamd64.cc: VEXLLVM_NO_EFLAGS_FIXUP gives up fixups and adds none.
use vexllvm.Base.{
  ℕ, ◌≡◌, refl, arith, inl, inr, Bool, true, false, ◌&&◌, List, [], ◌∷◌, ltb, ◌==◌, if◌then◌else◌,
  member, Bool-cases, ok,
}
use vexllvm.PtShadow.Decode.{
  fixup_guest, max_ins_buf, fetch_bytes, prefix_length, flag_ops8, flag_ops16, fixed_ops16, op16,
  any_op32, is_fixable, fixup_from, can_fixup,
}

more_fixable :
    (a b c d e : Bool)
    → (if a && false
        then true
        else if b && false
        then true
        else if c
        then true
        else if d
        then true
        else if e
        then true
        else false)
      ≡ true
    → (if a && true
        then true
        else if b && true
        then true
        else if c
        then true
        else if d
        then true
        else if e
        then true
        else false)
      ≡ true
more_fixable a b c d e h = ground arith

is_fixable_more :
    (has_memlog : Bool) (len : ℕ) (buf : ℕ → ℕ)
    → is_fixable false has_memlog len buf ≡ true
    → is_fixable true has_memlog len buf ≡ true
unfolding is_fixable
is_fixable_more has_memlog len buf h =
    let off = prefix_length (buf 0) in
    more_fixable (member (buf off) flag_ops8) (member (op16 buf off) flag_ops16)
      (member (op16 buf off) fixed_ops16) (any_op32 0 len buf)
      (has_memlog && (op16 buf off == 41743)) h

fixup_from_more :
    (has_memlog : Bool) (guest : ℕ → ℕ) (insts : List (ℕ × ℕ)) (buf : ℕ → ℕ)
    → fixup_from false has_memlog guest insts buf ≡ ok fixup_guest
    → fixup_from true has_memlog guest insts buf ≡ ok fixup_guest
unfolding fixup_from
fixup_from_more has_memlog guest [] buf h = absurd (ground arith)
fixup_from_more has_memlog guest ((addr, len) ∷ insts) buf h =
    let b = fetch_bytes guest addr len buf in
    elim (Bool-cases (ltb len max_ins_buf)) [
      | inl fits ↦ elim (Bool-cases (is_fixable false has_memlog len b)) [
        | inl fixed ↦ rw (fits, is_fixable_more has_memlog len b fixed) refl
        | inr still ↦
            let rest = fixup_from_more has_memlog guest insts b (rw (fits, still) at h) in
            elim (Bool-cases (is_fixable true has_memlog len b)) [
              | inl now ↦ rw (fits, now) refl
              | inr never ↦ rw (fits, never) rest
            ]
      ]
      | inr long ↦ absurd (ground arith)
    ]

-- Instructions that are fixed up with VEXLLVM_NO_EFLAGS_FIXUP set are also fixed up without it,
-- whatever the buffer held before.
pub can_fixup_more :
    (is_sigill has_memlog : Bool) (guest : ℕ → ℕ) (insts : List (ℕ × ℕ)) (stack : ℕ → ℕ)
    → can_fixup is_sigill false has_memlog guest insts stack ≡ ok fixup_guest
    → can_fixup is_sigill true has_memlog guest insts stack ≡ ok fixup_guest
unfolding can_fixup
can_fixup_more true has_memlog guest insts stack h = h
can_fixup_more false has_memlog guest insts stack h = fixup_from_more has_memlog guest insts stack h
