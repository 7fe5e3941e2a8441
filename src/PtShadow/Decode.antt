-- ===== src/PtShadow/Decode.antt =====
-- src/cpu/ptshadowamd64.cc: whether a mismatch behind some instructions can be fixed up, read off
-- their bytes. BROKEN_OSDI is not defined.
use vexllvm.Base.{
  ℕ, zero, suc, ◌+◌, ◌*◌, Bool, true, false, ◌&&◌, List, [], ◌∷◌, ltb, ◌==◌, if◌then◌else◌, Result,
  ok, fault, Fault, member,
}

-- PTShadow::FixupDir
pub data FixupDir : Type 0 where
  fixup_none fixup_guest fixup_native : FixupDir

-- MAX_INS_BUF
abbrev pub max_ins_buf : ℕ
max_ins_buf = 32

-- `memcpy(ins_buf, inst.first, inst.second)`
unfoldable pub fetch_bytes : (ℕ → ℕ) → ℕ → ℕ → (ℕ → ℕ) → ℕ → ℕ
fetch_bytes guest addr len ins_buf i = if ltb i len then guest (addr + i) else ins_buf i

-- The prefixes 0x41, 0x44, 0x48 and 0x49
unfoldable pub prefix_length : ℕ → ℕ
prefix_length b = if member b (65 ∷ 68 ∷ 72 ∷ 73 ∷ []) then 1 else 0

-- The opcodes of one byte, 0xd3, 0xc1, 0xf7, 0x69 and 0x6b, which leave flags undefined
abbrev pub flag_ops8 : List ℕ
flag_ops8 = 211 ∷ 193 ∷ 247 ∷ 105 ∷ 107 ∷ []

-- The opcodes of two bytes that do, 0x6b4c, 0xaf0f, 0xc06b and 0xa30f
abbrev pub flag_ops16 : List ℕ
flag_ops16 = 27468 ∷ 44815 ∷ 49259 ∷ 41743 ∷ []

-- bsf, bsr and the mxcsr registers: 0xbc0f, 0xbd0f and 0xae0f
abbrev pub fixed_ops16 : List ℕ
fixed_ops16 = 48143 ∷ 48399 ∷ 44559 ∷ []

-- divsd %xmm0, %xmm0 and the system page: 0xc05e0ff2, 0xff5ff080, 0xff5ff0b0 and 0xff5ff0a8
abbrev pub fixed_ops32 : List ℕ
fixed_ops32 = 3227389938 ∷ 4284477568 ∷ 4284477616 ∷ 4284477608 ∷ []

abbrev pub op16 : (ℕ → ℕ) → ℕ → ℕ
op16 ins_buf i = ins_buf i + 256 * ins_buf (i + 1)

abbrev pub op32 : (ℕ → ℕ) → ℕ → ℕ
op32 ins_buf i =
    ins_buf i + 256 * ins_buf (i + 1) + 65536 * ins_buf (i + 2) + 16777216 * ins_buf (i + 3)

-- The loop over the offsets of an instruction
unfoldable pub any_op32 : ℕ → ℕ → (ℕ → ℕ) → Bool
any_op32 i zero ins_buf = false
any_op32 i (suc left) ins_buf =
    let rest = any_op32 (suc i) left ins_buf in
    if member (op32 ins_buf i) fixed_ops32 then true else rest

-- One round of canFixup: whether it goes to do_fixup
unfoldable pub is_fixable : Bool → Bool → ℕ → (ℕ → ℕ) → Bool
is_fixable fixup_eflags has_memlog len ins_buf =
    let off = prefix_length (ins_buf 0) in
    if member (ins_buf off) flag_ops8 && fixup_eflags
    then true
    else if member (op16 ins_buf off) flag_ops16 && fixup_eflags
    then true
    else if member (op16 ins_buf off) fixed_ops16
    then true
    else if any_op32 0 len ins_buf
    then true
    else if has_memlog && (op16 ins_buf off == 41743)
    then true
    else false

-- The loop of canFixup over the instructions' addresses and lengths
unfoldable pub fixup_from : Bool → Bool → (ℕ → ℕ) → List (ℕ × ℕ) → (ℕ → ℕ) → Result FixupDir
fixup_from fixup_eflags has_memlog guest [] ins_buf = ok fixup_none
fixup_from fixup_eflags has_memlog guest ((addr, len) ∷ insts) ins_buf =
    let buf = fetch_bytes guest addr len ins_buf in
    let rest = fixup_from fixup_eflags has_memlog guest insts buf in
    if ltb len max_ins_buf
    then if is_fixable fixup_eflags has_memlog len buf then ok fixup_guest else rest
    else fault Fault.assertion

-- PTShadowAMD64::canFixup; `is_sigill` is the test of wss_status, and `stack` what ins_buf held.
unfoldable pub can_fixup : Bool → Bool → Bool → (ℕ → ℕ) → List (ℕ × ℕ) → (ℕ → ℕ) → Result FixupDir
can_fixup is_sigill fixup_eflags has_memlog guest insts stack =
    if is_sigill then ok fixup_native else fixup_from fixup_eflags has_memlog guest insts stack
