-- ===== src/Translator/Patch.antt =====
-- src/vexxlate.cc: what patchBadDecode finds and writes.
use vexllvm.Base.{
  ℕ, zero, suc, ◌+◌, ◌<◌, ◌≤◌, ◌≡◌, ◌≢◌, ◌↔◌, refl, arith, inl, inr, Bool, true, false, ◌&&◌, ltb,
  ◌==◌, if◌then◌else◌, Option, none, some, Result, ok, fault, Fault, Ensures, Ensures-bind,
  Ensures-ok, Bool-cases,
}
use vexllvm.Translator.{
  Buffer, read, is_int2e, find_int2e, patch_up, patch_found, patch_bad_decode, dumb_buf_size,
  VexArch,
}

-- Whether the bytes from i on are `int 0x2e`.
abbrev pub pair_at : Buffer → ℕ → Bool
pair_at gb i = (gb.byte i == 0xcd) && (gb.byte (suc i) == 0x2e)

-- What the rounds from i on find: the first pair.
abbrev pub IsFirst : Buffer → ℕ → ℕ → Option ℕ → Type 0
IsFirst gb i rounds none = (m : ℕ) → i ≤ m → m < i + rounds → pair_at gb m ≡ false
IsFirst gb i rounds (some j) =
    (i ≤ j)
    × (j < i + rounds)
    × (pair_at gb j ≡ true)
    × ((m : ℕ) → i ≤ m → m < j → pair_at gb m ≡ false)

is_int2e_lem : (gb : Buffer) (i : ℕ) → Ensures (λ found. found ≡ pair_at gb i) (is_int2e gb i)
unfolding is_int2e read
is_int2e_lem gb i = ground arith

-- Without a fault where there is one byte more than the loop has rounds.
is_int2e_large : (gb : Buffer) (i : ℕ) → suc i < gb.size → is_int2e gb i ≡ ok (pair_at gb i)
unfolding is_int2e read
is_int2e_large gb i h = ground arith

found_step :
    (gb : Buffer) (i rounds : ℕ) (found : Bool) (rest : Result (Option ℕ))
    → found ≡ pair_at gb i
    → Ensures (IsFirst gb (suc i) rounds) rest
    → Ensures (IsFirst gb i (suc rounds)) (if found then ok (some i) else rest)
found_step gb i rounds true rest e h =
    (omega arith, omega arith, ground arith, λ m k l. absurd (omega arith))
found_step gb i rounds false (fault why) e h = tt
found_step gb i rounds false (ok none) e h = λ m k l. elim (Bool-cases (m == i)) [
  | inl here ↦ let same : m ≡ i = ground arith in rw same (ground arith)
  | inr other ↦ h m (ground arith) (omega arith)
]
found_step gb i rounds false (ok (some j)) e h = (
  omega (arith, h.0),
  omega (arith, h.1),
  h.2,
  λ m k l. elim (Bool-cases (m == i)) [
    | inl here ↦ let same : m ≡ i = ground arith in rw same (ground arith)
    | inr other ↦ h.3 m (ground arith) l
  ],
)

pub find_int2e-IsFirst :
    (gb : Buffer) (rounds i : ℕ) → Ensures (IsFirst gb i rounds) (find_int2e gb rounds i)
unfolding find_int2e
find_int2e-IsFirst gb zero i = λ m k l. absurd (omega arith)
find_int2e-IsFirst gb (suc rounds) i =
    Ensures-bind _ (IsFirst gb i (suc rounds)) (is_int2e gb i) _ (is_int2e_lem gb i)
      (λ found e. found_step gb i rounds found _ e (find_int2e-IsFirst gb rounds (suc i)))

-- In a large buffer the loop finds the first pair, and all bytes that it reads are there.
pub find_int2e-large :
    (gb : Buffer) (rounds i : ℕ)
    → i + rounds < gb.size
    → (o : Option ℕ) × (find_int2e gb rounds i ≡ ok o)
unfolding find_int2e
find_int2e-large gb zero i h = (none, refl)
find_int2e-large gb (suc rounds) i h =
    rw (is_int2e_large gb i (omega arith)) (elim (Bool-cases (pair_at gb i)) [
      | inl here ↦ rw here (some i, refl)
      | inr other ↦ rw other (find_int2e-large gb rounds (suc i) (omega arith))
    ])

-- The buffer of a patch at the first pair i, with the pairs up to i gone.
abbrev pub IsPatched : Buffer → ℕ → Buffer → Type 0
IsPatched gb i dumb_buf =
    (suc i < 128)
    × (pair_at gb i ≡ true)
    × (dumb_buf.byte (suc i) ≡ 0x80)
    × ((j : ℕ) → j ≢ suc i → dumb_buf.byte j ≡ gb.byte j)
    × ((m : ℕ) → m < i → pair_at gb m ≡ false)

patch_up_lem :
    (gb : Buffer) (i : ℕ)
    → pair_at gb i ≡ true
    → ((m : ℕ) → 0 ≤ m → m < i → pair_at gb m ≡ false)
    → Ensures (IsPatched gb i) (patch_up gb i)
unfolding patch_up dumb_buf_size
patch_up_lem gb i h first = elim (Bool-cases (ltb gb.size 128)) [
  | inl small ↦ rw small tt
  | inr large ↦ elim (Bool-cases (ltb (suc i) 128)) [
    | inl inside ↦
        rw (large, inside)
          (ground arith, h, ground arith, λ j k. ground arith, λ m l. first m (omega arith) l)
    | inr beyond ↦ rw (large, beyond) tt
  ]
]

-- What patchBadDecode gives back: bytes with the first pair patched.
abbrev pub IsRepaired : Buffer → Option Buffer → Type 0
IsRepaired gb none = Unit
IsRepaired gb (some dumb_buf) = (i : ℕ) × IsPatched gb i dumb_buf

patch_found-IsRepaired :
    (gb : Buffer) (o : Option ℕ) → IsFirst gb 0 128 o → Ensures (IsRepaired gb) (patch_found gb o)
unfolding patch_found
patch_found-IsRepaired gb none first = tt
patch_found-IsRepaired gb (some i) first =
    Ensures-bind (IsPatched gb i) (IsRepaired gb) (patch_up gb i) _
      (patch_up_lem gb i first.2 first.3) (λ dumb_buf h. (i, h))

pub patch_bad_decode-IsRepaired :
    (arch : VexArch) (gb : Buffer) → Ensures (IsRepaired gb) (patch_bad_decode arch gb)
unfolding patch_bad_decode dumb_buf_size
patch_bad_decode-IsRepaired VexArch.amd64 gb = tt
patch_bad_decode-IsRepaired VexArch.arm gb = tt
patch_bad_decode-IsRepaired VexArch.mips32 gb = tt
patch_bad_decode-IsRepaired VexArch.x86 gb =
    Ensures-bind (IsFirst gb 0 128) (IsRepaired gb) _ (patch_found gb) (find_int2e-IsFirst gb 128 0)
      (patch_found-IsRepaired gb)

-- `dumb_buf[128] = 0x80`
past_patch :
    (gb : Buffer) (o : Option ℕ)
    → 128 < gb.size
    → IsFirst gb 0 128 o
    → (patch_found gb o ≡ fault Fault.past_end)
      ↔ ((pair_at gb 127 ≡ true) × ((m : ℕ) → m < 127 → pair_at gb m ≡ false))
unfolding patch_found patch_up dumb_buf_size
past_patch gb none large first =
    (λ e. ground arith, λ h. let f = first 127 (omega arith) (omega arith) in ground arith)
past_patch gb (some i) large first = elim (Bool-cases (i == 127)) [
  | inl last ↦
      let e : i ≡ 127 = ground arith in
      (
        λ _. (rw e at (first.2), λ m l. first.3 m (omega arith) (omega (arith, e, l))),
        λ h. rw e (ground arith),
      )
  | inr other ↦
      let inside : suc i < 128 = let bound = first.1 in ground arith in
      (λ e. ground arith, λ h. let f = h.1 i (omega arith) in let g = first.2 in ground arith)
]

-- For more than 128 readable bytes of 32-bit x86, patchBadDecode goes past the end of its
-- buffer exactly when an int 0x2e begins at the last of the 128 places that it searches and
-- none before.
pub patch_bad_decode-past_end :
    (gb : Buffer)
    → 128 < gb.size
    → (patch_bad_decode VexArch.x86 gb ≡ fault Fault.past_end)
      ↔ ((pair_at gb 127 ≡ true) × ((m : ℕ) → m < 127 → pair_at gb m ≡ false))
unfolding patch_bad_decode dumb_buf_size
patch_bad_decode-past_end gb large =
    let run = find_int2e-large gb 128 0 (omega arith) in
    let first = Ensures-ok (IsFirst gb 0 128) run.1 (find_int2e-IsFirst gb 128 0) in
    rw run.1 (past_patch gb run.0 large first)
