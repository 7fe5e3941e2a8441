-- ===== src/Translator/Ends.antt =====
-- src/vexxlate.cc: the calls of xlate by patchBadDecode come to an end.
use vexllvm.Base.{
  ℕ, zero, suc, ◌+◌, ◌^◌, ◌<◌, ◌≤◌, ◌≡◌, refl, arith, ◌∙◌, ◌⊎◌, inl, inr, true, false, ◌==◌, ltb,
  ltb→lt, Option, none, some, Result, ok, fault, Ensures, Bool-cases,
}
use vexllvm.Superblock.Load.{Superblock}
use vexllvm.Translator.{VexArch, Buffer, Xlate, Env, xlate, xlate_once}
use vexllvm.Translator.Patch.{pair_at, IsPatched}
use vexllvm.Translator.Once.{IsTidying, Decodes, Fails, IsOnce, xlate_once-IsOnce}

-- The bytes of the guest, but that some of its `int 0x2e` are `int 0x80`.
abbrev pub IsRewritten : Buffer → Buffer → Type 0
IsRewritten gb b =
    (j : ℕ)
    → (b.byte j ≡ gb.byte j) ⊎ ((m : ℕ) × (j ≡ suc m) × (pair_at gb m ≡ true) × (b.byte j ≡ 0x80))

abbrev IsClean : Buffer → ℕ → Type 0
IsClean b n = (m : ℕ) → m < n → pair_at b m ≡ false

pub IsRewritten-refl : (gb : Buffer) → IsRewritten gb gb
IsRewritten-refl gb j = inl refl

-- A byte of a rewritten buffer that is not 0x80 is the guest's.
IsRewritten-byte :
    (gb b : Buffer) (j : ℕ) → IsRewritten gb b → (b.byte j == 0x80) ≡ false → b.byte j ≡ gb.byte j
IsRewritten-byte gb b j h other = elim (h j) [
  | inl e ↦ e
  | inr (m, place, pair, k) ↦ absurd (ground arith)
]

IsRewritten-step : (gb b d : Buffer) (i : ℕ) → IsRewritten gb b → IsPatched b i d → IsRewritten gb d
IsRewritten-step gb b d i h p j = elim (Bool-cases (j == suc i)) [
  | inl here ↦
      let e : j ≡ suc i = ground arith in
      let pair = p.1 in
      let first = IsRewritten-byte gb b i h (ground arith) in
      let second = IsRewritten-byte gb b (suc i) h (ground arith) in
      inr (i, e, ground arith, rw e p.2)
  | inr other ↦
      let same = p.3 j (λ e. ground arith) in
      elim (h j) [
        | inl e ↦ inl (same ∙ e)
        | inr (m, place, pair, k) ↦ inr (m, place, pair, same ∙ k)
      ]
]

IsClean-step : (b d : Buffer) (i : ℕ) → IsPatched b i d → IsClean d (suc i)
IsClean-step b d i p m l =
    let patched = p.2 in
    elim (Bool-cases (m == i)) [
      | inl here ↦ let e : m ≡ i = ground arith in rw e (ground arith)
      | inr other ↦
          let first = p.3 m (λ e. ground arith) in
          let second = p.3 (suc m) (λ e. ground arith) in
          let before = p.4 m (ground arith) in rw (first, second) before
    ]

module _ (env : Env) where
  -- A result of xlate comes from bytes that libVEX was given.
  abbrev pub IsTranslation : VexArch → Buffer → ℕ → Xlate × Option Superblock → Type 0
  IsTranslation arch gb guest_addr (x', none) =
      (b : Buffer) × IsRewritten gb b × Fails env arch b guest_addr
  IsTranslation arch gb guest_addr (x', some sb) =
      (b : Buffer) × IsRewritten gb b × Decodes env arch b guest_addr sb

  -- So many calls are enough for a buffer.
  abbrev IsEnough : VexArch → Buffer → ℕ → ℕ → Buffer → Xlate → Type 0
  IsEnough arch gb guest_addr calls b x =
      (r : Result (Xlate × Option Superblock)) × (xlate env calls b guest_addr x ≡ some r)
      × Ensures (IsTranslation arch gb guest_addr) r

  -- A buffer without pairs below n, and a state, that later calls get.
  record IsLater (arch : VexArch) (gb b : Buffer) (x : Xlate) (n : ℕ) : Type 0 where
    clean : IsClean b n
    in_buffer : n < 128
    rewritten : IsRewritten gb b
    same_arch : x.arch ≡ arch
    count_fits : x.unhandled_c < 2 ^ 32

  IsLater-step :
      (arch : VexArch) (gb b d : Buffer) (x x' : Xlate) (n i : ℕ)
      → IsLater arch gb b x n
      → IsPatched b i d
      → x'.arch ≡ x.arch
      → x'.unhandled_c < 2 ^ 32
      → IsLater arch gb d x' (suc i) × (n ≤ i)
  IsLater-step arch gb b d x x' n i h p same fits = (
    record {
      clean = IsClean-step b d i p;
      in_buffer = p.0;
      rewritten = IsRewritten-step gb b d i h.rewritten p;
      same_arch = same ∙ h.same_arch;
      count_fits = fits;
    },
    (elim (Bool-cases (ltb i n)) [
      | inl before ↦
          let none_there = h.clean i (ltb→lt i n before) in let pair = p.1 in absurd (ground arith)
      | inr behind ↦ ground arith
    ]),
  )

  -- The calls that are left, one after this.
  answer_ends :
      (arch : VexArch) (gb b : Buffer) (guest_addr calls n : ℕ) (x : Xlate)
      (m : Result (Xlate × (Option Superblock ⊎ Buffer)))
      → IsLater arch gb b x n
      → ((d : Buffer) (x' : Xlate) (i : ℕ)
          → IsLater arch gb d x' (suc i)
          → n ≤ i
          → IsEnough arch gb guest_addr calls d x')
      → xlate_once env b guest_addr x ≡ m
      → Ensures (IsOnce env x b guest_addr) m
      → IsEnough arch gb guest_addr (suc calls) b x
  unfolding xlate
  answer_ends arch gb b guest_addr calls n x (fault why) h rest e once =
      let run : xlate env (suc calls) b guest_addr x ≡ some (fault why) = rw (xlate, e) refl in
      (fault why, run, tt)
  answer_ends arch gb b guest_addr calls n x (ok (x', inl none)) h rest e once =
      let run : xlate env (suc calls) b guest_addr x ≡ some (ok (x', none)) = rw (xlate, e) refl in
      (ok (x', none), run, (b, h.rewritten, rw (h.same_arch) at once))
  answer_ends arch gb b guest_addr calls n x (ok (x', inl (some sb))) h rest e once =
      let run : xlate env (suc calls) b guest_addr x ≡ some (ok (x', some sb)) =
        rw (xlate, e) refl in
      (ok (x', some sb), run, (b, h.rewritten, rw (h.same_arch) at once))
  answer_ends arch gb b guest_addr calls n x (ok (x', inr d)) h rest e once =
      let later = IsLater-step arch gb b d x x' n (once.0.0) h (once.0.1) (once.1) (once.2) in
      let end = rest d x' (once.0.0) later.0 later.1 in
      let run : xlate env (suc calls) b guest_addr x ≡ xlate env calls d guest_addr x' =
        rw (xlate, e) refl in
      (end.0, run ∙ end.1, end.2)

  xlate_later :
      (calls n : ℕ) (arch : VexArch) (gb b : Buffer) (guest_addr : ℕ) (x : Xlate)
      → IsTidying env
      → IsLater arch gb b x n
      → 128 ≤ n + calls
      → IsEnough arch gb guest_addr calls b x
  xlate_later zero n arch gb b guest_addr x tidies h enough =
      let inside = h.in_buffer in absurd (omega arith)
  xlate_later (suc calls) n arch gb b guest_addr x tidies h enough =
      answer_ends arch gb b guest_addr calls n x _ h
        (λ d x' i later further.
          xlate_later calls (suc i) arch gb d guest_addr x' tidies later (omega arith))
        refl (xlate_once-IsOnce env b guest_addr x tidies (h.count_fits))

  -- With a libVEX that returns without finaltidy only where the bytes cannot be read, and a
  -- count of unhandled operations of 32 bits, 128 calls are enough for xlate to end. A
  -- superblock that it returns is at the address that was asked for, and is created from what
  -- libVEX decodes, with no unhandled operations as far as 32 bits count them, from bytes that
  -- differ from the given ones only where the second byte of an int 0x2e is 0x80; where it
  -- returns none, libVEX failed on such bytes, or an operation has no case. A fault is not
  -- excluded.
  pub xlate_ends :
      (calls : ℕ) (gb : Buffer) (guest_addr : ℕ) (x : Xlate)
      → IsTidying env
      → x.unhandled_c < 2 ^ 32
      → 128 ≤ calls
      → (r : Result (Xlate × Option Superblock)) × (xlate env calls gb guest_addr x ≡ some r)
        × Ensures (IsTranslation (x.arch) gb guest_addr) r
  xlate_ends calls gb guest_addr x tidies fits enough =
      xlate_later calls 0 (x.arch) gb gb guest_addr x tidies
        (record {
          clean = λ m l. absurd (omega arith);
          in_buffer = omega arith;
          rewritten = IsRewritten-refl gb;
          same_arch = refl;
          count_fits = fits;
        })
        (omega arith)
