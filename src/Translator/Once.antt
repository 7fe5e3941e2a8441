-- ===== src/Translator/Once.antt =====
-- src/vexxlate.cc: what one call of xlate gives, by libVEX's answer.
use vexllvm.Base.{
  ℕ, ◌+◌, ◌%◌, ◌^◌, ◌<◌, ◌≡◌, ◌≢◌, refl, arith, ◌⊎◌, inl, inr, Bool, List, [], ◌∷◌, ◌==◌, Option,
  none, some, Result, ok, fault, ◌>>=◌, Ensures, Ensures-bind, Ensures-ok, Ensures-trivial,
  Bool-cases,
}
use vexllvm.Superblock.Load.{
  JumpKind, Stmt, Superblock, load, expr, load_jump, load_instructions, create,
}
use vexllvm.Translator.{
  VexArch, Buffer, Irsb, Status, access_fail, trans_ok, Translated, tidied, returned, Xlate, Env,
  translate, store_fragment, keep_fragment, hand_out, after_translate, xlate_once, vex_finaltidy,
  to_pointer, count_unhandled, get_size, retry, null,
}
use vexllvm.Translator.Patch.{IsPatched, IsRepaired, patch_bad_decode-IsRepaired}

-- A superblock is created at the address that was asked for.
abbrev IsAt : ℕ → Option Superblock → Type 0
IsAt guest_addr none = Unit
IsAt guest_addr (some sb) = sb.guest_addr ≡ guest_addr

load-guest_addr :
    (sysenter : Bool) (guest_addr : ℕ) (irsb : List Stmt) (kind : JumpKind) (next : ℕ)
    → Ensures (λ sb. sb.guest_addr ≡ guest_addr) (load sysenter guest_addr irsb kind next)
unfolding load
load-guest_addr sysenter guest_addr [] kind next = tt
load-guest_addr sysenter guest_addr (s ∷ irsb) kind next =
    Ensures-bind (λ _. Unit {0}) (λ sb. sb.guest_addr ≡ guest_addr)
      (load_instructions (s ∷ irsb) none) _ (Ensures-trivial _)
      λ r _.
        Ensures-bind (λ _. Unit {0}) (λ sb. sb.guest_addr ≡ guest_addr)
          (load_jump sysenter kind r.1 (expr next)) _ (Ensures-trivial _) (λ e _. refl)

load-IsAt :
    (sysenter : Bool) (guest_addr : ℕ) (irsb : List Stmt) (kind : JumpKind) (next : ℕ)
    → Ensures (IsAt guest_addr) (load sysenter guest_addr irsb kind next >>= (λ sb. ok (some sb)))
load-IsAt sysenter guest_addr irsb kind next =
    Ensures-bind (λ sb. sb.guest_addr ≡ guest_addr) (IsAt guest_addr) _ _
      (load-guest_addr sysenter guest_addr irsb kind next) (λ sb e. e)

create-IsAt :
    (sysenter : Bool) (guest_addr : ℕ) (irsb : List Stmt) (kind : JumpKind) (next : ℕ)
    → Ensures (IsAt guest_addr) (create sysenter guest_addr irsb kind next)
unfolding create
create-IsAt sysenter guest_addr irsb JumpKind.no_decode next = tt
create-IsAt sysenter guest_addr irsb JumpKind.boring next =
    load-IsAt sysenter guest_addr irsb JumpKind.boring next
create-IsAt sysenter guest_addr irsb JumpKind.no_redir next =
    load-IsAt sysenter guest_addr irsb JumpKind.no_redir next
create-IsAt sysenter guest_addr irsb JumpKind.client_req next =
    load-IsAt sysenter guest_addr irsb JumpKind.client_req next
create-IsAt sysenter guest_addr irsb JumpKind.call next =
    load-IsAt sysenter guest_addr irsb JumpKind.call next
create-IsAt sysenter guest_addr irsb JumpKind.ret next =
    load-IsAt sysenter guest_addr irsb JumpKind.ret next
create-IsAt sysenter guest_addr irsb JumpKind.yield next =
    load-IsAt sysenter guest_addr irsb JumpKind.yield next
create-IsAt sysenter guest_addr irsb JumpKind.sys_sysenter next =
    load-IsAt sysenter guest_addr irsb JumpKind.sys_sysenter next
create-IsAt sysenter guest_addr irsb JumpKind.sys_syscall next =
    load-IsAt sysenter guest_addr irsb JumpKind.sys_syscall next
create-IsAt sysenter guest_addr irsb JumpKind.sys_int128 next =
    load-IsAt sysenter guest_addr irsb JumpKind.sys_int128 next
create-IsAt sysenter guest_addr irsb JumpKind.sig_trap next =
    load-IsAt sysenter guest_addr irsb JumpKind.sig_trap next
create-IsAt sysenter guest_addr irsb JumpKind.unknown_kind next =
    load-IsAt sysenter guest_addr irsb JumpKind.unknown_kind next

-- LibVEX_Translate returns without a call of `finaltidy` only where the bytes cannot be read.
abbrev pub IsTidying : Env → Type 0
IsTidying env =
    (arch : VexArch) (gb : Buffer) (guest_addr : ℕ) (status : Status)
    → env.libvex arch gb guest_addr ≡ returned status
    → status ≡ access_fail

module _ (env : Env) where
  -- The superblock of what libVEX decodes, all operations of which have a case.
  abbrev pub Decodes : VexArch → Buffer → ℕ → Superblock → Type 0
  Decodes arch gb guest_addr sb =
      (irsb : Irsb) × (env.libvex arch gb guest_addr ≡ tidied irsb)
      × (create env.sysenter guest_addr irsb.stmts irsb.kind irsb.next ≡ ok (some sb))
      × (irsb.unhandled % 2 ^ 32 ≡ 0)
      × (sb.guest_addr ≡ guest_addr)

  -- Bytes that cannot be read or decoded, or an operation without a case.
  abbrev pub Fails : VexArch → Buffer → ℕ → Type 0
  Fails arch gb guest_addr =
      (env.libvex arch gb guest_addr ≡ returned access_fail)
      ⊎ ((irsb : Irsb) × (env.libvex arch gb guest_addr ≡ tidied irsb)
          × ((create env.sysenter guest_addr irsb.stmts irsb.kind irsb.next ≡ ok none)
              ⊎ (irsb.unhandled % 2 ^ 32 ≢ 0)))

  abbrev pub IsOnce : Xlate → Buffer → ℕ → Xlate × (Option Superblock ⊎ Buffer) → Type 0
  IsOnce x gb guest_addr (x', inl none) = Fails x.arch gb guest_addr
  IsOnce x gb guest_addr (x', inl (some sb)) = Decodes x.arch gb guest_addr sb
  IsOnce x gb guest_addr (x', inr dumb_buf) =
      ((i : ℕ) × IsPatched gb i dumb_buf) × (x'.arch ≡ x.arch) × (x'.unhandled_c < 2 ^ 32)

  keep_fragment_count :
      (gb : Buffer) (sb : Superblock) (x : Xlate)
      → Ensures (λ x'. x'.unhandled_c ≡ x.unhandled_c) (keep_fragment env gb sb x)
  unfolding keep_fragment
  keep_fragment_count gb sb x =
      Ensures-bind (λ _. Unit {0}) (λ x'. x'.unhandled_c ≡ x.unhandled_c) (get_size sb) _
        (Ensures-trivial _)
        λ len _. elim (Bool-cases (len == 0)) [
          | inl empty ↦ rw empty refl
          | inr bytes ↦ rw bytes (
              Ensures-bind (λ _. Unit {0}) (λ x'. x'.unhandled_c ≡ x.unhandled_c)
                (store_fragment env gb len x.frag_cache) _ (Ensures-trivial _) (λ t _. refl))
        ]

  hand_out_lem :
      (gb : Buffer) (guest_addr : ℕ) (x x' : Xlate) (irsb : Irsb) (sb : Superblock)
      → x.unhandled_c < 2 ^ 32
      → env.libvex x.arch gb guest_addr ≡ tidied irsb
      → create env.sysenter guest_addr irsb.stmts irsb.kind irsb.next ≡ ok (some sb)
      → x'.unhandled_c ≡ (x.unhandled_c + irsb.unhandled) % 2 ^ 32
      → Ensures (λ r. IsOnce x gb guest_addr (r.0, inl r.1)) (hand_out env gb x.unhandled_c sb x')
  unfolding hand_out
  hand_out_lem gb guest_addr x x' irsb sb fits decoded made counted =
      let placed =
        Ensures-ok (IsAt guest_addr) made
          (create-IsAt env.sysenter guest_addr irsb.stmts irsb.kind irsb.next) in
      Ensures-bind (λ y. y.unhandled_c ≡ x'.unhandled_c)
        (λ r. IsOnce x gb guest_addr (r.0, inl r.1)) (keep_fragment env gb sb x') _
        (keep_fragment_count gb sb x')
        λ y e. elim (Bool-cases (x.unhandled_c == y.unhandled_c)) [
          | inl same ↦ rw same (irsb, decoded, made, ground arith, placed)
          | inr other ↦ rw other (inr (irsb, decoded, inr (λ z. ground arith)))
        ]

  retry-IsOnce :
      (gb : Buffer) (guest_addr : ℕ) (x x' : Xlate) (o : Option Buffer)
      → Fails x.arch gb guest_addr
      → x'.arch ≡ x.arch
      → x'.unhandled_c < 2 ^ 32
      → IsRepaired gb o
      → IsOnce x gb guest_addr (x', retry o)
  unfolding retry
  retry-IsOnce gb guest_addr x x' none fails same fits h = fails
  retry-IsOnce gb guest_addr x x' (some dumb_buf) fails same fits h = (h, same, fits)

  tidied-IsOnce :
      (gb : Buffer) (guest_addr : ℕ) (x : Xlate) (irsb : Irsb) (m : Result (Option Superblock))
      → x.unhandled_c < 2 ^ 32
      → env.libvex x.arch gb guest_addr ≡ tidied irsb
      → create env.sysenter guest_addr irsb.stmts irsb.kind irsb.next ≡ m
      → (let made_of = λ (sb : Option Superblock). record x {
        cb_vexsb = to_pointer sb;
        unhandled_c = count_unhandled sb irsb x.unhandled_c;
      } in
          let answer : Result (Xlate × Status) =
            m >>= (λ sb. ok (made_of sb)) >>= (λ x'. ok (x', trans_ok)) in
          Ensures
            (IsOnce x gb guest_addr)
            (answer >>= (λ r. after_translate env gb x.unhandled_c r.0 r.1)))
  unfolding after_translate to_pointer count_unhandled
  tidied-IsOnce gb guest_addr x irsb (fault why) fits decoded made = tt
  tidied-IsOnce gb guest_addr x irsb (ok none) fits decoded made =
      Ensures-bind (IsRepaired gb) (IsOnce x gb guest_addr) _ _
        (patch_bad_decode-IsRepaired x.arch gb)
        λ o h.
          retry-IsOnce gb guest_addr x (record x { cb_vexsb = null }) o
            (inr (irsb, decoded, inl made)) refl fits h
  tidied-IsOnce gb guest_addr x irsb (ok (some sb)) fits decoded made =
      Ensures-bind (λ (r : Xlate × Option Superblock). IsOnce x gb guest_addr (r.0, inl r.1))
        (IsOnce x gb guest_addr) _ _ (hand_out_lem gb guest_addr x _ irsb sb fits decoded made refl)
        (λ r h. h)

  answered-IsOnce :
      (gb : Buffer) (guest_addr : ℕ) (x : Xlate) (d : Translated)
      → IsTidying env
      → x.unhandled_c < 2 ^ 32
      → env.libvex x.arch gb guest_addr ≡ d
      → Ensures
          (IsOnce x gb guest_addr)
          (translate env d guest_addr x >>= (λ r. after_translate env gb x.unhandled_c r.0 r.1))
  unfolding translate vex_finaltidy after_translate
  answered-IsOnce gb guest_addr x (tidied irsb) tidies fits decoded =
      tidied-IsOnce gb guest_addr x irsb _ fits decoded refl
  answered-IsOnce gb guest_addr x (returned status) tidies fits answer =
      let e = tidies x.arch gb guest_addr status answer in rw e (inl (rw e at answer))

  -- What one call gives: a superblock, nothing, or bytes with a pair less.
  pub xlate_once-IsOnce :
      (gb : Buffer) (guest_addr : ℕ) (x : Xlate)
      → IsTidying env
      → x.unhandled_c < 2 ^ 32
      → Ensures (IsOnce x gb guest_addr) (xlate_once env gb guest_addr x)
  unfolding xlate_once
  xlate_once-IsOnce gb guest_addr x tidies fits =
      answered-IsOnce gb guest_addr x (env.libvex x.arch gb guest_addr) tidies fits refl
