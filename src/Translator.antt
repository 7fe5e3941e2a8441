-- ===== src/Translator.antt =====
-- src/vexxlate.cc: the translation of guest bytes, with libVEX as a parameter.
pub mod Patch
pub mod Once
pub mod Ends
use vexllvm.Base.{
  ℕ, zero, suc, ◌+◌, ◌-◌, ◌%◌, ◌^◌, Bool, true, false, not, ltb, ◌==◌, if◌then◌else◌, List, Option,
  none, some, Result, ok, fault, Fault, ◌>>=◌, ◌⊎◌, inl, inr,
}
use vexllvm.Superblock.Load.{JumpKind, Stmt, Superblock, create, get_end_addr}
use vexllvm.FragCache.File.{Libc}
use vexllvm.FragCache.Hash.{HashLibc}
use vexllvm.FragCache.Table.{Table, add_fragment}

-- The architectures that the constructor takes.
pub data VexArch : Type 0 where
  amd64 arm x86 mips32 : VexArch

-- What is behind a pointer: the bytes that may be read, and their values.
pub record Buffer : Type 0 where
  pub size : ℕ
  pub byte : ℕ → ℕ

-- What libVEX passes to `finaltidy`, with the number of operations that createOp has no case for.
pub record Irsb : Type 0 where
  pub stmts : List Stmt
  pub kind : JumpKind
  pub next : ℕ
  pub unhandled : ℕ

pub data Status : Type 0 where
  trans_ok access_fail output_full : Status

-- LibVEX_Translate calls `finaltidy`, which does not return, or returns a status.
pub data Translated : Type 0 where
  tidied : Irsb → Translated
  returned : Status → Translated

-- g_cb.cb_vexsb
pub data Pointer : Type 0 where
  null freed : Pointer
  live : Superblock → Pointer

pub record Xlate : Type 0 where
  pub arch : VexArch
  pub cb_vexsb : Pointer
  -- VexExpr::getUnhandledCount()
  pub unhandled_c : ℕ
  pub frag_cache : Option Table
  pub frag_log : Option (List ℕ)

-- libVEX, use_linux_sysenter, the libraries of the fragment cache, and the kernel's `write` of
-- so many bytes to the log.
pub record Env : Type 0 where
  pub libvex : VexArch → Buffer → ℕ → Translated
  pub sysenter : Bool
  pub libc : ℕ → Libc
  pub hash_libc : HashLibc
  pub unset : ℕ
  pub write : Buffer → ℕ → List ℕ → List ℕ

-- gb[i]
unfoldable pub read : Buffer → ℕ → Result ℕ
read gb i = if ltb i gb.size then ok (gb.byte i) else fault Fault.past_end

-- `gb[i] == 0xcd && gb[i+1] == 0x2e`
unfoldable pub is_int2e : Buffer → ℕ → Result Bool
is_int2e gb i = do
  first ← read gb i
  if first == 0xcd then read gb (suc i) >>= (λ second. ok (second == 0x2e)) else ok false

-- The rounds of patchBadDecode's loop from i on.
unfoldable pub find_int2e : Buffer → ℕ → ℕ → Result (Option ℕ)
find_int2e gb zero i = ok none
find_int2e gb (suc rounds) i =
    let rest = find_int2e gb rounds (suc i) in
    do found ← is_int2e gb i; if found then ok (some i) else rest

-- sizeof(dumb_buf)
unfoldable pub dumb_buf_size : ℕ
dumb_buf_size = 128

-- `memcpy(dumb_buf, gb, 128)` and `dumb_buf[i+1] = 0x80`
unfoldable pub patch_up : Buffer → ℕ → Result Buffer
patch_up gb i =
    if ltb gb.size dumb_buf_size
    then fault Fault.past_end
    else if ltb (suc i) dumb_buf_size
    then ok (record { size = dumb_buf_size; byte = λ j. if j == suc i then 0x80 else gb.byte j })
    else fault Fault.past_end

unfoldable pub patch_found : Buffer → Option ℕ → Result (Option Buffer)
patch_found gb none = ok none
patch_found gb (some i) = do dumb_buf ← patch_up gb i; ok (some dumb_buf)

-- The bytes that VexXlate::patchBadDecode translates again; none where it returns NULL.
unfoldable pub patch_bad_decode : VexArch → Buffer → Result (Option Buffer)
patch_bad_decode x86 gb = find_int2e gb dumb_buf_size 0 >>= patch_found gb
patch_bad_decode _ gb = ok none

-- VexSB::getSize
unfoldable pub get_size : Superblock → Result ℕ
get_size sb = do e ← get_end_addr sb.last_imark; ok ((e + 2 ^ 64 - sb.guest_addr) % 2 ^ 64 % 2 ^ 32)

unfoldable pub to_pointer : Option Superblock → Pointer
to_pointer none = null
to_pointer (some sb) = live sb

-- The count after a superblock was loaded; one that is not decoded has no expressions.
unfoldable pub count_unhandled : Option Superblock → Irsb → ℕ → ℕ
count_unhandled none irsb n = n
count_unhandled (some sb) irsb n = (n + irsb.unhandled) % 2 ^ 32

-- `return NULL`, or `return xlate(dumb_buf, guest_addr)`
unfoldable pub retry : Option Buffer → Option Superblock ⊎ Buffer
retry none = inl none
retry (some dumb_buf) = inr dumb_buf

module _ (env : Env) where
  -- vex_finaltidy
  unfoldable pub vex_finaltidy : Irsb → ℕ → Xlate → Result Xlate
  vex_finaltidy irsb guest_addr x = do
    sb ← create env.sysenter guest_addr irsb.stmts irsb.kind irsb.next
    ok (record x { cb_vexsb = to_pointer sb; unhandled_c = count_unhandled sb irsb x.unhandled_c })

  -- From setjmp on: the state and the status.
  unfoldable pub translate : Translated → ℕ → Xlate → Result (Xlate × Status)
  translate (tidied irsb) guest_addr x = do x' ← vex_finaltidy irsb guest_addr x; ok (x', trans_ok)
  translate (returned status) guest_addr x = ok (x, status)

  unfoldable pub store_fragment : Buffer → ℕ → Option Table → Result (Option Table)
  store_fragment gb len none = ok none
  store_fragment gb len (some t) =
      if ltb gb.size len
      then fault Fault.past_end
      else do r ← add_fragment env.libc env.hash_libc env.unset gb.byte len t; ok (some r.0)

  unfoldable pub log_fragment : Buffer → ℕ → Option (List ℕ) → Option (List ℕ)
  log_fragment gb len none = none
  log_fragment gb len (some log) = some (env.write gb len log)

  -- `if (g_cb.cb_vexsb->getSize())`
  unfoldable pub keep_fragment : Buffer → Superblock → Xlate → Result Xlate
  keep_fragment gb sb x = do
    len ← get_size sb
    if len == 0 then ok x else do
      t ← store_fragment gb len x.frag_cache
      ok (record x { frag_cache = t; frag_log = log_fragment gb len x.frag_log })

  -- From the fragments to the end, with the count from before the translation.
  unfoldable pub hand_out : Buffer → ℕ → Superblock → Xlate → Result (Xlate × Option Superblock)
  hand_out gb unhandled_c sb x = do
    x' ← keep_fragment gb sb x
    ok (
        if not (unhandled_c == x'.unhandled_c)
        then (record x' { cb_vexsb = freed }, none)
        else (x', some sb))

  -- What follows the translation: a result, or bytes to translate again.
  unfoldable pub after_translate :
      Buffer → ℕ → Xlate → Status → Result (Xlate × (Option Superblock ⊎ Buffer))
  after_translate gb unhandled_c x access_fail = ok (x, inl none)
  after_translate gb unhandled_c x _ = elim x.cb_vexsb [
    | null ↦ patch_bad_decode x.arch gb >>= (λ patched. ok (x, retry patched))
    | freed ↦ fault Fault.use_after_free
    | live sb ↦ hand_out gb unhandled_c sb x >>= (λ r. ok (r.0, inl r.1))
  ]

  -- One call of VexXlate::xlate, up to the call that patchBadDecode makes.
  unfoldable pub xlate_once : Buffer → ℕ → Xlate → Result (Xlate × (Option Superblock ⊎ Buffer))
  xlate_once gb guest_addr x = do
    r ← translate (env.libvex x.arch gb guest_addr) guest_addr x
    after_translate gb x.unhandled_c r.0 r.1

  -- VexXlate::xlate, over at most so many calls; none where they are not enough.
  unfoldable pub xlate : ℕ → Buffer → ℕ → Xlate → Option (Result (Xlate × Option Superblock))
  xlate zero gb guest_addr x = none
  xlate (suc calls) gb guest_addr x = elim (xlate_once gb guest_addr x) [
    | fault why ↦ some (fault why)
    | ok (x', inl sb) ↦ some (ok (x', sb))
    | ok (x', inr dumb_buf) ↦ xlate calls dumb_buf guest_addr x'
  ]
