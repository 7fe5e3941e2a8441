-- ===== src/Tests/Translator.antt =====
-- src/vexxlate.cc: a Windows system call, and one at the end of the bytes that are searched.
use vexllvm.Base.{
  ℕ, ◌<◌, ◌≡◌, ◌↔◌, refl, arith, true, false, ◌==◌, if◌then◌else◌, [], ◌∷◌, Option, none, some,
  Result, ok, fault, Fault, Ensures,
}
use vexllvm.Base.Int.{pos}
use vexllvm.Superblock.Load.{
  imark, Superblock, sys_int128, no_decode, load, load_instructions, load_next_instruction, mark,
  load_jump, create, get_end_addr, construct, expr,
}
use vexllvm.Translator.{
  VexArch, Buffer, Xlate, Env, Translated, null, live, xlate, xlate_once, patch_bad_decode,
  find_int2e, is_int2e, read, patch_up, patch_found, dumb_buf_size, retry, translate, vex_finaltidy,
  to_pointer, count_unhandled, get_size, keep_fragment, store_fragment, log_fragment, hand_out,
  after_translate,
}
use vexllvm.Translator.Patch.{pair_at, patch_bad_decode-past_end}
use vexllvm.Translator.Once.{IsTidying}
use vexllvm.Translator.Ends.{IsTranslation, xlate_ends}

-- A decoder of `int 0x80` alone, and a log that takes no bytes.
abbrev env : Env
env = record {
  libvex = λ arch gb guest_addr. Translated.tidied (record {
    stmts = imark guest_addr 2 ∷ [];
    kind = if gb.byte 1 == 0x80 then sys_int128 else no_decode;
    next = 7;
    unhandled = 0;
  });
  sysenter = true;
  libc = λ len. record { memcmp = λ f g. pos 0; qsort = λ l. l; bsearch = λ f l. false };
  hash_libc = record { sha1 = λ l. 0; qsort = λ l. l; bsearch = λ h l. none };
  unset = 0;
  write = λ gb len log. log;
}

env-IsTidying : IsTidying env
env-IsTidying arch gb guest_addr status e = ground arith

abbrev translator : Xlate
translator = record {
  arch = VexArch.x86;
  cb_vexsb = null;
  unhandled_c = 3;
  frag_cache = none;
  frag_log = some [];
}

-- `int 0x2e` and no more.
abbrev windows_call : Buffer
windows_call = record {
  size = 4096;
  byte = λ i. if i == 0 then 0xcd else if i == 1 then 0x2e else 0x90;
}

xlate_ends_example :
    (r : Result (Xlate × Option Superblock)) × (xlate env 128 windows_call 4096 translator ≡ some r)
    × Ensures (IsTranslation env VexArch.x86 windows_call 4096) r
xlate_ends_example =
    xlate_ends env 128 windows_call 4096 translator env-IsTidying (omega arith) (omega arith)

abbrev system_call : Superblock
system_call = record {
  guest_addr = 4096;
  stmts = imark 4096 2 ∷ [];
  last_imark = some (4096, 2);
  jump_kind = sys_int128;
  jump_expr = expr 7;
}

-- The second call decodes the patched bytes.
windows_call_patched :
    xlate env 2 windows_call 4096 translator
    ≡ some (ok (record translator { cb_vexsb = live system_call }, some system_call))
unfolding xlate xlate_once find_int2e is_int2e read patch_up patch_found patch_bad_decode
    dumb_buf_size retry translate vex_finaltidy to_pointer count_unhandled get_size keep_fragment
    store_fragment log_fragment hand_out after_translate load load_instructions
    load_next_instruction construct mark load_jump create get_end_addr
windows_call_patched = refl

-- `int 0x2e` in the last of the bytes that are searched, and the byte behind them.
abbrev late_call : Buffer
late_call = record {
  size = 4096;
  byte = λ i. if i == 127 then 0xcd else if i == 128 then 0x2e else 0x90;
}

patch_bad_decode-past_end_example :
    (patch_bad_decode VexArch.x86 late_call ≡ fault Fault.past_end)
    ↔ ((pair_at late_call 127 ≡ true) × ((m : ℕ) → m < 127 → pair_at late_call m ≡ false))
patch_bad_decode-past_end_example = patch_bad_decode-past_end late_call (omega arith)
