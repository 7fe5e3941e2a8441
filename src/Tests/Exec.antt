-- ===== src/Tests/Exec.antt =====
-- src/vexexec.cc: a guest with one mapping, from 0x1000 to 0x3000, that may be written and run.
use vexllvm.Base.{
  ◌∷◌, ℕ, ◌+◌, ◌≡◌, refl, Option, none, some, [], arith, inl, true, false, ok, Ensures, ◌&&◌, leb,
  ltb, if◌then◌else◌, ◌==◌,
}
use vexllvm.Base.Int.{pos}
use vexllvm.Base.Maps.{find}
use vexllvm.Cache.State.{Cache}
use vexllvm.Cache.Coherence.Flush.{IsFlushed}
use vexllvm.Exec.State.{Prot, Mapping, Guest, ExitType, TraceConf, Exec, Env}
use vexllvm.Exec.Dispatch.{
  get_sb_from_guest_addr, flush_pending, signal_handler, handle_faults, unprotect_code,
  flush_tampered_code,
}
use vexllvm.Exec.Invariant.{IsSound}
use vexllvm.Exec.Rounds.{HasCode, get_sb-HasCode}
use vexllvm.Exec.Protection.{KeepsMappings, IsLoadedFixed, get_sb-IsFixed}
use vexllvm.Exec.Signals.{replicate, readonly_code_loops}
use vexllvm.Exec.Loop.{run, run-IsSound}
use vexllvm.Exec.Pending.{flush_pending-IsFlushed, first_flush_lost}
use vexllvm.Tests.Cache.{guest_addr, small_backend, small-IsAddressed, warm, warm-IsCoherent}

-- Memory is the mapping.
abbrev in_mapping : Mapping → ℕ → Option Mapping
in_mapping m a = if leb m.offset a && ltb a (m.offset + m.length) then some m else none

abbrev pub guest : Guest
guest = record {
  Mem = Mapping;
  lookup_mapping = in_mapping;
  record_mapping = λ mem m. m;
  mapping_end = λ m. m.offset + m.length;
  host_ptr = λ mem a. a;
}

guest-KeepsMappings : KeepsMappings guest_addr guest
guest-KeepsMappings mem a m p h = ground arith

abbrev everything : Prot
everything = record { read = true; write = true; exec = true }

abbrev no_write : Prot
no_write = record { read = true; write = false; exec = true }

abbrev page : Mapping
page = record { offset = 4096; length = 8192; req_prot = everything; cur_prot = no_write }

-- A page that was never to be written.
abbrev code_page : Mapping
code_page = record { offset = 4096; length = 8192; req_prot = no_write; cur_prot = no_write }

-- Code runs on to the address behind it and meets no fault.
abbrev pub env : Env
env = record {
  backend = small_backend;
  end_addr = λ s. s + 1;
  run = λ p. record { faults = []; new_ip = p + 1; exit_type = ExitType.call };
  call = record { sc_ret = 0; is_exit = false };
}

abbrev state : Mapping → ℕ × ℕ → Cache → Exec Mapping
state m flush c = record {
  mem = m;
  cache = c;
  next_addr = 4200;
  exited = false;
  exit_code = 0;
  call_depth = pos 0;
  sb_executed_c = 0;
  trace_conf = TraceConf.log;
  trace = [];
  trace_c = 0;
  to_flush = flush;
  exit_type = ExitType.ignore;
  syscall_result = 0;
}

abbrev pub running : Exec Mapping
running = state page (4096, 12288) warm

running-IsSound : IsSound guest_addr running
running-IsSound = record { coherent = warm-IsCoherent; counted = refl; bounded = omega arith }

get_sb-HasCode_example :
    Ensures
      (HasCode guest_addr guest env small-IsAddressed)
      (get_sb_from_guest_addr guest_addr guest env 4200 running)
get_sb-HasCode_example = get_sb-HasCode guest_addr guest env small-IsAddressed 4200 running-IsSound

get_sb-IsFixed_example :
    Ensures
      (IsLoadedFixed guest_addr guest 4200)
      (get_sb_from_guest_addr guest_addr guest env 4200 running)
get_sb-IsFixed_example = get_sb-IsFixed guest_addr guest guest-KeepsMappings env 4200 running

readonly_code_loops_example :
    (e' : Exec Mapping) × (m' : Mapping) × (handle_faults guest_addr guest
        (replicate 9 4200)
        (state code_page (0, 0) warm)
      ≡ ok e')
    × (in_mapping e'.mem 4200 ≡ some m')
    × (m'.cur_prot.write ≡ false)
readonly_code_loops_example =
    readonly_code_loops guest_addr guest guest-KeepsMappings 9 4200 (state code_page (0, 0) warm)
      code_page refl refl refl refl

flush_pending-IsFlushed_example :
    Ensures
      (λ e'. IsFlushed guest_addr 3072 13312 warm e'.cache × (e'.to_flush ≡ (0, 0)))
      (flush_pending guest_addr guest running)
flush_pending-IsFlushed_example =
    flush_pending-IsFlushed guest_addr guest running 4096 12288 warm-IsCoherent refl
      (omega arith, omega arith, omega arith)

-- Memory of two mappings.
abbrev two_pages : Guest
two_pages = record {
  Mem = Mapping × Mapping;
  lookup_mapping = λ (l, r) a. elim (in_mapping l a) [ some m ↦ some m | none ↦ in_mapping r a ];
  record_mapping = λ (l, r) m. if m.offset == l.offset then (m, r) else (l, m);
  mapping_end = λ m. m.offset + m.length;
  host_ptr = λ mem a. a;
}

abbrev far_page : Prot → Mapping
far_page p = record { offset = 65536; length = 4096; req_prot = everything; cur_prot = p }

abbrev near_page : Prot → Mapping
near_page p = record { offset = 4096; length = 8192; req_prot = everything; cur_prot = p }

abbrev no_exec : Prot
no_exec = record { read = true; write = true; exec = false }

abbrev with_pages : Mapping × Mapping → ℕ × ℕ → Exec (Mapping × Mapping)
with_pages m flush = record {
  mem = m;
  cache = warm;
  next_addr = 4200;
  exited = false;
  exit_code = 0;
  call_depth = pos 0;
  sb_executed_c = 0;
  trace_conf = TraceConf.off;
  trace = [];
  trace_c = 0;
  to_flush = flush;
  exit_type = ExitType.ignore;
  syscall_result = 0;
}

abbrev fresh : Exec (Mapping × Mapping)
fresh = with_pages (near_page no_write, far_page no_write) (0, 0)

abbrev once : Exec (Mapping × Mapping)
once = with_pages (near_page no_exec, far_page no_write) (4096, 12288)

abbrev twice : Exec (Mapping × Mapping)
twice = with_pages (near_page no_exec, far_page no_exec) (65536, 69632)

first_signal : signal_handler guest_addr two_pages 4200 fresh ≡ ok once
unfolding signal_handler unprotect_code flush_tampered_code
first_signal = refl

second_signal : signal_handler guest_addr two_pages 65600 once ≡ ok twice
unfolding signal_handler unprotect_code flush_tampered_code
second_signal = refl

first_flush_lost_example :
    Ensures
      (λ k. (find 4200 k.cache.jit_cache ≡ find 4200 fresh.cache.jit_cache) × (k.to_flush ≡ (0, 0)))
      (flush_pending guest_addr two_pages twice)
first_flush_lost_example =
    first_flush_lost guest_addr two_pages 4200 65600 fresh once twice (far_page no_write)
      warm-IsCoherent first_signal second_signal refl (omega arith, omega arith, omega arith) 4200
      (inl (omega arith))

run-IsSound_example :
    Ensures (λ r. IsSound guest_addr r.0) (run guest_addr guest 4200 (env ∷ env ∷ []) running)
run-IsSound_example =
    run-IsSound guest_addr guest 4200 (env ∷ env ∷ []) (small-IsAddressed, (small-IsAddressed, tt))
      running-IsSound
