-- ===== src/Tests/CrossCheck.antt =====
-- src/vexexecchk.cc: a superblock that runs twice before it ends in a system call.
use vexllvm.Base.{ℕ, ◌+◌, ◌==◌, ◌≡◌, refl, true, false, [], ◌∷◌, ok}
use vexllvm.CrossCheck.Shadow.{Checker, Block, compares, new_ip_in_bounds, after_runs}
use vexllvm.CrossCheck.Fast.{
  Native, FastChecker, move_back, move_on, scoot, step_sys_call, do_sys_call_core, fast_sys_call,
}
use vexllvm.CrossCheck.Deferred.{loop_stepped_once}

abbrev synced : Checker
synced = record {
  hit_syscall = false;
  is_deferred = false;
  deferred_bound_start = 0;
  deferred_bound_end = 0;
  stepped = [];
}

abbrev looping : Block
looping = record { guest_addr = 4096; end_addr = 4106; new_ip = 4096; is_syscall = true }

abbrev leaving : Block
leaving = record { guest_addr = 4096; end_addr = 4106; new_ip = 4106; is_syscall = true }

loop_stepped_once_example :
    (c' : Checker) × (after_runs (looping ∷ looping ∷ []) leaving synced ≡ (c', compares))
    × (c'.stepped ≡ (4096, 4106) ∷ [])
    × (c'.is_deferred ≡ false)
unfolding new_ip_in_bounds
loop_stepped_once_example =
    loop_stepped_once looping leaving (looping ∷ []) synced refl refl (refl, tt) refl

abbrev deferred : Checker
deferred = record {
  hit_syscall = false;
  is_deferred = true;
  deferred_bound_start = 4096;
  deferred_bound_end = 4106;
  stepped = [];
}

-- A native process that is its program counter, and a system call 60 that does nothing.
abbrev counter : Native ℕ ℕ ℕ ℕ
counter = record {
  sys_brk = 12;
  is_match = λ g p. g.guest_rip == p;
  breakpoint_sys_calls = λ start end p. p;
  has_mem_log = λ p. false;
  clear_mem_log = λ p. p;
  step_to_breakpoint = λ p. (4096, 4096);
  set_rcx = λ rcx p. p;
  reset_breakpoint = λ bp p. p;
  set_breakpoint = λ bp p. p;
  step_sys_call = λ sc g p. p + 2;
  sys_call_result = λ p. 0;
  get_sys_call_params = λ g. 60;
  get_sys_call = λ a. a;
  set_arg = λ i v a. a;
  translate_sys_call = λ nr. nr;
  reset_sys_call = λ g. g;
  exec_sys_call = λ sp sc g. ok (sc, g);
  run_sb = λ g. ok (g.guest_rip, g);
  run_sb_aux = λ g p. ok (g.guest_rip, g, p);
}

abbrev at_call : FastChecker ℕ ℕ ℕ
at_call = record {
  guest = record { guest_rip = 4098; guest_rcx = 4098; others = 0 };
  shadow = 4000;
  marshalled = 0;
  pt_sc_req_c = 3;
  pt_sc_done_c = 3;
}

abbrev behind_call : FastChecker ℕ ℕ ℕ
behind_call = record at_call { shadow = 4098; pt_sc_req_c = 4; pt_sc_done_c = 4 }

-- The call steps the native process over it and counts it twice.
call_returns : fast_sys_call counter at_call ≡ ok behind_call
unfolding fast_sys_call move_back move_on scoot do_sys_call_core step_sys_call
call_returns = refl
