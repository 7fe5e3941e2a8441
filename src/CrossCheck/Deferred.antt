-- ===== src/CrossCheck/Deferred.antt =====
-- src/vexexecchk.cc: a superblock that loops into itself.
use vexllvm.Base.{◌≡◌, refl, true, false, List, [], ◌∷◌, All, arith, ok, fault, Fault}
use vexllvm.CrossCheck.Shadow.{
  Checker, Block, compares, new_ip_in_bounds, step_through_bounds, leave, resume, defer, after_run,
  do_sys_call, after_runs,
}

-- Runs that stay in the superblock wait, and change nothing once the first has waited.
stays_deferred :
    (blocks : List Block) (last : Block) (c : Checker)
    → c.is_deferred ≡ true
    → All (λ b. new_ip_in_bounds b ≡ true) blocks
    → after_runs blocks last c ≡ after_run last c
unfolding after_runs
stays_deferred [] last c d h = refl
stays_deferred (b ∷ blocks) last c d (stays, rest) =
    let same : (after_run b c).0 ≡ c = unfold after_run in simp (d, stays) refl in
    rw same (stays_deferred blocks last c d rest)

-- For a checker that is not deferred, a first run that stays in its superblock, any number of
-- runs that stay in theirs, and a last run that leaves its own end with the states compared,
-- the native process stepped once more, through the bounds of the first superblock, and nothing
-- deferred.
pub loop_stepped_once :
    (b last : Block) (blocks : List Block) (c : Checker)
    → c.is_deferred ≡ false
    → new_ip_in_bounds b ≡ true
    → All (λ x. new_ip_in_bounds x ≡ true) blocks
    → new_ip_in_bounds last ≡ false
    → (c' : Checker) × (after_runs (b ∷ blocks) last c ≡ (c', compares))
      × (c'.stepped ≡ (b.guest_addr, b.end_addr) ∷ c.stepped)
      × (c'.is_deferred ≡ false)
unfolding after_runs
loop_stepped_once b last blocks c synced stays all leaves =
    let start : after_run b c ≡ defer b c = unfold after_run in simp (synced, stays) refl in
    let d : Checker = (defer b c).0 in
    let waiting : d.is_deferred ≡ true = unfold defer in refl in
    let end : after_run last d ≡ resume d = unfold after_run in simp (waiting, leaves) refl in
    (
      (resume d).0,
      rw (start, stays_deferred blocks last d waiting all, end) (unfold resume in refl),
      unfold resume defer step_through_bounds in refl,
      unfold resume in refl,
    )

-- For a checker that is not deferred, after a run of a superblock that ends in a system call
-- and leaves its bounds, the native process was stepped through those bounds, and doSysCall
-- passes its assertion and takes the mark of the system call back.
pub synced_syscall :
    (b : Block) (c : Checker)
    → c.is_deferred ≡ false
    → new_ip_in_bounds b ≡ false
    → b.is_syscall ≡ true
    → (c' : Checker) × (do_sys_call (after_run b c).0 ≡ ok c')
      × (c'.hit_syscall ≡ false)
      × (c'.stepped ≡ (b.guest_addr, b.end_addr) ∷ c.stepped)
unfolding after_run leave step_through_bounds do_sys_call
synced_syscall b c synced leaves sys = (
  record c {
    hit_syscall = false;
    is_deferred = false;
    stepped = (b.guest_addr, b.end_addr) ∷ c.stepped;
  },
  simp (synced, leaves, sys) refl,
  refl,
  refl,
)

-- For a deferred checker without a mark of a system call, after a run that leaves its
-- superblock doSysCall fails its assertion.
pub deferred_syscall :
    (b : Block) (c : Checker)
    → c.is_deferred ≡ true
    → c.hit_syscall ≡ false
    → new_ip_in_bounds b ≡ false
    → do_sys_call (after_run b c).0 ≡ fault Fault.assertion
unfolding after_run resume step_through_bounds do_sys_call
deferred_syscall b c deferred none leaves = simp (deferred, leaves) (ground arith)
