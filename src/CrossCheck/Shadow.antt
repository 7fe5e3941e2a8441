-- ===== src/CrossCheck/Shadow.antt =====
-- src/vexexecchk.cc: when the native process is stepped, and when the states are compared.
use vexllvm.Base.{
  ℕ, Bool, true, false, not, ◌&&◌, List, [], ◌∷◌, leb, ltb, if◌then◌else◌, Result, ok, fault, Fault,
}

-- The fields of the checker, and the bounds that the native process was stepped through, the
-- latest first.
pub record Checker : Type 0 where
  pub hit_syscall : Bool
  pub is_deferred : Bool
  pub deferred_bound_start : ℕ
  pub deferred_bound_end : ℕ
  pub stepped : List (ℕ × ℕ)

-- One run of a superblock: its bounds, the address that its code returned and `isSyscall`.
pub record Block : Type 0 where
  pub guest_addr : ℕ
  pub end_addr : ℕ
  pub new_ip : ℕ
  pub is_syscall : Bool

-- How a run ends: deferred, before a system call, or with the states compared.
pub data Outcome : Type 0 where
  waits at_syscall compares : Outcome

unfoldable pub new_ip_in_bounds : Block → Bool
new_ip_in_bounds b = leb b.guest_addr b.new_ip && ltb b.new_ip b.end_addr

-- `stepThroughBounds`
unfoldable pub step_through_bounds : ℕ → ℕ → Checker → Checker
step_through_bounds start end c = record c { stepped = (start, end) ∷ c.stepped }

-- The branch of a run that was not deferred and left its superblock.
unfoldable pub leave : Block → Checker → Checker × Outcome
leave b c =
    let c' : Checker = record (step_through_bounds b.guest_addr b.end_addr c) {
      is_deferred = false;
    } in
    if b.is_syscall then (record c' { hit_syscall = true }, at_syscall) else (c', compares)

-- The branch of a run that was deferred and left its superblock.
unfoldable pub resume : Checker → Checker × Outcome
resume c = (
  record (step_through_bounds c.deferred_bound_start c.deferred_bound_end c) {
    is_deferred = false;
    deferred_bound_start = 0;
    deferred_bound_end = 0;
  },
  compares,
)

-- The branch of a run that stayed in its superblock.
unfoldable pub defer : Block → Checker → Checker × Outcome
defer b c = (
  record c {
    is_deferred = true;
    deferred_bound_start = b.guest_addr;
    deferred_bound_end = b.end_addr;
  },
  waits,
)

-- VexExecChk::doVexSB behind the run of the superblock.
unfoldable pub after_run : Block → Checker → Checker × Outcome
after_run b c =
    if c.is_deferred && new_ip_in_bounds b
    then (c, waits)
    else if not c.is_deferred && not (new_ip_in_bounds b)
    then leave b c
    else if c.is_deferred && not (new_ip_in_bounds b)
    then resume c
    else defer b c

-- VexExecChk::doSysCall: its assertion and its reset.
unfoldable pub do_sys_call : Checker → Result Checker
do_sys_call c =
    if c.hit_syscall && not c.is_deferred
    then ok (record c { hit_syscall = false })
    else fault Fault.assertion

-- Runs one after the other; the outcome is the last one's.
unfoldable pub after_runs : List Block → Block → Checker → Checker × Outcome
after_runs [] last c = after_run last c
after_runs (b ∷ blocks) last c = after_runs blocks last (after_run b c).0
