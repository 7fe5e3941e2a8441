-- ===== src/Superblock/Load.antt =====
-- src/vexsb.cc: loading a superblock from VEX, and the exit type that its code leaves.
use vexllvm.Base.{
  ℕ, ◌+◌, ◌%◌, ◌^◌, Bool, true, false, ◌&&◌, List, [], ◌∷◌, Option, none, some, if◌then◌else◌,
  Result, ok, fault, Fault, ◌>>=◌, assert_some,
}
use vexllvm.Exec.State.{ExitType}
use vexllvm.Vex.Stmts.{ExitKind, exit_type_of}

-- The kinds of jump of VEX that the source names, and all others.
pub data JumpKind : Type 0 where
  boring no_redir client_req call ret yield : JumpKind
  sys_sysenter sys_syscall sys_int128 sig_trap no_decode unknown_kind : JumpKind

-- How VexExpr::create ends for an expression of VEX: at an assertion of what it calls, with a
-- null pointer, or with an expression.
pub data Created : Type 0 where
  stopped null made : Created

-- The statements of VEX by their tags, with what their constructors read: how the expressions are
-- created, whether a helper is found, and whether an access is little-endian.
pub data Stmt : Type 0 where
  imark : ℕ → ℕ → Stmt
  no_op abi_hint mbe unknown_tag : Stmt
  put wr_tmp : Created → Stmt
  put_i store : Created → Created → Stmt
  exit : Created → ExitKind → Stmt
  cas llsc : List Created → Stmt
  dirty : Created → Bool → List Created → Stmt
  store_g load_g : Bool → List Created → Stmt

-- The expression of the next address: VEX's, by a number, or a constant.
pub data Next : Type 0 where
  expr : ℕ → Next
  const_u32 : ℕ → Next

pub record Superblock : Type 0 where
  pub guest_addr : ℕ
  pub stmts : List Stmt
  -- address and length of the last `IMark`
  pub last_imark : Option (ℕ × ℕ)
  pub jump_kind : JumpKind
  pub jump_expr : Next

-- VexExpr::create, and whether it returned an expression
unfoldable pub create_expr : Created → Result Bool
create_expr stopped = fault Fault.assertion
create_expr null = ok false
create_expr made = ok true

unfoldable pub create_all : List Created → Result (Unit {0})
create_all [] = ok tt
create_all (e ∷ args) = do has_expr ← create_expr e; create_all args

-- `assert`
unfoldable pub assert_true : Bool → Result (Unit {0})
assert_true true = ok tt
assert_true false = fault Fault.assertion

-- The constructors of the statements, up to the order in which they create and assert
unfoldable pub construct : Stmt → Result (Unit {0})
construct (put data_expr) = do e ← create_expr data_expr; assert_true e
construct (put_i ix_expr data_expr) = do
  i ← create_expr ix_expr
  d ← create_expr data_expr
  assert_true (i && d)
construct (wr_tmp e) = create_all (e ∷ [])
construct (store addr_expr data_expr) = create_all (addr_expr ∷ data_expr ∷ [])
construct (exit guard jk) = do g ← create_expr guard; exit_type ← exit_type_of jk; ok tt
construct (cas exprs) = create_all exprs
construct (llsc exprs) = create_all exprs
construct (dirty guard func args) = do
  g ← create_expr guard
  found ← assert_true func
  create_all args
construct (store_g end_le exprs) = do all ← create_all exprs; assert_true end_le
construct (load_g end_le exprs) = do all ← create_all exprs; assert_true end_le
construct unknown_tag = fault Fault.assertion
construct s = ok tt

-- VexSB::loadNextInstruction
unfoldable pub load_next_instruction : Stmt → Result Stmt
load_next_instruction s = do vs ← construct s; ok s

-- What an `IMark` does to `last_imark`.
unfoldable pub mark : Stmt → Option (ℕ × ℕ) → Option (ℕ × ℕ)
mark (imark addr len) last = some (addr, len)
mark s last = last

-- VexSB::loadInstructions: the statements, and the last `IMark`.
unfoldable pub load_instructions : List Stmt → Option (ℕ × ℕ) → Result (List Stmt × Option (ℕ × ℕ))
load_instructions [] last = ok ([], last)
load_instructions (s ∷ irsb) last = do
  stmt ← load_next_instruction s
  r ← load_instructions irsb (mark stmt last)
  ok (stmt ∷ r.0, r.1)

-- VexSB::getEndAddr, on `last_imark`
unfoldable pub get_end_addr : Option (ℕ × ℕ) → Result ℕ
get_end_addr last_imark = do m ← assert_some last_imark; ok ((m.0 + m.1) % 2 ^ 64)

-- LINUX_SYSENTER_TRAMPOLINE_OFFSET
unfoldable pub trampoline_offset : Bool → ℕ
trampoline_offset use_linux_sysenter = if use_linux_sysenter then 9 else 0

-- VexSB::loadJump: the jump expression.
unfoldable pub load_jump : Bool → JumpKind → Option (ℕ × ℕ) → Next → Result Next
load_jump sysenter sys_sysenter last blk_next = do
  e ← get_end_addr last
  ok (const_u32 ((e + trampoline_offset sysenter) % 2 ^ 32))
load_jump sysenter no_decode last blk_next = fault Fault.assertion
load_jump sysenter unknown_kind last blk_next = fault Fault.assertion
load_jump sysenter kind last blk_next = ok blk_next

-- VexSB::VexSB; `stmts.back()` of an empty superblock is undefined behaviour.
unfoldable pub load : Bool → ℕ → List Stmt → JumpKind → ℕ → Result Superblock
load sysenter guest_addr [] kind next = fault Fault.past_end
load sysenter guest_addr (s ∷ irsb) kind next = do
  r ← load_instructions (s ∷ irsb) none
  e ← load_jump sysenter kind r.1 (expr next)
  ok (record {
    guest_addr = guest_addr;
    stmts = r.0;
    last_imark = r.1;
    jump_kind = kind;
    jump_expr = e;
  })

-- VexSB::create; VEX fails to decode with a jump of its own.
unfoldable pub create : Bool → ℕ → List Stmt → JumpKind → ℕ → Result (Option Superblock)
create sysenter guest_addr irsb no_decode next = ok none
create sysenter guest_addr irsb kind next = do
  sb ← load sysenter guest_addr irsb kind next
  ok (some sb)

-- The exit type that `emit` has the code set; boring jumps leave GE_IGNORE.
unfoldable pub emit_exit_type : JumpKind → Result ExitType
emit_exit_type boring = ok ExitType.ignore
emit_exit_type no_redir = ok ExitType.ignore
emit_exit_type client_req = ok ExitType.ignore
emit_exit_type call = ok ExitType.call
emit_exit_type ret = ok ExitType.return
emit_exit_type yield = ok ExitType.yield
emit_exit_type sys_sysenter = ok ExitType.syscall
emit_exit_type sys_syscall = ok ExitType.syscall
emit_exit_type sys_int128 = ok ExitType.int
emit_exit_type sig_trap = ok ExitType.sigtrap
emit_exit_type no_decode = fault Fault.assertion
emit_exit_type unknown_kind = fault Fault.assertion

-- VexSB::getInstExtents; a length is kept in one byte.
unfoldable pub get_inst_extents : List Stmt → List (ℕ × ℕ)
get_inst_extents [] = []
get_inst_extents (imark addr len ∷ stmts) = (addr, len % 256) ∷ get_inst_extents stmts
get_inst_extents (s ∷ stmts) = get_inst_extents stmts
