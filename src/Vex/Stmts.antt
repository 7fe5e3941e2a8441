-- ===== src/Vex/Stmts.antt =====
-- src/vexstmt.cc: what the code that the statements of a superblock emit does, when it runs.
pub mod Exits
pub mod Guarded
pub mod Swap
use vexllvm.Base.{
  ℕ, ◌+◌, ◌/◌, Bool, true, false, Option, none, some, if◌then◌else◌, Result, ok, fault, Fault,
  ◌>>=◌,
}
use vexllvm.Superblock.Registers.{Values, set_reg_value}
use vexllvm.Exec.State.{ExitType}
use vexllvm.Vex.Llvm.{Ty, int, vec, size_in_bits, Builder, add, zext, sext, icmp_eq}
use vexllvm.Vex.Exprs.{
  Host, Relocation, State, Expr, is_true, load_mem, store_mem, write_ctx, write_ctx_at, emit,
}

-- `IRLoadGOp`, and other values
pub data LoadGOp : Type 0 where
  ident32 ident_v128 u8to32 s8to32 u16to32 s16to32 unknown_op : LoadGOp

-- The jump kinds of a conditional exit, and all others
pub data ExitKind : Type 0 where
  boring call ret sys_int128 sys_syscall sys_sysenter map_fail sig_segv em_warn : ExitKind
  no_decode unexpected : ExitKind

-- The enumeration's numbers.
abbrev pub exit_code : ExitType → ℕ
exit_code ExitType.ignore = 0
exit_code ExitType.sigtrap = 1
exit_code ExitType.sigsegv = 2
exit_code ExitType.sigbus = 3
exit_code ExitType.emwarn = 4
exit_code ExitType.syscall = 5
exit_code ExitType.call = 6
exit_code ExitType.return = 7
exit_code ExitType.yield = 8
exit_code ExitType.int = 9

-- The switch of VexStmtExit's constructor
unfoldable pub exit_type_of : ExitKind → Result ExitType
exit_type_of boring = ok ExitType.ignore
exit_type_of call = ok ExitType.call
exit_type_of ret = ok ExitType.return
exit_type_of sys_int128 = ok ExitType.int
exit_type_of sys_syscall = ok ExitType.syscall
exit_type_of sys_sysenter = ok ExitType.syscall
exit_type_of map_fail = ok ExitType.sigsegv
exit_type_of sig_segv = ok ExitType.sigsegv
exit_type_of em_warn = ok ExitType.emwarn
exit_type_of no_decode = ok ExitType.emwarn
exit_type_of unexpected = fault Fault.assertion

unfoldable pub is_boring : ExitKind → Bool
is_boring boring = true
is_boring _ = false

-- How a statement's code ends: it goes on, or it returns the address to go to.
pub data Outcome (S : Type 0) : Type 0 where
  next : S → Outcome S
  leave : S → ℕ → Outcome S

-- The halves of a double-width swap: the old value's temporary, the expected value, the new one.
pub record HighHalf (V : Type 0) : Type 0 where
  pub old_val_tmp_hi : ℕ
  pub expected_val_hi : Expr V
  pub new_val_hi : Expr V

module _ {V : Type 0} (b : Builder V) (h : Host V) (r : Relocation) (exit_type_offset : ℕ)
    (reg_type : ℕ → Ty) where
  -- `parent->setRegValue`
  unfoldable pub set_reg : ℕ → V → State V h.Ctx h.Mem → Result (State V h.Ctx h.Mem)
  set_reg t v s = do values ← set_reg_value t v s.values; ok (record s { values = values })

  -- VexStmtPut::emit
  unfoldable pub emit_put : ℕ → Expr V → State V h.Ctx h.Mem → Result (State V h.Ctx h.Mem)
  emit_put offset data_expr s = do
    out_v ← emit b h r data_expr s
    ctx ← write_ctx b h r s.ctx offset out_v
    ok (record s { ctx = ctx })

  -- VexStmtPutI::emit
  unfoldable pub emit_put_i :
      ℕ → ℕ → ℕ → Expr V → Expr V → State V h.Ctx h.Mem → Result (State V h.Ctx h.Mem)
  emit_put_i base bias len ix_expr data_expr s = do
    out_v ← emit b h r data_expr s
    ix_v ← emit b h r ix_expr s
    ctx ← write_ctx_at b h r s.ctx base bias len ix_v out_v
    ok (record s { ctx = ctx })

  -- VexStmtWrTmp::emit
  unfoldable pub emit_wr_tmp : ℕ → Expr V → State V h.Ctx h.Mem → Result (State V h.Ctx h.Mem)
  emit_wr_tmp tmp_reg expr s = do v ← emit b h r expr s; set_reg tmp_reg v s

  -- VexStmtStore::emit
  unfoldable pub emit_store : Expr V → Expr V → State V h.Ctx h.Mem → Result (State V h.Ctx h.Mem)
  emit_store addr_expr data_expr s = do
    data_v ← emit b h r data_expr s
    addr_v ← emit b h r addr_expr s
    ok (record s { mem = store_mem b h r s.mem addr_v data_v })

  -- GenLLVM::getLinked: always linked
  unfoldable pub get_linked : V
  get_linked = b.constant 1 1

  -- VexStmtLLSC::emitLoad, and VexStmtLLSC::emitStore with the data to store
  unfoldable pub emit_llsc :
      ℕ → Expr V → Option (Expr V) → State V h.Ctx h.Mem → Result (State V h.Ctx h.Mem)
  emit_llsc result addr_expr none s = do
    addr_v ← emit b h r addr_expr s
    set_reg result (load_mem b h r s.mem addr_v (reg_type result)) s
  emit_llsc result addr_expr (some data_expr) s = do
    addr_v ← emit b h r addr_expr s
    data_v ← emit b h r data_expr s
    let linked = record s { mem = store_mem b h r s.mem addr_v data_v }
    set_reg result get_linked (if is_true b h r get_linked then linked else s)

  -- VexStmtCAS::emit without a high half
  unfoldable pub emit_cas_single :
      ℕ → Expr V → Expr V → Expr V → State V h.Ctx h.Mem → Result (State V h.Ctx h.Mem)
  emit_cas_single old_val_tmp addr expected_val new_val s = do
    v_addr ← emit b h r addr s
    v_expected ← emit b h r expected_val s
    let v_addr_load = load_mem b h r s.mem v_addr (b.type_of v_expected)
    let v_cmp = b.create_icmp icmp_eq v_expected v_addr_load
    v_new ← emit b h r new_val s
    let matched = record s { mem = store_mem b h r s.mem v_addr v_new }
    set_reg old_val_tmp v_addr_load (if is_true b h r v_cmp then matched else s)

  -- VexStmtCAS::emit with a high half
  unfoldable pub emit_cas_double :
      ℕ → Expr V → Expr V → Expr V → HighHalf V → State V h.Ctx h.Mem → Result (State V h.Ctx h.Mem)
  emit_cas_double old_val_tmp addr expected_val new_val hi s = do
    v_addr ← emit b h r addr s
    v_expected ← emit b h r expected_val s
    let t = b.type_of v_expected
    let v_addr_load = load_mem b h r s.mem v_addr t
    v_expected_hi ← emit b h r hi.expected_val_hi s
    let a_w = size_in_bits (b.type_of v_addr)
    let v_addr_hi = b.create add v_addr (b.constant a_w (size_in_bits t / 8))
    let v_addr_load_hi = load_mem b h r s.mem v_addr_hi t
    let v_cmp = b.create_icmp icmp_eq v_expected v_addr_load
    let v_cmp = b.create_icmp icmp_eq v_cmp (b.create_icmp icmp_eq v_expected_hi v_addr_load_hi)
    v_new ← emit b h r new_val s
    let low = record s { mem = store_mem b h r s.mem v_addr v_new }
    v_new_hi ← emit b h r new_val low
    let both = record low { mem = store_mem b h r low.mem v_addr_hi v_new_hi }
    s ← set_reg old_val_tmp v_addr_load (if is_true b h r v_cmp then both else s)
    set_reg hi.old_val_tmp_hi v_addr_load_hi s

  -- VexStmtStoreG::emit
  unfoldable pub emit_store_g :
      Expr V → Expr V → Expr V → State V h.Ctx h.Mem → Result (State V h.Ctx h.Mem)
  emit_store_g addr data_expr guard s = do
    guard_v ← emit b h r guard s
    addr_v ← emit b h r addr s
    data_v ← emit b h r data_expr s
    let then_s = record s { mem = store_mem b h r s.mem addr_v data_v }
    ok (if is_true b h r guard_v then then_s else s)

  -- The two switches of VexStmtLoadG::emit
  unfoldable pub load_g_value : LoadGOp → h.Mem → V → Result V
  load_g_value ident32 mem addr_v = ok (load_mem b h r mem addr_v (int 32))
  load_g_value ident_v128 mem addr_v = ok (load_mem b h r mem addr_v (vec 16 8))
  load_g_value u8to32 mem addr_v =
      ok (b.create_cast zext (load_mem b h r mem addr_v (int 8)) (int 32))
  load_g_value s8to32 mem addr_v =
      ok (b.create_cast sext (load_mem b h r mem addr_v (int 8)) (int 32))
  load_g_value u16to32 mem addr_v =
      ok (b.create_cast zext (load_mem b h r mem addr_v (int 16)) (int 32))
  load_g_value s16to32 mem addr_v =
      ok (b.create_cast sext (load_mem b h r mem addr_v (int 16)) (int 32))
  load_g_value unknown_op mem addr_v = fault Fault.assertion

  -- VexStmtLoadG::emit
  unfoldable pub emit_load_g :
      LoadGOp → ℕ → Expr V → Expr V → Expr V → State V h.Ctx h.Mem → Result (State V h.Ctx h.Mem)
  emit_load_g loadg_op dst_tmp addr alt guard s = do
    guard_v ← emit b h r guard s
    addr_v ← emit b h r addr s
    alt_v ← emit b h r alt s
    c_v ← load_g_value loadg_op s.mem addr_v
    set_reg dst_tmp (if is_true b h r guard_v then c_v else alt_v) s

  -- GenLLVM::setExitType
  unfoldable pub set_exit_type : ExitType → State V h.Ctx h.Mem → Result (State V h.Ctx h.Mem)
  set_exit_type exit_type s = do
    ctx ← write_ctx b h r s.ctx exit_type_offset (b.constant 8 (exit_code exit_type))
    ok (record s { ctx = ctx })

  -- VexStmtExit: the constructor's switch, then emit
  unfoldable pub emit_exit :
      Expr V → ExitKind → ℕ → State V h.Ctx h.Mem → Result (Outcome (State V h.Ctx h.Mem))
  emit_exit guard jk dst s = do
    exit_type ← exit_type_of jk
    v_cmp ← emit b h r guard s
    left ← if is_boring jk then ok s else set_exit_type exit_type s
    ok (if is_true b h r v_cmp then leave left dst else next s)
