-- ===== src/Vex/Exprs.antt =====
-- src/vexexpr.cc, and the loads and stores of src/genllvm.cc: what the code that a superblock's
-- expressions emit computes, when it runs.
use vexllvm.Base.{
  ℕ, ◌*◌, ◌/◌, Bool, not, ◌&&◌, ◌==◌, ltb, if◌then◌else◌, Result, ok, fault, Fault, ◌>>=◌,
}
use vexllvm.Superblock.Registers.{Values, get_reg_value}
use vexllvm.Vex.Llvm.{Ty, int, vec, float, double, size_in_bits, Builder, add, zext, icmp_eq}
use vexllvm.Vex.Context.Index.{read_index, write_index}

-- What the emitted code runs on: the guest's CPU state, addressed by the index of an element and
-- its type, and the memory of the process, addressed by a pointer's value.
pub record Host (V : Type 0) : Type 1 where
  pub Ctx : Type 0
  pub ctx_load : Ctx → V → Ty → V
  pub ctx_store : Ctx → V → V → Ctx
  pub Mem : Type 0
  pub mem_load : Mem → V → Ty → V
  pub mem_store : Mem → V → V → Mem
  -- `getCtxBase`
  pub ctx_base : V

-- `GuestMem::is32Bit`, `GuestMem::getBase` and GenLLVM's `use_reloc`
pub record Relocation : Type 0 where
  pub is_32bit : Bool
  pub base : ℕ
  pub use_reloc : Bool

pub record State (V Ctx Mem : Type 0) : Type 0 where
  pub values : Values V
  pub ctx : Ctx
  pub mem : Mem

-- The expressions that VexExpr::create makes; an operation is its `emit` on its arguments.
pub data Expr (V : Type 0) : Type 0 where
  get : ℕ → Ty → Expr V
  get_i : ℕ → ℕ → Expr V → ℕ → Ty → Expr V
  rd_tmp : ℕ → Expr V
  const_int : ℕ → ℕ → Expr V
  load : Expr V → Ty → Expr V
  mux0x : Expr V → Expr V → Expr V → Expr V
  gsptr : Expr V
  unop : (V → Result V) → Expr V → Expr V
  binop : (V → V → Result V) → Expr V → Expr V → Expr V

module _ {V : Type 0} (b : Builder V) (h : Host V) (r : Relocation) where
  -- A condition of a branch.
  unfoldable pub is_true : V → Bool
  is_true v = b.lane v 0 == 1

  -- The address that GenLLVM::load and GenLLVM::store make of a guest address.
  unfoldable pub host_addr : V → V
  host_addr addr_v =
      let wide = if r.is_32bit then b.create_cast zext addr_v (int 64) else addr_v in
      if not (r.base == 0) && r.use_reloc then b.create add wide (b.constant 64 r.base) else wide

  -- GenLLVM::load, without the reads of the system page
  unfoldable pub load_mem : h.Mem → V → Ty → V
  load_mem mem addr_v ty = h.mem_load mem (host_addr addr_v) ty

  -- GenLLVM::store, without the memory log
  unfoldable pub store_mem : h.Mem → V → V → h.Mem
  store_mem mem addr_v data_v = h.mem_store mem (host_addr addr_v) data_v

  -- GenLLVM::readCtx and GenLLVM::writeCtx at an offset
  unfoldable pub read_ctx : h.Ctx → ℕ → Ty → Result V
  read_ctx ctx byte_off ty =
      let bytes = size_in_bits ty / 8 in
      if bytes == 0
      then fault Fault.assertion
      else ok (h.ctx_load ctx (b.constant 32 (byte_off / bytes)) ty)

  unfoldable pub write_ctx : h.Ctx → ℕ → V → Result h.Ctx
  write_ctx ctx byte_off v =
      let bytes = size_in_bits (b.type_of v) / 8 in
      if bytes == 0
      then fault Fault.assertion
      else ok (h.ctx_store ctx (b.constant 32 (byte_off / bytes)) v)

  -- GenLLVM::readCtx and GenLLVM::writeCtx at an index
  unfoldable pub read_ctx_at : h.Ctx → ℕ → ℕ → ℕ → V → Ty → Result V
  read_ctx_at ctx byte_off bias len ix access_ty = do
    offset ← read_index b byte_off bias len ix access_ty
    ok (h.ctx_load ctx offset access_ty)

  unfoldable pub write_ctx_at : h.Ctx → ℕ → ℕ → ℕ → V → V → Result h.Ctx
  write_ctx_at ctx byte_off bias len ix v = do
    offset ← write_index b byte_off bias len ix v
    ok (h.ctx_store ctx offset v)

  -- flattenType: vectors of at most 64 bits become integers.
  unfoldable pub flatten_type : V → V
  flatten_type v = flatten_as (b.type_of v)
    where
      flatten_as : Ty → V
      flatten_as (vec n w) = if ltb 64 (n * w) then v else b.create_bit_cast v (int (n * w))
      flatten_as (int w) = v
      flatten_as float = v
      flatten_as double = v

  -- The `emit` of an expression. Both arms of a Mux0X are emitted; the code takes one.
  unfoldable pub emit : Expr V → State V h.Ctx h.Mem → Result V
  emit (get offset ty) s = read_ctx s.ctx offset ty
  emit (get_i base len ix_expr bias elem_type) s = do
    ix_v ← emit ix_expr s
    read_ctx_at s.ctx base bias len ix_v elem_type
  emit (rd_tmp tmp_reg) s = get_reg_value tmp_reg s.values
  emit (const_int w x) s = ok (b.constant w x)
  emit (load addr ty) s = do addr_expr ← emit addr s; ok (load_mem s.mem addr_expr ty)
  emit (mux0x cond expr0 expr_x) s = do
    cmp_val ← emit cond s
    nonzero_val ← emit expr_x s
    zero_val ← emit expr0 s
    let cmp = b.create_icmp icmp_eq cmp_val (b.constant (size_in_bits (b.type_of cmp_val)) 0)
    ok (if is_true cmp then flatten_type zero_val else flatten_type nonzero_val)
  emit gsptr s = ok h.ctx_base
  emit (unop op arg) s = do v1 ← emit arg s; op v1
  emit (binop op arg1 arg2) s = do v1 ← emit arg1 s; v2 ← emit arg2 s; op v1 v2
