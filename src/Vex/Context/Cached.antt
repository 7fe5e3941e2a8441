-- ===== src/Vex/Context/Cached.antt =====
-- src/genllvm.cc: in every state that the generator reaches, which pointer an access takes.
use vexllvm.Base.{ℕ, ◌/◌, ◌≡◌, ◌≢◌, [], none, some, ok}
use vexllvm.Vex.Llvm.{Ty, size_in_bits}
use vexllvm.Vex.Context.Pointers.{Gep, Gen, get_ctx_byte_gep, begin_bb, end_bb, set_insert_point}

-- The states of the generator: functions begin and end, code moves on to other blocks than the
-- entry block, and the CPU state is accessed.
pub data IsReached : Gen → Type 0 where
  fresh :
      (bb : ℕ)
      → IsReached
          (record { entry_bb = none; insert_block = bb; gepbyte_map = []; ctxcast_map = [] })
  begun : {g g' : Gen} (bb : ℕ) → IsReached g → begin_bb bb g ≡ ok g' → IsReached g'
  moved :
      {g : Gen} (bb : ℕ) → IsReached g → g.entry_bb ≢ some bb → IsReached (set_insert_point bb g)
  accessed :
      {g : Gen} (off : ℕ) (ty : Ty) (e : ℕ) (p : Gep × Gen)
      → IsReached g
      → g.entry_bb ≡ some e
      → size_in_bits ty / 8 ≢ 0
      → get_ctx_byte_gep off ty g ≡ ok p
      → IsReached p.1
  ended : {g g' : Gen} → IsReached g → end_bb g ≡ ok g' → IsReached g'
