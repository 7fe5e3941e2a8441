-- ===== src/Tests/Superblock.antt =====
-- src/vexsb.cc: a superblock of two instructions.
use vexllvm.Base.{ℕ, ◌≡◌, ◌⊎◌, refl, true, List, [], ◌∷◌, Option, some, ok, fault, Fault, Ensures}
use vexllvm.Exec.State.{Exec}
use vexllvm.Superblock.Load.{
  Stmt, imark, wr_tmp, put, yield, sys_sysenter, Superblock, create, get_end_addr, emit_exit_type,
  trampoline_offset, load, load_instructions, null, made, construct, load_next_instruction, mark,
  load_jump, const_u32,
}
use vexllvm.Superblock.Jumps.{CanEmit, create-CanEmit, after_jump, after_jump_lem}
use vexllvm.Exec.State.{Mapping}
use vexllvm.Tests.Cache.{guest_addr}
use vexllvm.Tests.Exec.{guest, env, running}

abbrev two_instructions : List Stmt
two_instructions = wr_tmp null ∷ imark 4100 3 ∷ put made ∷ []

create-CanEmit_example : Ensures CanEmit (create true 4096 (imark 4096 2 ∷ []) sys_sysenter 7)
create-CanEmit_example = create-CanEmit true 4096 (imark 4096 2 ∷ []) sys_sysenter 7

-- `sysenter` goes on behind the trampoline.
sysenter_target :
    create true 4096 (imark 4096 2 ∷ []) sys_sysenter 7
    ≡ ok (
        some (record {
          guest_addr = 4096;
          stmts = imark 4096 2 ∷ [];
          last_imark = some (4096, 2);
          jump_kind = sys_sysenter;
          jump_expr = const_u32 4107;
        }))
unfolding create load load_instructions load_next_instruction construct mark load_jump get_end_addr
    trampoline_offset
sysenter_target = refl

after_jump_example :
    ((yield ≡ yield)
      × (after_jump guest_addr guest env 4096 4200 running yield ≡ fault Fault.assertion))
    ⊎ ((emit_exit_type yield ≡ fault Fault.assertion)
        ⊎ ((r : Exec Mapping × Option ℕ) × (after_jump guest_addr guest env 4096 4200 running yield
              ≡ ok r)))
after_jump_example = after_jump_lem guest_addr guest env 4096 4200 running yield
