-- ===== src/Exec/State.antt =====
-- src/vexexec.h, src/vexcpustate.h: the state of the dispatcher, and what it calls.
use vexllvm.Base.{ℕ, Bool, List, Option}
use vexllvm.Base.Int.{ℤ}
use vexllvm.Cache.State.{Cache, Backend}

-- PROT_READ, PROT_WRITE and PROT_EXEC of a protection word.
pub record Prot : Type 0 where
  pub read : Bool
  pub write : Bool
  pub exec : Bool

-- The fields of `GuestMem::Mapping` that the dispatcher reads and writes.
pub record Mapping : Type 0 where
  pub offset : ℕ
  pub length : ℕ
  pub req_prot : Prot
  pub cur_prot : Prot

-- The guest's memory, which this repository does not implement.
pub record Guest : Type 1 where
  pub Mem : Type 0
  -- `GuestMem::lookupMapping`
  pub lookup_mapping : Mem → ℕ → Option Mapping
  -- `mprotect` of the mapping's pages and `GuestMem::recordMapping`
  pub record_mapping : Mem → Mapping → Mem
  -- `GuestMem::Mapping::end`
  pub mapping_end : Mapping → ℕ
  -- `GuestMem::getHostPtr`
  pub host_ptr : Mem → ℕ → ℕ

-- `enum GuestExitType`
pub data ExitType : Type 0 where
  ignore sigtrap sigsegv sigbus emwarn syscall call return yield int : ExitType

-- `enum TraceConf`
pub data TraceConf : Type 0 where
  off log stderr : TraceConf

pub record Exec (Mem : Type 0) : Type 0 where
  pub mem : Mem
  pub cache : Cache
  pub next_addr : ℕ
  pub exited : Bool
  pub exit_code : ℕ
  pub call_depth : ℤ
  pub sb_executed_c : ℕ
  pub trace_conf : TraceConf
  pub trace : List (ℕ × ℤ)
  pub trace_c : ℕ
  pub to_flush : ℕ × ℕ
  -- the exit type byte and the system call result in the guest's CPU state
  pub exit_type : ExitType
  pub syscall_result : ℕ

-- One run of compiled code: the addresses at which it met SIGSEGV, in order, the address that it
-- returned and the exit type that it left.
pub record Run : Type 0 where
  pub faults : List ℕ
  pub new_ip : ℕ
  pub exit_type : ExitType

-- One `Syscalls::apply`: its value, and `isExit`.
pub record Call : Type 0 where
  pub sc_ret : ℕ
  pub is_exit : Bool

-- What the parts that a round of the dispatcher calls answer.
pub record Env : Type 0 where
  pub backend : Backend
  -- `VexSB::getEndAddr`
  pub end_addr : ℕ → ℕ
  -- the compiled code at a `vexfunc_t`
  pub run : ℕ → Run
  pub call : Call
