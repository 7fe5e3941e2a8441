-- ===== src/Exec.antt =====
-- src/vexexec.h, src/vexexec.cc: the dispatcher that runs translated code superblock by
-- superblock.
pub mod State
pub mod Dispatch
pub mod Invariant
pub mod Rounds
pub mod Protection
pub mod Signals
pub mod Pending
pub mod Loop
