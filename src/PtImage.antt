-- ===== src/PtImage.antt =====
-- src/ptimgchk.cc and src/memlog.h: the memory of a native process beside the guest's.
pub mod MemLog
pub mod Stored
pub mod Pages
pub mod Traced
pub mod Fixed
pub mod Check
pub mod Settled
pub mod Slurped
