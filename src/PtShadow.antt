-- ===== src/PtShadow.antt =====
-- src/cpu/ptshadowamd64.cc: the registers of a native AMD64 process beside those of the guest.
pub mod Regs
pub mod Compare
pub mod Matched
pub mod Copies
pub mod Decode
pub mod Fewer
