-- ===== src/Superblock.antt =====
-- src/vexsb.cc: superblocks.
pub mod Load
pub mod Jumps
pub mod Imarks
pub mod Registers
