-- ===== src/Vex/Context.antt =====
-- src/genllvm.cc: the accesses of emitted code to the guest's CPU state, and the struct type that
-- describes it.
pub mod Pointers
pub mod Placed
pub mod Cached
pub mod Layout
pub mod Index
