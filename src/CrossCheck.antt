-- ===== src/CrossCheck.antt =====
-- src/vexexecchk.cc and src/vexexecfastchk.cc: the checkers that run a native process behind the guest.
pub mod Shadow
pub mod Deferred
pub mod Fast
