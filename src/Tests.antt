-- ===== src/Tests.antt =====
-- Runs of the code at concrete inputs.
pub mod Cache
pub mod Exec
pub mod Support
pub mod CrossCheck
pub mod FragCache
pub mod Superblock
pub mod Vex
pub mod Syscalls
pub mod Translator
pub mod PtImage
