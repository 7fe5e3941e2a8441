-- ===== src/Syscalls.antt =====
-- src/cpu/amd64syscalls.cc, src/cpu/armsyscalls.cc and src/cpu/i386syscalls.cc: the numbers of
-- system calls.
pub mod Numbers
pub mod Translated
