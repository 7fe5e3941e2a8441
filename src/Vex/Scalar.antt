-- ===== src/Vex/Scalar.antt =====
-- src/vexop.cc and src/vexop_macros.h: the operations on one word. An opcode's `emit` is the
-- function that its macro declares; the operands are the values of its arguments.
pub mod Convert
pub mod Binops
