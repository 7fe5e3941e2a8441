-- ===== src/Vex.antt =====
-- The translation of VEX to LLVM: the builder that the emitters call, the operations and the
-- statements.
pub mod Llvm
pub mod Scalar
pub mod Vector
pub mod Context
pub mod Exprs
pub mod Stmts
