-- ===== src/Vex/Vector.antt =====
-- src/vexop.cc and src/vexop_macros.h: the operations on vectors.
pub mod Plain
pub mod Interleave
pub mod Lanes
pub mod Saturate
pub mod Splat
