-- ===== src/Support.antt =====
-- support: the helpers that compiled code calls.
pub mod Count
pub mod Counted
pub mod Floats
