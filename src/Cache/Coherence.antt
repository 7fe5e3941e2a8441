-- ===== src/Cache/Coherence.antt =====
-- What ties the maps of the translation caches together.
pub mod Backed
pub mod Entries
pub mod Steps
pub mod Evict
pub mod Jit
pub mod Fetch
pub mod Walk
pub mod Flush
