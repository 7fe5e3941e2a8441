-- ===== src/Cache.antt =====
-- src/vexfcache.h, src/vexjitcache.h: the state of the translation caches. One record holds the
-- fields of `VexFCache` and those that `VexJITCache` adds to it; the latter stay empty in a plain
-- `VexFCache`. Pointers to superblocks, LLVM functions and compiled code are numbers that name
-- the object; a null pointer is `none`.
pub mod State
pub mod Lookup
pub mod Evict
pub mod Fetch
pub mod Jit
pub mod Coherence
pub mod Exits
pub mod Capacity
pub mod Room
