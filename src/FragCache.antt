-- ===== src/FragCache.antt =====
-- src/fragcache.cc: the cache of code fragments.
pub mod File
pub mod Searchable
pub mod Hash
pub mod Unset
pub mod Table
pub mod Once
