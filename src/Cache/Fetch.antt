-- ===== src/Cache/Fetch.antt =====
-- src/vexfcache.cc: what fills the caches.
use vexllvm.Base.{
  ℕ, ◌+◌, Option, none, some, ltb, ◌==◌, if◌then◌else◌, length, Result, ok, fault, Fault, ◌>>=◌,
}
use vexllvm.Base.Maps.{insert}
use vexllvm.DirectCache
use vexllvm.Cache.State.{Cache, Backend}
use vexllvm.Cache.Lookup.{get_cached_vsb, get_cached_func}
use vexllvm.Cache.Evict.{select_victim_address}

module _ (addr_of : ℕ → ℕ) (b : Backend) (evict : Cache → ℕ → Result Cache) where
  -- Room for one more superblock; `evict` is the virtual method.
  unfoldable pub make_room : Cache → Result Cache
  make_room c =
      if length c.vexsb_cache == c.max_cache_ents
      then (do
        victim ← select_victim_address addr_of b c
        evict (record c { rand_calls = c.rand_calls + 1 }) victim)
      else ok c

  -- The end of `allocCacheVSB`: the new superblock goes into both caches.
  unfoldable pub file_vsb : ℕ → ℕ → Cache → Result (Cache × Option ℕ)
  file_vsb guest_addr vsb c =
      if ltb (length c.vexsb_cache) c.max_cache_ents
      then ok (
        record c {
          vexsb_cache = insert guest_addr vsb c.vexsb_cache;
          vexsb_dc = DirectCache.put c.vexsb_dc guest_addr (some vsb);
        },
        some vsb,
      )
      else fault Fault.assertion

  -- VexFCache::allocCacheVSB
  unfoldable pub alloc_cache_vsb : ℕ → ℕ → Cache → Result (Cache × Option ℕ)
  alloc_cache_vsb hostptr guest_addr c = elim (b.xlate hostptr guest_addr) [
    | none ↦ ok (c, none)
    | some vsb ↦ do c' ← make_room c; file_vsb guest_addr vsb c'
  ]

  -- `getVSB`, on the result of the lookup.
  unfoldable pub vsb_or_alloc : ℕ → ℕ → Cache × Option ℕ → Result (Cache × Option ℕ)
  vsb_or_alloc hostptr guest_addr (c, some vsb) = ok (c, some vsb)
  vsb_or_alloc hostptr guest_addr (c, none) = alloc_cache_vsb hostptr guest_addr c

  -- VexFCache::getVSB
  unfoldable pub get_vsb : ℕ → ℕ → Cache → Result (Cache × Option ℕ)
  get_vsb hostptr guest_addr c = vsb_or_alloc hostptr guest_addr (get_cached_vsb c guest_addr)

  -- VexFCache::genFunctionByVSB
  unfoldable pub gen_function_by_vsb : ℕ → Cache → Cache × ℕ
  gen_function_by_vsb vsb c =
      let f = b.emit vsb in
      (
        record c {
          func_cache = insert (addr_of vsb) f c.func_cache;
          func_dc = DirectCache.put c.func_dc (addr_of vsb) (some f);
        },
        f,
      )

  -- The end of `getFunc`, on the superblock that it got.
  unfoldable pub gen_func : Cache × Option ℕ → Cache × Option ℕ
  gen_func (c, none) = (c, none)
  gen_func (c, some vsb) = let (c', f) = gen_function_by_vsb vsb c in (c', some f)

  -- `getFunc`, on the result of the lookup.
  unfoldable pub func_or_gen : ℕ → ℕ → Cache × Option ℕ → Result (Cache × Option ℕ)
  func_or_gen hostptr guest_addr (c, some f) = ok (c, some f)
  func_or_gen hostptr guest_addr (c, none) = do r ← get_vsb hostptr guest_addr c; ok (gen_func r)

  -- VexFCache::getFunc
  unfoldable pub get_func : ℕ → ℕ → Cache → Result (Cache × Option ℕ)
  get_func hostptr guest_addr c = func_or_gen hostptr guest_addr (get_cached_func c guest_addr)
