-- ===== src/Cache/Lookup.antt =====
-- src/vexfcache.cc, src/vexjitcache.cc: the lookups. Each asks the direct cache, then the map,
-- and refills the direct cache from the map.
use vexllvm.Base.{ℕ, Option, none, some}
use vexllvm.Base.Maps.{find}
use vexllvm.DirectCache
use vexllvm.DirectCache.{DirectCache}
use vexllvm.Cache.State.{Cache}

-- VexFCache::getCachedVSB
unfoldable pub get_cached_vsb : Cache → ℕ → Cache × Option ℕ
get_cached_vsb c guest_addr = elim (DirectCache.get c.vexsb_dc guest_addr) [
  | some vsb ↦ (c, some vsb)
  | none ↦ elim (find guest_addr c.vexsb_cache) [
    | none ↦ (c, none)
    | some vsb ↦
        (record c { vexsb_dc = DirectCache.put c.vexsb_dc guest_addr (some vsb) }, some vsb)
  ]
]

-- VexFCache::getCachedFunc
unfoldable pub get_cached_func : Cache → ℕ → Cache × Option ℕ
get_cached_func c guest_addr = elim (DirectCache.get c.func_dc guest_addr) [
  | some func ↦ (c, some func)
  | none ↦ elim (find guest_addr c.func_cache) [
    | none ↦ (c, none)
    | some func ↦
        (record c { func_dc = DirectCache.put c.func_dc guest_addr (some func) }, some func)
  ]
]

-- VexJITCache::getCachedFPtr
unfoldable pub get_cached_fptr : Cache → ℕ → Cache × Option ℕ
get_cached_fptr c guest_addr = elim (DirectCache.get c.jit_dc guest_addr) [
  | some fptr ↦ (c, some fptr)
  | none ↦ elim (find guest_addr c.jit_cache) [
    | none ↦ (c, none)
    | some fptr ↦ (record c { jit_dc = DirectCache.put c.jit_dc guest_addr (some fptr) }, some fptr)
  ]
]
