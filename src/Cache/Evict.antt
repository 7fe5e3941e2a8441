-- ===== src/Cache/Evict.antt =====
-- src/vexfcache.cc: what takes entries out of the caches, and the choice of a victim.
use vexllvm.Base.{
  ℕ, ◌%◌, Option, none, some, List, [], ◌∷◌, ◌||◌, ltb, ◌==◌, if◌then◌else◌, length, get_elem?,
  Result, ok, fault, Fault, ◌>>=◌,
}
use vexllvm.Base.Maps.{erase}
use vexllvm.DirectCache
use vexllvm.Cache.State.{Cache, Backend, destroy, in_range, crosses}
use vexllvm.Cache.Lookup.{get_cached_vsb, get_cached_func}

-- The first half of `evict`, on the result of the lookup.
unfoldable pub drop_func : ℕ → Cache × Option ℕ → Result Cache
drop_func guest_addr (c, none) = ok c
drop_func guest_addr (c, some func) = destroy func (record c {
  func_cache = erase guest_addr c.func_cache;
  func_dc = DirectCache.put c.func_dc guest_addr none;
})

-- The second half of `evict`.
unfoldable pub drop_vsb : ℕ → Cache × Option ℕ → Cache
drop_vsb guest_addr (c, none) = c
drop_vsb guest_addr (c, some vsb) = record c {
  vexsb_dc = DirectCache.put c.vexsb_dc guest_addr none;
  vexsb_cache = erase guest_addr c.vexsb_cache;
}

-- VexFCache::evict
unfoldable pub evict : Cache → ℕ → Result Cache
evict c guest_addr = do
  c' ← drop_func guest_addr (get_cached_func c guest_addr)
  ok (drop_vsb guest_addr (get_cached_vsb c' guest_addr))

-- VexFCache::flush(void); the functions are not destroyed here.
unfoldable pub flush : Cache → Cache
flush c = record c {
  vexsb_cache = [];
  vexsb_dc = DirectCache.flush;
  func_cache = [];
  func_dc = DirectCache.flush;
}

-- The loops of VexFCache::flush(begin, end).
unfoldable pub delete_vsbs : List ℕ → Cache → Cache
delete_vsbs [] c = c
delete_vsbs (a ∷ delete_addrs) c =
    delete_vsbs delete_addrs (record c {
      vexsb_dc = DirectCache.put c.vexsb_dc a none;
      vexsb_cache = erase a c.vexsb_cache;
    })

unfoldable pub delete_funcs : List ℕ → Cache → Cache
delete_funcs [] c = c
delete_funcs (a ∷ delete_addrs) c =
    delete_funcs delete_addrs
      (record c { func_cache = erase a c.func_cache; func_dc = DirectCache.put c.func_dc a none })

-- `it->second->eraseFromParent()` over the range
unfoldable pub destroy_range : ℕ → ℕ → List (ℕ × ℕ) → Cache → Result Cache
destroy_range begin end [] c = ok c
destroy_range begin end ((a, func) ∷ m) c = do
  c' ← if ltb a begin || ltb end a then ok c else destroy func c
  destroy_range begin end m c'

-- VexFCache::flush(begin, end)
unfoldable pub flush_range : ℕ → ℕ → Cache → Result Cache
flush_range begin end c =
    if crosses begin end c.vexsb_cache || crosses begin end c.func_cache
    then fault Fault.past_end
    else do
      let c' = delete_vsbs (in_range begin end c.vexsb_cache) c
      c'' ← destroy_range begin end c'.func_cache c'
      ok (delete_funcs (in_range begin end c''.func_cache) c'')

-- VexFCache::setMaxCache; `flush` is the virtual method.
unfoldable pub set_max_cache : (Cache → Cache) → ℕ → Cache → Cache
set_max_cache flush x c =
    let c' = if ltb x c.max_cache_ents then flush c else c in record c' { max_cache_ents = x }

-- VexFCache::selectVictimAddress; `addr_of` is `VexSB::getGuestAddr`.
unfoldable pub select_victim_address : (ℕ → ℕ) → Backend → Cache → Result ℕ
select_victim_address addr_of b c =
    let size = length c.vexsb_cache in
    if size == 0
    then fault Fault.division
    else elim (get_elem? c.vexsb_cache (b.rand c.rand_calls % size)) [
      | none ↦ fault Fault.assertion
      | some entry ↦ if addr_of entry.1 == 0 then fault Fault.assertion else ok (addr_of entry.1)
    ]
