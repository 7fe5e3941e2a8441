-- ===== src/Cache/Jit.antt =====
-- src/vexjitcache.cc: the caches with compiled code behind the functions.
use vexllvm.Base.{
  ℕ, zero, suc, ◌+◌, Bool, true, false, ◌||◌, List, [], ◌∷◌, ◌++◌, Option, none, some, ltb, ◌==◌,
  if◌then◌else◌, length, member, Result, ok, fault, Fault, ◌>>=◌, assert_some,
}
use vexllvm.Base.Maps.{find, insert, erase}
use vexllvm.DirectCache
use vexllvm.Cache.State.{Cache, Backend, destroy, in_range, crosses}
use vexllvm.Cache.Lookup.{get_cached_func, get_cached_fptr}
use vexllvm.Cache.Evict
use vexllvm.Cache.Fetch.{get_func}

-- `delete f` in `evict`, on the result of the lookup.
unfoldable pub delete_func : Cache × Option ℕ → Result Cache
delete_func (c, none) = ok c
delete_func (c, some f) = destroy f c

-- VexJITCache::evict
unfoldable pub evict : Cache → ℕ → Result Cache
evict c guest_addr = do
  c' ← delete_func (get_cached_func c guest_addr)
  Evict.evict
      (record c' {
        jit_cache = erase guest_addr c'.jit_cache;
        jit_dc = DirectCache.put c'.jit_dc guest_addr none;
      })
      guest_addr

-- VexJITCache::flush(void)
unfoldable pub flush : Cache → Cache
flush c = Evict.flush (record c { jit_cache = []; jit_dc = DirectCache.flush })

-- The loop of VexJITCache::flush(begin, end).
unfoldable pub delete_fptrs : List ℕ → Cache → Cache
delete_fptrs [] c = c
delete_fptrs (a ∷ addrs) c =
    delete_fptrs addrs
      (record c { jit_cache = erase a c.jit_cache; jit_dc = DirectCache.put c.jit_dc a none })

-- VexJITCache::flush(begin, end): the range is walked in the map of the functions.
unfoldable pub flush_range : ℕ → ℕ → Cache → Result Cache
flush_range begin end c =
    if crosses begin end c.func_cache
    then fault Fault.past_end
    else Evict.flush_range begin end (delete_fptrs (in_range begin end c.func_cache) c)

-- The locals of `getFPtr` under FETCH_EXITS, and the cache. A name stands for the function.
pub record Walk : Type 0 where
  pub cache : Cache
  pub fnames : List (ℕ × ℕ)
  pub workset : List ℕ
  pub queue : List ℕ
  pub complete : List ℕ

-- `jit_cache.count(addr)`
unfoldable pub is_jitted : ℕ → Cache → Bool
is_jitted addr c = elim (find addr c.jit_cache) [ none ↦ false | some _ ↦ true ]

-- `workset.erase(f)`
unfoldable pub remove : ℕ → List ℕ → List ℕ
remove f [] = []
remove f (x ∷ xs) = let rest = remove f xs in if f == x then rest else x ∷ rest

-- `jit_cache[p.first] = vf` for the functions found on the walk.
unfoldable pub record_named : Backend → List (ℕ × ℕ) → Cache → Cache
record_named b [] c = c
record_named b ((addr, f) ∷ fnames) c =
    record_named b fnames (record c { jit_cache = insert addr (b.named f) c.jit_cache })

-- More rounds than the loop over the exits makes.
abbrev pub walk_fuel : ℕ
walk_fuel = 3

module _ (addr_of : ℕ → ℕ) (b : Backend) where
  -- `getFunc` as `getFPtr` calls it
  unfoldable pub fetch : ℕ → ℕ → Cache → Result (Cache × Option ℕ)
  fetch = get_func addr_of b evict

  -- What the loop over the exits does with one function that it got.
  unfoldable pub note : ℕ → Cache × Option ℕ → Walk → Walk
  note addr (c, none) w = record w { cache = c }
  note addr (c, some f) w =
      if member f w.workset || member f w.complete then record w { cache = c } else record w {
        cache = c;
        fnames = (addr, f) ∷ w.fnames;
        workset = f ∷ w.workset;
        queue = w.queue ++ f ∷ [];
      }

  -- One round of the loop over the exits.
  unfoldable pub visit_one : ℕ → Walk → Result Walk
  visit_one addr w =
      if is_jitted addr w.cache then ok w else do r ← fetch addr addr w.cache; ok (note addr r w)

  -- `for (auto & addr : addrs)`
  unfoldable pub visit : List ℕ → Walk → Result Walk
  visit [] w = ok w
  visit (addr ∷ addrs) w = do w' ← visit_one addr w; visit addrs w'

  -- The body of the loop up to its `break`, at the function in front of the queue.
  unfoldable pub expand : ℕ → List ℕ → Walk → Result Walk
  expand f queue w = do
    w' ← visit (b.ret_addrs f) (record w { queue = queue })
    ok (record w' { workset = remove f w'.workset; complete = f ∷ w'.complete })

  unfoldable pub is_full : Walk → Bool
  is_full w = ltb 2 (length w.complete + length w.workset)

  -- The `break` at the end of the body.
  unfoldable pub unless_full : (Walk → Result Walk) → Walk → Result Walk
  unless_full next w = elim (is_full w) [ true ↦ ok w | false ↦ next w ]

  -- The loop's test and body, by the work set and the queue of the state. The front of an empty
  -- queue is undefined behaviour.
  unfoldable pub walk_round : (Walk → Result Walk) → List ℕ → List ℕ → Walk → Result Walk
  walk_round next [] queue w = ok w
  walk_round next (_ ∷ _) [] w = fault Fault.past_end
  walk_round next (_ ∷ _) (f ∷ queue) w = do w' ← expand f queue w; unless_full next w'

  -- `while (!workset.empty())`, on fuel
  unfoldable pub walk : ℕ → Walk → Result Walk
  walk zero w = ok w
  walk (suc fuel) w = walk_round (walk fuel) w.workset w.queue w

  -- The search for exits is made only where guest addresses are host addresses.
  unfoldable pub find_exits : ℕ → ℕ → ℕ → Cache → Result Walk
  find_exits host_addr guest_addr f c =
      let w : Walk = record {
        cache = c;
        fnames = [];
        workset = f ∷ [];
        queue = f ∷ [];
        complete = [];
      } in
      if host_addr == guest_addr then walk walk_fuel w else ok w

  -- The end of `getFPtr`: what the walk found and the address itself are filed.
  unfoldable pub file_fptr : ℕ → ℕ → Walk → Cache × ℕ
  file_fptr guest_addr p w =
      let c = record_named b w.fnames w.cache in
      (
        record c {
          jit_cache = insert guest_addr p c.jit_cache;
          jit_dc = DirectCache.put c.jit_dc guest_addr (some p);
        },
        p,
      )

  -- What `getFPtr` does with the function of the address.
  unfoldable pub compile_func : ℕ → ℕ → Cache × Option ℕ → Result (Cache × ℕ)
  compile_func host_addr guest_addr (c, none) = fault Fault.assertion
  compile_func host_addr guest_addr (c, some f) = do
    w ← find_exits host_addr guest_addr f c
    p ← assert_some (b.compile f)
    ok (file_fptr guest_addr p w)

  -- `getFPtr`, on the result of the lookup.
  unfoldable pub fptr_or_compile : ℕ → ℕ → Cache × Option ℕ → Result (Cache × ℕ)
  fptr_or_compile host_addr guest_addr (c, some p) = ok (c, p)
  fptr_or_compile host_addr guest_addr (c, none) = do
    r ← fetch host_addr guest_addr c
    compile_func host_addr guest_addr r

  -- VexJITCache::getFPtr
  unfoldable pub get_fptr : ℕ → ℕ → Cache → Result (Cache × ℕ)
  get_fptr host_addr guest_addr c =
      fptr_or_compile host_addr guest_addr (get_cached_fptr c guest_addr)
