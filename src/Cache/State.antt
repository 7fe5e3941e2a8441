-- ===== src/Cache/State.antt =====
-- src/vexfcache.h, src/vexjitcache.h: the fields, and what the caches call.
use vexllvm.Base.{
  ℕ, ◌^◌, ◌-◌, Bool, false, ◌&&◌, ◌||◌, List, [], ◌∷◌, Option, ltb, leb, if◌then◌else◌, member,
  Result, ok, fault, Fault,
}
use vexllvm.Base.Maps.{Map}
use vexllvm.DirectCache
use vexllvm.DirectCache.{DirectCache}

pub record Cache : Type 0 where
  pub max_cache_ents : ℕ
  -- VexSB* by guest address
  pub vexsb_cache : Map ℕ
  pub vexsb_dc : DirectCache ℕ
  -- llvm::Function* by guest address
  pub func_cache : Map ℕ
  pub func_dc : DirectCache ℕ
  -- vexfunc_t by guest address
  pub jit_cache : Map ℕ
  pub jit_dc : DirectCache ℕ
  -- the functions that were destroyed so far, which no field of the program records
  pub destroyed : List ℕ
  -- how often `rand()` was called
  pub rand_calls : ℕ

-- What the parts that a cache calls answer during one call of the cache: the VEX front end, the
-- LLVM emitter, the JIT engine and `rand()`. Another call may be given other answers.
pub record Backend : Type 0 where
  -- `VexXlate::xlate`, by host pointer and guest address
  pub xlate : ℕ → ℕ → Option ℕ
  -- `VexSB::emit`, whose result is asserted to be non-null
  pub emit : ℕ → ℕ
  -- `get_ret_addrs`: the constants that a function returns
  pub ret_addrs : ℕ → List ℕ
  -- `JITEngine::getPointerToFunction`
  pub compile : ℕ → Option ℕ
  -- `JITEngine::getPointerToNamedFunction`, at the function of that name
  pub named : ℕ → ℕ
  -- `rand()`, by how often it was called before
  pub rand : ℕ → ℕ

-- `max_cache_ents(~0)`, an `unsigned int`.
abbrev pub addr_max : ℕ
addr_max = 2 ^ 32 - 1

unfoldable pub start : Cache
start = record {
  max_cache_ents = addr_max;
  vexsb_cache = [];
  vexsb_dc = DirectCache.flush;
  func_cache = [];
  func_dc = DirectCache.flush;
  jit_cache = [];
  jit_dc = DirectCache.flush;
  destroyed = [];
  rand_calls = 0;
}

-- `delete f` and `f->eraseFromParent()`; both end the function's life.
unfoldable pub destroy : ℕ → Cache → Result Cache
destroy f c =
    if member f c.destroyed
    then fault Fault.use_after_free
    else ok (record c { destroyed = f ∷ c.destroyed })

-- The keys that an iteration from `lower_bound(begin)` to `upper_bound(end)` visits.
unfoldable pub in_range : ℕ → ℕ → Map ℕ → List ℕ
in_range begin end [] = []
in_range begin end ((k, _) ∷ m) =
    let rest = in_range begin end m in if leb begin k && leb k end then k ∷ rest else rest

-- With a key between `end` and `begin` the iteration starts behind its end and runs off the map.
unfoldable pub crosses : ℕ → ℕ → Map ℕ → Bool
crosses begin end [] = false
crosses begin end ((k, _) ∷ m) = (ltb end k && ltb k begin) || crosses begin end m
