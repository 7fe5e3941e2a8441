-- ===== src/Tests/Cache.antt =====
-- src/vexfcache.cc, src/vexjitcache.cc, src/directcache.h: caches of three superblocks.
use vexllvm.Base.{
  length, ◌<◌, ℕ, ◌+◌, ◌-◌, ◌≡◌, refl, Option, none, some, [], ◌∷◌, arith, ok, fault, Fault,
  Ensures, Ensures-ok, member, false,
}
use vexllvm.Base.Maps.{find, insert}
use vexllvm.DirectCache
use vexllvm.DirectCache.{DirectCache, get-put, ptr2slot}
use vexllvm.Cache.State.{Cache, Backend, start}
use vexllvm.Cache.Lookup.{get_cached_fptr, get_cached_func, get_cached_vsb}
use vexllvm.Cache.Fetch
use vexllvm.Cache.Jit
use vexllvm.Cache.Jit.{walk, walk_fuel}
use vexllvm.Cache.Capacity.{IsWithin}
use vexllvm.Cache.Evict
use vexllvm.Cache.Room.{IsFiled, get_vsb-IsWithin}
use vexllvm.Cache.Coherence.Steps.{max-IsCoherent}
use vexllvm.Cache.Coherence.Entries.{IsCoherent, start-IsCoherent}
use vexllvm.Cache.Coherence.Jit.{evict_compiled}
use vexllvm.Cache.Coherence.Fetch.{IsAddressed, HasFunc, get_func-HasFunc}
use vexllvm.Cache.Coherence.Walk.{HasFptr, get_fptr-HasFptr}
use vexllvm.Cache.Coherence.Flush.{IsFlushed, flush_range-IsFlushed}

-- A superblock stands for its guest address, a function for that plus 1000, and code for that
-- plus 5000; every function returns the address behind its own.
abbrev pub guest_addr : ℕ → ℕ
guest_addr s = s

abbrev pub small_backend : Backend
small_backend = record {
  xlate = λ h a. some a;
  emit = λ s. s + 1000;
  ret_addrs = λ f. (f - 999) ∷ [];
  compile = λ f. some (f + 5000);
  named = λ f. f + 5000;
  rand = λ n. n;
}

pub small-IsAddressed : IsAddressed guest_addr small_backend
small-IsAddressed h a s e = ground arith

-- A fetch at 64, which files the code at the address that the function there returns as well.
fetched : (r : Cache × ℕ) × (Jit.get_fptr guest_addr small_backend 64 64 start ≡ ok r)
unfolding Jit.get_fptr Jit.fptr_or_compile get_cached_fptr get_cached_func get_cached_vsb
    DirectCache.get DirectCache.put DirectCache.flush ptr2slot find insert start Jit.fetch
    Fetch.get_func Fetch.func_or_gen Fetch.get_vsb Fetch.vsb_or_alloc Fetch.alloc_cache_vsb
    Fetch.make_room Fetch.file_vsb Fetch.gen_func Fetch.gen_function_by_vsb Jit.compile_func
    Jit.find_exits Jit.file_fptr Jit.walk Jit.walk_round Jit.expand Jit.visit Jit.visit_one
    Jit.is_jitted Jit.note Jit.remove Jit.unless_full Jit.is_full Jit.record_named
fetched = (_, refl)

pub warm : Cache
warm = fetched.0.0

pub warm-IsCoherent : IsCoherent guest_addr warm
unfolding warm
warm-IsCoherent =
    (Ensures-ok (HasFptr guest_addr 64) fetched.1 (
      get_fptr-HasFptr guest_addr small_backend small-IsAddressed 64 64
        (start-IsCoherent guest_addr))).0

-- Both addresses are held, and both have code.
warm_code : (find 64 warm.jit_cache ≡ some 6064) × (find 65 warm.jit_cache ≡ some 6065)
unfolding warm fetched find
warm_code = (refl, refl)

pub warm_func : find 65 warm.func_cache ≡ some 1065
unfolding warm fetched find
warm_func = refl

-- A function at 64 without code.
translated :
    (r : Cache × Option ℕ) × (Fetch.get_func guest_addr small_backend Jit.evict 64 64 start ≡ ok r)
unfolding Jit.get_fptr Jit.fptr_or_compile get_cached_fptr get_cached_func get_cached_vsb
    DirectCache.get DirectCache.put DirectCache.flush ptr2slot find insert start Jit.fetch
    Fetch.get_func Fetch.func_or_gen Fetch.get_vsb Fetch.vsb_or_alloc Fetch.alloc_cache_vsb
    Fetch.make_room Fetch.file_vsb Fetch.gen_func Fetch.gen_function_by_vsb Jit.compile_func
    Jit.find_exits Jit.file_fptr Jit.walk Jit.walk_round Jit.expand Jit.visit Jit.visit_one
    Jit.is_jitted Jit.note Jit.remove Jit.unless_full Jit.is_full Jit.record_named
translated = (_, refl)

cold : Cache
cold = translated.0.0

cold-IsCoherent : IsCoherent guest_addr cold
unfolding cold
cold-IsCoherent =
    (Ensures-ok (HasFunc guest_addr 64 start) translated.1 (
      get_func-HasFunc guest_addr small_backend small-IsAddressed 64 64
        (start-IsCoherent guest_addr))).0.coherent

cold_no_code : find 64 cold.jit_cache ≡ none
unfolding cold translated find
cold_no_code = refl

-- 64 and 16448 share a slot.
abbrev direct : DirectCache ℕ
direct = DirectCache.put DirectCache.flush 64 (some 7)

warm_size : length warm.vexsb_cache ≡ 3
unfolding warm fetched
warm_size = refl

warm_bound : warm.max_cache_ents ≡ 4294967295
unfolding warm fetched start
warm_bound = refl

warm_roomy : length warm.vexsb_cache < warm.max_cache_ents
warm_roomy = omega (arith, warm_size, warm_bound)

warm-IsWithin : IsWithin warm
warm-IsWithin = omega (arith, warm_size, warm_bound)

get_fptr-HasFptr_example :
    Ensures (HasFptr guest_addr 68) (Jit.get_fptr guest_addr small_backend 68 68 warm)
get_fptr-HasFptr_example =
    get_fptr-HasFptr guest_addr small_backend small-IsAddressed 68 68 warm-IsCoherent

get_func-HasFunc_example :
    Ensures
      (HasFunc guest_addr 68 warm)
      (Fetch.get_func guest_addr small_backend Jit.evict 68 68 warm)
get_func-HasFunc_example =
    get_func-HasFunc guest_addr small_backend small-IsAddressed 68 68 warm-IsCoherent

evict_compiled_example : Jit.evict warm 65 ≡ fault Fault.use_after_free
evict_compiled_example = evict_compiled guest_addr warm-IsCoherent 65 1065 warm_func

flush_range-IsFlushed_example :
    Ensures (IsFlushed guest_addr 60 64 warm) (Jit.flush_range 60 64 warm)
flush_range-IsFlushed_example = flush_range-IsFlushed guest_addr 60 64 warm-IsCoherent

-- A cache of one superblock and its function, with no room for another.
abbrev full : Cache
full = record cold { max_cache_ents = 1 }

full-IsFiled : IsFiled guest_addr full.vexsb_cache
unfolding cold translated
full-IsFiled = ((refl, λ e. absurd (omega arith)), tt)

full-IsWithin : IsWithin full
unfolding cold translated
full-IsWithin = omega arith

full_no_code : full.jit_cache ≡ []
unfolding cold translated
full_no_code = refl

none_destroyed : (k f : ℕ) → find k full.func_cache ≡ some f → member f full.destroyed ≡ false
unfolding cold translated
none_destroyed k f there = refl

get_vsb-IsWithin_example :
    (c' : Cache) × (t : ℕ) × (Fetch.get_vsb guest_addr small_backend Evict.evict 68 68 full
      ≡ ok (c', some t))
    × IsWithin c'
get_vsb-IsWithin_example =
    get_vsb-IsWithin guest_addr small_backend 68 68 68 (max-IsCoherent cold-IsCoherent) full-IsFiled
      full-IsWithin (omega arith) full_no_code none_destroyed refl
