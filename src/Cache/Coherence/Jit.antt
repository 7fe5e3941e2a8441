-- ===== src/Cache/Coherence/Jit.antt =====
-- src/vexjitcache.cc: eviction with compiled code, and what a fetch leaves.
use vexllvm.Base.{
  ℕ, ◌≡◌, refl, none, some, ◌∷◌, arith, Bool-cases, Option-cases, inl, inr, fault, Fault, Ensures,
  member, Ensures-mono,
}
use vexllvm.Base.Maps.{find}
use vexllvm.DirectCache
use vexllvm.DirectCache.{get-put}
use vexllvm.Cache.State.{Cache, destroy}
use vexllvm.Cache.Jit
use vexllvm.Cache.Jit.{delete_func}
use vexllvm.Cache.Coherence.Entries.{IsCoherent, get_cached_func_lem}
use vexllvm.Cache.Coherence.Evict.{
  IsEvicted, evict-IsEvicted, evict_destroyed, find-erase_self, erase_absent,
}
use vexllvm.Cache.Coherence.Steps.{refill_func-IsCoherent, ghost-IsCoherent, erase_jit-IsCoherent}

-- Coherent caches that still have every function, and whose direct cache of compiled code
-- answers no address that it did not answer before.
pub record Extends (addr_of : ℕ → ℕ) (c c' : Cache) : Type 0 where
  pub coherent : IsCoherent addr_of c'
  pub keeps_func : (a f : ℕ) → find a c.func_cache ≡ some f → find a c'.func_cache ≡ some f
  pub stays_silent :
      (a : ℕ) → DirectCache.get c.jit_dc a ≡ none → DirectCache.get c'.jit_dc a ≡ none

pub Extends-refl : {addr_of : ℕ → ℕ} {c : Cache} → IsCoherent addr_of c → Extends addr_of c c
Extends-refl v = record { coherent = v; keeps_func = λ a f h. h; stays_silent = λ a h. h }

pub Extends-trans :
    {addr_of : ℕ → ℕ} {c d e : Cache}
    → Extends addr_of c d
    → Extends addr_of d e
    → Extends addr_of c e
Extends-trans x y = record {
  coherent = y.coherent;
  keeps_func = λ a f h. y.keeps_func a f (x.keeps_func a f h);
  stays_silent = λ a h. y.stays_silent a (x.stays_silent a h);
}

module _ (addr_of : ℕ → ℕ) {c : Cache} (v : IsCoherent addr_of c) (a : ℕ) where
  -- With coherent caches, VexJITCache::evict of an address that has a function uses the
  -- function after it was freed.
  pub evict_compiled :
      (f : ℕ) → find a c.func_cache ≡ some f → Jit.evict c a ≡ fault Fault.use_after_free
  unfolding Jit.evict delete_func destroy
  evict_compiled f there =
      let (d, e, backed) = get_cached_func_lem v a in
      let v' =
        erase_jit-IsCoherent
          (ghost-IsCoherent (refill_func-IsCoherent v backed) {fs = f ∷ c.destroyed}
            {n = c.rand_calls})
          a in
      let again = evict_destroyed addr_of a v' f there (ground arith) in
      elim (Bool-cases (member f c.destroyed)) [
        | inl dead ↦ rw (e, there, dead) refl
        | inr alive ↦ rw (e, there, alive) again
      ]

  unjitted : find a c.func_cache ≡ none → find a c.jit_cache ≡ none
  unjitted absent = elim (Option-cases (find a c.jit_cache)) [
    | inl gone ↦ gone
    | inr (p, there) ↦ let (f, e) = v.jit_has_func a p there in cc
  ]

  evict_uncompiled : find a c.func_cache ≡ none → Ensures (Extends addr_of c) (Jit.evict c a)
  unfolding Jit.evict delete_func
  evict_uncompiled absent =
      let (d, e, backed) = get_cached_func_lem v a in
      let v' = erase_jit-IsCoherent (refill_func-IsCoherent v backed) a in
      let gone = find-erase_self a c.jit_cache in
      rw (e, absent)
        (Ensures-mono (IsEvicted addr_of a _) (Extends addr_of c) _
          (λ c' r. record {
            coherent = r.coherent;
            keeps_func = λ x f h. rw (r.funcs, erase_absent a c.func_cache absent) h;
            stays_silent = λ x h. rw (r.jit_dc_kept) (ground (arith, get-put c.jit_dc a x none));
          })
          (evict-IsEvicted addr_of a v' gone))

  -- A run of `VexJITCache::evict` that returns has taken no function away.
  pub evict-Extends : Ensures (Extends addr_of c) (Jit.evict c a)
  evict-Extends = elim (Option-cases (find a c.func_cache)) [
    | inl absent ↦ evict_uncompiled absent
    | inr (f, there) ↦ rw (evict_compiled f there) tt
  ]
