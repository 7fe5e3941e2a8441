-- ===== src/Cache/Coherence/Entries.antt =====
-- The invariant of the caches, and what lookups do to it.
use vexllvm.Base.{ℕ, ◌≡◌, some, [], arith, Option-cases, inl, inr}
use vexllvm.Base.Maps.{find}
use vexllvm.DirectCache
use vexllvm.DirectCache.{DirectCache, IsBacked}
use vexllvm.Cache.State.{Cache, start}
use vexllvm.Cache.Lookup.{get_cached_vsb, get_cached_func, get_cached_fptr}
use vexllvm.Cache.Coherence.Backed.{IsBacked-put, IsBacked-flush}

-- Each direct cache answers from its map only, a superblock is filed under its own address, a
-- function has its superblock, and compiled code has its function.
pub record IsCoherent (addr_of : ℕ → ℕ) (c : Cache) : Type 0 where
  pub vexsb_backed : IsBacked c.vexsb_dc c.vexsb_cache
  pub func_backed : IsBacked c.func_dc c.func_cache
  pub jit_backed : IsBacked c.jit_dc c.jit_cache
  pub addressed : (a s : ℕ) → find a c.vexsb_cache ≡ some s → addr_of s ≡ a
  pub func_has_vsb :
      (a f : ℕ) → find a c.func_cache ≡ some f → (s : ℕ) × (find a c.vexsb_cache ≡ some s)
  pub jit_has_func :
      (a p : ℕ) → find a c.jit_cache ≡ some p → (f : ℕ) × (find a c.func_cache ≡ some f)

pub start-IsCoherent : (addr_of : ℕ → ℕ) → IsCoherent addr_of start
unfolding start find
start-IsCoherent addr_of = record {
  vexsb_backed = IsBacked-flush [];
  func_backed = IsBacked-flush [];
  jit_backed = IsBacked-flush [];
  addressed = λ a s h. ground arith;
  func_has_vsb = λ a f h. ground arith;
  jit_has_func = λ a f h. ground arith;
}

module _ {addr_of : ℕ → ℕ} {c : Cache} (v : IsCoherent addr_of c) (a : ℕ) where
  -- A lookup finds what the map holds, and at most refills the direct cache.
  pub get_cached_vsb_lem :
      (d : DirectCache ℕ) × (get_cached_vsb c a ≡ (record c { vexsb_dc = d }, find a c.vexsb_cache))
      × IsBacked d c.vexsb_cache
  unfolding get_cached_vsb
  get_cached_vsb_lem = elim (Option-cases (DirectCache.get c.vexsb_dc a)) [
    | inr (t, hit) ↦ (c.vexsb_dc, ground (arith, v.vexsb_backed a t hit), v.vexsb_backed)
    | inl miss ↦ elim (Option-cases (find a c.vexsb_cache)) [
      | inl absent ↦ (c.vexsb_dc, ground arith, v.vexsb_backed)
      | inr (s, found) ↦ (
        DirectCache.put c.vexsb_dc a (some s),
        ground arith,
        IsBacked-put c.vexsb_dc c.vexsb_cache v.vexsb_backed a s found,
      )
    ]
  ]

  pub get_cached_func_lem :
      (d : DirectCache ℕ) × (get_cached_func c a ≡ (record c { func_dc = d }, find a c.func_cache))
      × IsBacked d c.func_cache
  unfolding get_cached_func
  get_cached_func_lem = elim (Option-cases (DirectCache.get c.func_dc a)) [
    | inr (t, hit) ↦ (c.func_dc, ground (arith, v.func_backed a t hit), v.func_backed)
    | inl miss ↦ elim (Option-cases (find a c.func_cache)) [
      | inl absent ↦ (c.func_dc, ground arith, v.func_backed)
      | inr (s, found) ↦ (
        DirectCache.put c.func_dc a (some s),
        ground arith,
        IsBacked-put c.func_dc c.func_cache v.func_backed a s found,
      )
    ]
  ]

  pub get_cached_fptr_lem :
      (d : DirectCache ℕ) × (get_cached_fptr c a ≡ (record c { jit_dc = d }, find a c.jit_cache))
      × IsBacked d c.jit_cache
  unfolding get_cached_fptr
  get_cached_fptr_lem = elim (Option-cases (DirectCache.get c.jit_dc a)) [
    | inr (t, hit) ↦ (c.jit_dc, ground (arith, v.jit_backed a t hit), v.jit_backed)
    | inl miss ↦ elim (Option-cases (find a c.jit_cache)) [
      | inl absent ↦ (c.jit_dc, ground arith, v.jit_backed)
      | inr (s, found) ↦ (
        DirectCache.put c.jit_dc a (some s),
        ground arith,
        IsBacked-put c.jit_dc c.jit_cache v.jit_backed a s found,
      )
    ]
  ]
