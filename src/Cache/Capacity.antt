-- ===== src/Cache/Capacity.antt =====
-- src/vexfcache.cc: how many superblocks the cache holds.
use vexllvm.Base.{
  ℕ, suc, ◌≤◌, ◌<◌, ◌≡◌, refl, some, [], ◌∷◌, arith, ◌==◌, ltb, true, false, Bool-cases,
  Option-cases, inl, inr, length, Result, ok,
}
use vexllvm.Base.Maps.{Map, find, insert}
use vexllvm.DirectCache
use vexllvm.DirectCache.{DirectCache}
use vexllvm.Cache.State.{Cache, Backend}
use vexllvm.Cache.Evict
use vexllvm.Cache.Evict.{set_max_cache, select_victim_address}
use vexllvm.Cache.Fetch.{make_room, file_vsb, alloc_cache_vsb, vsb_or_alloc, get_vsb}
use vexllvm.Cache.Jit
use vexllvm.Cache.Coherence.Entries.{IsCoherent, get_cached_vsb_lem}

-- No more superblocks than `max_cache_ents`.
abbrev pub IsWithin : Cache → Type 0
IsWithin c = length c.vexsb_cache ≤ c.max_cache_ents

pub length-insert : (k v : ℕ) (m : Map ℕ) → length (insert k v m) ≤ suc (length m)
unfolding insert
length-insert k v [] = omega arith
length-insert k v ((j, w) ∷ m) = ground (arith, length-insert k v m)

-- With no more superblocks than max_cache_ents, setMaxCache leaves no more of them than the new
-- bound.
pub set_max_cache-IsWithin :
    (x : ℕ) (c : Cache) → IsWithin c → IsWithin (set_max_cache Jit.flush x c)
unfolding set_max_cache Jit.flush Evict.flush
set_max_cache-IsWithin x c h = elim (Bool-cases (ltb x c.max_cache_ents)) [
  | inl sinks ↦ rw sinks (omega arith)
  | inr rises ↦ rw rises (ground arith)
]

module _ (addr_of : ℕ → ℕ) (b : Backend) (evict : Cache → ℕ → Result Cache) {c : Cache}
    (v : IsCoherent addr_of c) where
  alloc_returns :
      (h a s : ℕ) (c' : Cache)
      → length c'.vexsb_cache < c'.max_cache_ents
      → b.xlate h a ≡ some s
      → (d : Cache) × (alloc_cache_vsb addr_of b evict h a c' ≡ ok (d, some s))
        × (d.rand_calls ≡ c'.rand_calls)
  unfolding alloc_cache_vsb make_room file_vsb
  alloc_returns h a s c' roomy made =
      let apart : (length c'.vexsb_cache == c'.max_cache_ents) ≡ false = ground arith in
      let less : ltb (length c'.vexsb_cache) c'.max_cache_ents ≡ true = ground arith in
      (
        record c' {
          vexsb_cache = insert a s c'.vexsb_cache;
          vexsb_dc = DirectCache.put c'.vexsb_dc a (some s);
        },
        rw (made, alloc_cache_vsb) (simp (apart, less) refl),
        refl,
      )

  -- With coherent caches of fewer superblocks than max_cache_ents, getVSB at an address that is
  -- translated returns a superblock and stops the process in no way, without a call of rand for
  -- a victim.
  pub get_vsb_returns :
      (h a s : ℕ)
      → length c.vexsb_cache < c.max_cache_ents
      → b.xlate h a ≡ some s
      → (d : Cache) × (t : ℕ) × (get_vsb addr_of b evict h a c ≡ ok (d, some t))
        × (d.rand_calls ≡ c.rand_calls)
  unfolding get_vsb vsb_or_alloc
  get_vsb_returns h a s roomy made =
      let (d, e, backed) = get_cached_vsb_lem v a in
      let c' : Cache = record c { vexsb_dc = d } in
      elim (Option-cases (find a c.vexsb_cache)) [
        | inr (t, there) ↦ (c', t, rw (e, there) refl, refl)
        | inl absent ↦
            let (r, same, kept) = alloc_returns h a s c' roomy made in
            (r, s, rw (e, absent) same, kept)
      ]
