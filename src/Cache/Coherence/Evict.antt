-- ===== src/Cache/Coherence/Evict.antt =====
-- Eviction keeps the caches coherent, with and without compiled code.
use vexllvm.Base.{
  ℕ, ◌≡◌, refl, sym, ap, ◌∙◌, none, some, List, ◌∷◌, arith, true, Bool-cases, Option-cases, inl,
  inr, fault, Fault, Ensures, Ensures-bind, member,
}
use vexllvm.Base.Maps.{find, erase, find-erase}
use vexllvm.Cache.State.{Cache, destroy}
use vexllvm.Cache.Lookup.{get_cached_vsb, get_cached_func}
use vexllvm.Cache.Evict.{drop_func, drop_vsb, evict}
use vexllvm.Cache.Coherence.Entries.{IsCoherent, get_cached_vsb_lem, get_cached_func_lem}
use vexllvm.Cache.Coherence.Steps.{
  refill_vsb-IsCoherent, refill_func-IsCoherent, ghost-IsCoherent, erase_func-IsCoherent,
  erase_vsb-IsCoherent,
}

-- What is left after an eviction of `a`: coherent caches, with nothing about `a`, and all else.
pub record IsEvicted (addr_of : ℕ → ℕ) (a : ℕ) (c c' : Cache) : Type 0 where
  pub coherent : IsCoherent addr_of c'
  pub vsbs : c'.vexsb_cache ≡ erase a c.vexsb_cache
  pub funcs : c'.func_cache ≡ erase a c.func_cache
  pub jits : c'.jit_cache ≡ c.jit_cache
  pub jit_dc_kept : c'.jit_dc ≡ c.jit_dc
  pub max_kept : c'.max_cache_ents ≡ c.max_cache_ents

pub erase_absent : (a : ℕ) (m : List (ℕ × ℕ)) → find a m ≡ none → erase a m ≡ m
unfolding find erase
erase_absent a List.[] h = refl
erase_absent a ((k, u) ∷ m) h = ground (arith, erase_absent a m)

pub find-erase_self : (a : ℕ) (m : List (ℕ × ℕ)) → find a (erase a m) ≡ none
find-erase_self a m = ground (arith, find-erase a a m)

module _ (addr_of : ℕ → ℕ) (a : ℕ) where
  drop_vsb-IsEvicted :
      {c : Cache}
      → IsCoherent addr_of c
      → find a c.func_cache ≡ none
      → IsEvicted addr_of a c (drop_vsb a (get_cached_vsb c a))
  unfolding drop_vsb
  drop_vsb-IsEvicted {c} v absent =
      let (d, e, backed) = get_cached_vsb_lem v a in
      let v' = refill_vsb-IsCoherent v backed in
      elim (Option-cases (find a c.vexsb_cache)) [
        | inl gone ↦
            rw (e, gone)
              (record {
                coherent = v';
                vsbs = sym (erase_absent a c.vexsb_cache gone);
                funcs = sym (erase_absent a c.func_cache absent);
                jits = refl;
                jit_dc_kept = refl;
                max_kept = refl;
              })
        | inr (s, there) ↦
            rw (e, there)
              (record {
                coherent = erase_vsb-IsCoherent v' a absent;
                vsbs = refl;
                funcs = sym (erase_absent a c.func_cache absent);
                jits = refl;
                jit_dc_kept = refl;
                max_kept = refl;
              })
      ]

  -- What the first half of `evict` leaves.
  abbrev HasNoFunc : Cache → Cache → Type 0
  HasNoFunc c c' =
      IsCoherent addr_of c'
      × (find a c'.func_cache ≡ none)
      × (c'.vexsb_cache ≡ c.vexsb_cache)
      × (c'.func_cache ≡ erase a c.func_cache)
      × (c'.jit_cache ≡ c.jit_cache)
      × (c'.jit_dc ≡ c.jit_dc)
      × (c'.max_cache_ents ≡ c.max_cache_ents)

  drop_func_lem :
      {c : Cache}
      → IsCoherent addr_of c
      → find a c.jit_cache ≡ none
      → Ensures (HasNoFunc c) (drop_func a (get_cached_func c a))
  unfolding drop_func destroy
  drop_func_lem {c} v unjitted =
      let (d, e, backed) = get_cached_func_lem v a in
      let v' = refill_func-IsCoherent v backed in
      elim (Option-cases (find a c.func_cache)) [
        | inl gone ↦
            rw (e, gone) (v', gone, refl, sym (erase_absent a c.func_cache gone), refl, refl, refl)
        | inr (f, there) ↦ elim (Bool-cases (member f c.destroyed)) [
          | inl dead ↦ rw (e, there, dead) tt
          | inr alive ↦
              rw (e, there, alive)
                (
                  ghost-IsCoherent (erase_func-IsCoherent v' a unjitted),
                  find-erase_self a c.func_cache,
                  refl,
                  refl,
                  refl,
                  refl,
                  refl,
                )
        ]
      ]

  -- With coherent caches and no compiled code at the address, a VexFCache::evict that returns
  -- leaves the caches coherent and the maps of superblocks and functions without the address
  -- and otherwise unchanged, and changes neither the compiled code nor the bound.
  pub evict-IsEvicted :
      {c : Cache}
      → IsCoherent addr_of c
      → find a c.jit_cache ≡ none
      → Ensures (IsEvicted addr_of a c) (evict c a)
  unfolding evict
  evict-IsEvicted {c} v unjitted =
      Ensures-bind (HasNoFunc c) (IsEvicted addr_of a c) (drop_func a (get_cached_func c a)) _
        (drop_func_lem v unjitted)
        λ c' (v', absent, vs, fs, js, jd, mx).
          let r = drop_vsb-IsEvicted v' absent in
          record {
            coherent = r.coherent;
            vsbs = r.vsbs ∙ ap (erase a) vs;
            funcs = r.funcs ∙ (erase_absent a c'.func_cache absent ∙ fs);
            jits = r.jits ∙ js;
            jit_dc_kept = r.jit_dc_kept ∙ jd;
            max_kept = r.max_kept ∙ mx;
          }

  -- A function that was destroyed before is destroyed once more.
  pub evict_destroyed :
      {c : Cache}
      → IsCoherent addr_of c
      → (f : ℕ) → find a c.func_cache ≡ some f
      → member f c.destroyed ≡ true
      → evict c a ≡ fault Fault.use_after_free
  unfolding evict drop_func destroy
  evict_destroyed v f there dead =
      let (d, e, backed) = get_cached_func_lem v a in rw (e, there, dead) refl
