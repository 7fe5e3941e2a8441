-- ===== src/Cache/Coherence/Fetch.antt =====
-- src/vexfcache.cc under src/vexjitcache.cc: a fetch of a superblock or of a function.
use vexllvm.Base.{
  ℕ, ◌≡◌, Option, none, some, arith, ◌==◌, Bool-cases, Option-cases, inl, inr, Ensures,
  Ensures-bind, length, ltb, Ensures-mono, Ensures-trivial,
}
use vexllvm.Base.Maps.{Map, find, find-insert}
use vexllvm.Cache.State.{Cache, Backend}
use vexllvm.Cache.Evict.{select_victim_address}
use vexllvm.Cache.Fetch.{
  make_room, alloc_cache_vsb, file_vsb, vsb_or_alloc, get_vsb, gen_function_by_vsb, gen_func,
  func_or_gen, get_func,
}
use vexllvm.Cache.Jit
use vexllvm.Cache.Coherence.Entries.{IsCoherent, get_cached_vsb_lem, get_cached_func_lem}
use vexllvm.Cache.Coherence.Jit.{Extends, Extends-refl, Extends-trans, evict-Extends}
use vexllvm.Cache.Coherence.Steps.{
  refill_vsb-IsCoherent, refill_func-IsCoherent, ghost-IsCoherent, insert_vsb-IsCoherent,
  insert_func-IsCoherent,
}

-- A translation carries the guest address that was asked for.
abbrev pub IsAddressed : (ℕ → ℕ) → Backend → Type 0
IsAddressed addr_of b = (h a s : ℕ) → b.xlate h a ≡ some s → addr_of s ≡ a

-- What was fetched for an address, if anything, is what the map holds there.
abbrev pub IsHeld : ℕ → Map ℕ → Option ℕ → Type 0
IsHeld a m none = Unit
IsHeld a m (some s) = find a m ≡ some s

abbrev pub HasVsb : (ℕ → ℕ) → ℕ → Cache → Cache × Option ℕ → Type 0
HasVsb addr_of a c r = Extends addr_of c r.0 × IsHeld a r.0.vexsb_cache r.1

abbrev pub HasFunc : (ℕ → ℕ) → ℕ → Cache → Cache × Option ℕ → Type 0
HasFunc addr_of a c r = Extends addr_of c r.0 × IsHeld a r.0.func_cache r.1

module _ (addr_of : ℕ → ℕ) (b : Backend) (addressed : IsAddressed addr_of b) where
  make_room-Extends :
      {c : Cache}
      → IsCoherent addr_of c
      → Ensures (Extends addr_of c) (make_room addr_of b Jit.evict c)
  unfolding make_room
  make_room-Extends {c} v = elim (Bool-cases (length c.vexsb_cache == c.max_cache_ents)) [
    | inr roomy ↦ rw roomy (Extends-refl v)
    | inl full ↦ rw full (
        Ensures-bind (λ _. Unit {0}) (Extends addr_of c) (select_victim_address addr_of b c) _
          (Ensures-trivial _)
          λ victim _.
            Ensures-mono (Extends addr_of _) (Extends addr_of c) _
              (λ c' x. record {
                coherent = x.coherent;
                keeps_func = x.keeps_func;
                stays_silent = x.stays_silent;
              })
              (evict-Extends addr_of (ghost-IsCoherent v {fs = c.destroyed}) victim))
  ]

  file_vsb-HasVsb :
      {c : Cache} (a s : ℕ)
      → IsCoherent addr_of c
      → addr_of s ≡ a
      → Ensures (HasVsb addr_of a c) (file_vsb addr_of b Jit.evict a s c)
  unfolding file_vsb
  file_vsb-HasVsb {c} a s v e = elim (Bool-cases (ltb (length c.vexsb_cache) c.max_cache_ents)) [
    | inr full ↦ rw full tt
    | inl roomy ↦ rw roomy (
      record {
        coherent = insert_vsb-IsCoherent v a s e;
        keeps_func = λ y f k. k;
        stays_silent = λ y k. k;
      },
      ground (arith, find-insert a a s c.vexsb_cache),
    )
  ]

  alloc_cache_vsb-HasVsb :
      {c : Cache} (h a : ℕ)
      → IsCoherent addr_of c
      → Ensures (HasVsb addr_of a c) (alloc_cache_vsb addr_of b Jit.evict h a c)
  unfolding alloc_cache_vsb
  alloc_cache_vsb-HasVsb {c} h a v = elim (Option-cases (b.xlate h a)) [
    | inl failed ↦ rw (failed, alloc_cache_vsb) (Extends-refl v, tt)
    | inr (s, e) ↦
        rw (e, alloc_cache_vsb)
          (Ensures-bind (Extends addr_of c) (HasVsb addr_of a c) (make_room addr_of b Jit.evict c) _
            (make_room-Extends v)
            λ c' x.
              Ensures-mono (HasVsb addr_of a c') (HasVsb addr_of a c) _
                (λ r y. (Extends-trans x y.0, y.1))
                (file_vsb-HasVsb a s x.coherent (addressed h a s e)))
  ]

  pub get_vsb-HasVsb :
      {c : Cache} (h a : ℕ)
      → IsCoherent addr_of c
      → Ensures (HasVsb addr_of a c) (get_vsb addr_of b Jit.evict h a c)
  unfolding get_vsb vsb_or_alloc
  get_vsb-HasVsb {c} h a v =
      let (d, e, backed) = get_cached_vsb_lem v a in
      let v' = refill_vsb-IsCoherent v backed in
      let x : Extends addr_of c (record c { vexsb_dc = d }) = record {
        coherent = v';
        keeps_func = λ y f k. k;
        stays_silent = λ y k. k;
      } in
      elim (Option-cases (find a c.vexsb_cache)) [
        | inr (s, there) ↦ rw (e, there) (x, there)
        | inl absent ↦
            rw (e, absent)
              (Ensures-mono (HasVsb addr_of a (record c { vexsb_dc = d })) (HasVsb addr_of a c) _
                (λ r y. (Extends-trans x y.0, y.1)) (alloc_cache_vsb-HasVsb h a v'))
      ]

  gen_func-HasFunc :
      {c : Cache} (a : ℕ) (r : Cache × Option ℕ)
      → HasVsb addr_of a c r
      → find a c.func_cache ≡ none
      → HasFunc addr_of a c (gen_func addr_of b Jit.evict r)
  unfolding gen_func gen_function_by_vsb
  gen_func-HasFunc a (c', none) (x, has) absent = (x, tt)
  gen_func-HasFunc a (c', some s) (x, has) absent = rw (x.coherent.addressed a s has) (
    record {
      coherent = insert_func-IsCoherent x.coherent a (b.emit s) s has;
      keeps_func =
          λ y f k. ground (arith, find-insert a y (b.emit s) c'.func_cache, x.keeps_func y f k);
      stays_silent = x.stays_silent;
    },
    ground (arith, find-insert a a (b.emit s) c'.func_cache),
  )

  -- With coherent caches, and a translator that gives a superblock the address that was asked
  -- for, a call of getFunc that returns leaves the caches coherent with every function that
  -- they had, and a function that it returned is the one that the map holds at the address.
  pub get_func-HasFunc :
      {c : Cache} (h a : ℕ)
      → IsCoherent addr_of c
      → Ensures (HasFunc addr_of a c) (get_func addr_of b Jit.evict h a c)
  unfolding get_func func_or_gen
  get_func-HasFunc {c} h a v =
      let (d, e, backed) = get_cached_func_lem v a in
      let v' = refill_func-IsCoherent v backed in
      let x : Extends addr_of c (record c { func_dc = d }) = record {
        coherent = v';
        keeps_func = λ y f k. k;
        stays_silent = λ y k. k;
      } in
      elim (Option-cases (find a c.func_cache)) [
        | inr (f, there) ↦ rw (e, there) (x, there)
        | inl absent ↦
            rw (e, absent)
              (Ensures-bind (HasVsb addr_of a (record c { func_dc = d })) (HasFunc addr_of a c) _ _
                (get_vsb-HasVsb h a v')
                λ r y.
                  let z = gen_func-HasFunc {c = record c { func_dc = d }} a r y absent in
                  (Extends-trans x z.0, z.1))
      ]
