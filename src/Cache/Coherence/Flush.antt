-- ===== src/Cache/Coherence/Flush.antt =====
-- src/vexfcache.cc, src/vexjitcache.cc: flushing all, or the addresses of a range.
use vexllvm.Base.{
  ℕ, ◌≡◌, refl, none, some, List, [], ◌∷◌, arith, if◌then◌else◌, true, false, ◌&&◌, ◌||◌, ltb, leb,
  member, Bool-cases, inl, inr, Ensures, Ensures-bind, Option-cases,
}
use vexllvm.Base.Maps.{Map, find, erase, find-erase}
use vexllvm.DirectCache
use vexllvm.DirectCache.{DirectCache, IsBacked}
use vexllvm.Cache.State.{Cache, in_range, crosses, destroy}
use vexllvm.Cache.Evict.{delete_vsbs, delete_funcs, destroy_range, flush, flush_range}
use vexllvm.Cache.Jit
use vexllvm.Cache.Jit.{delete_fptrs}
use vexllvm.Cache.Coherence.Backed.{IsBacked-erase, IsBacked-flush}
use vexllvm.Cache.Coherence.Entries.{IsCoherent}

-- What the loops over the addresses do to a map and to its direct cache.
abbrev erase_all : List ℕ → Map ℕ → Map ℕ
erase_all [] m = m
erase_all (a ∷ l) m = erase_all l (erase a m)

abbrev forget_all : List ℕ → DirectCache ℕ → DirectCache ℕ
forget_all [] d = d
forget_all (a ∷ l) d = forget_all l (DirectCache.put d a none)

delete_vsbs_lem :
    (l : List ℕ) (c : Cache)
    → delete_vsbs l c
      ≡ record c { vexsb_dc = forget_all l c.vexsb_dc; vexsb_cache = erase_all l c.vexsb_cache }
unfolding delete_vsbs
delete_vsbs_lem [] c = refl
delete_vsbs_lem (a ∷ l) c = delete_vsbs_lem l _

delete_funcs_lem :
    (l : List ℕ) (c : Cache)
    → delete_funcs l c
      ≡ record c { func_dc = forget_all l c.func_dc; func_cache = erase_all l c.func_cache }
unfolding delete_funcs
delete_funcs_lem [] c = refl
delete_funcs_lem (a ∷ l) c = delete_funcs_lem l _

delete_fptrs_lem :
    (l : List ℕ) (c : Cache)
    → delete_fptrs l c
      ≡ record c { jit_dc = forget_all l c.jit_dc; jit_cache = erase_all l c.jit_cache }
unfolding delete_fptrs
delete_fptrs_lem [] c = refl
delete_fptrs_lem (a ∷ l) c = delete_fptrs_lem l _

IsBacked-forget :
    (l : List ℕ) (d : DirectCache ℕ) (m : Map ℕ)
    → IsBacked d m
    → IsBacked (forget_all l d) (erase_all l m)
IsBacked-forget [] d m h = h
IsBacked-forget (a ∷ l) d m h = IsBacked-forget l _ _ (IsBacked-erase d m h a)

find-erase_all :
    (l : List ℕ) (x : ℕ) (m : Map ℕ)
    → find x (erase_all l m) ≡ (if member x l then none else find x m)
find-erase_all [] x m = refl
find-erase_all (a ∷ l) x m = ground (arith, find-erase_all l x (erase a m), find-erase a x m)

-- The range holds exactly the keys between its ends.
member-in_range :
    (begin end x : ℕ) (m : Map ℕ)
    → member x (in_range begin end m) ≡ (
        if leb begin x && leb x end
        then (elim (find x m) [ none ↦ false | some _ ↦ true ])
        else false)
unfolding in_range find
member-in_range begin end x [] = ground arith
member-in_range begin end x ((k, u) ∷ m) = ground (arith, member-in_range begin end x m)

-- A range that is taken out of a map.
find-erase_range :
    (begin end x : ℕ) (m : Map ℕ)
    → find x (erase_all (in_range begin end m) m)
      ≡ (if leb begin x && leb x end then none else find x m)
find-erase_range begin end x m =
    ground (arith, find-erase_all (in_range begin end m) x m, member-in_range begin end x m)

-- Destroying functions changes no map.
abbrev Destroys : Cache → Cache → Type 0
Destroys c c' = (fs : List ℕ) × (c' ≡ record c { destroyed = fs })

destroy_range-Destroys :
    (begin end : ℕ) (m : List (ℕ × ℕ)) (c : Cache)
    → Ensures (Destroys c) (destroy_range begin end m c)
unfolding destroy_range destroy
destroy_range-Destroys begin end [] c = (c.destroyed, refl)
destroy_range-Destroys begin end ((a, f) ∷ m) c = elim (Bool-cases (ltb a begin || ltb end a)) [
  | inl outside ↦ rw outside (destroy_range-Destroys begin end m c)
  | inr inside ↦ elim (Bool-cases (member f c.destroyed)) [
    | inl dead ↦ rw (inside, dead) tt
    | inr alive ↦
        rw (inside, alive)
          (destroy_range-Destroys begin end m (record c { destroyed = f ∷ c.destroyed }))
  ]
]

-- Coherent caches that know nothing of the addresses from `begin` to `end`, and all else.
pub record IsFlushed (addr_of : ℕ → ℕ) (begin end : ℕ) (c c' : Cache) : Type 0 where
  pub coherent : IsCoherent addr_of c'
  pub vsbs :
      (x : ℕ)
      → find x c'.vexsb_cache ≡ (if leb begin x && leb x end then none else find x c.vexsb_cache)
  pub funcs :
      (x : ℕ)
      → find x c'.func_cache ≡ (if leb begin x && leb x end then none else find x c.func_cache)
  pub jits :
      (x : ℕ)
      → find x c'.jit_cache ≡ (if leb begin x && leb x end then none else find x c.jit_cache)

module _ (addr_of : ℕ → ℕ) (begin end : ℕ) {c : Cache} (v : IsCoherent addr_of c) where
  -- Compiled code has a function, so the range of the functions covers it.
  find-erase_jits :
      (x : ℕ)
      → find x (erase_all (in_range begin end c.func_cache) c.jit_cache)
        ≡ (if leb begin x && leb x end then none else find x c.jit_cache)
  find-erase_jits x = elim (Option-cases (find x c.jit_cache)) [
    | inl absent ↦ ground (arith, find-erase_all (in_range begin end c.func_cache) x c.jit_cache)
    | inr (p, there) ↦
        let (f, e) = v.jit_has_func x p there in
        ground (
          arith,
          find-erase_all (in_range begin end c.func_cache) x c.jit_cache,
          member-in_range begin end x c.func_cache,
        )
  ]

  -- All three maps and their direct caches without the range.
  flushed : List ℕ → Cache
  flushed fs =
      let vs = in_range begin end c.vexsb_cache in
      let l = in_range begin end c.func_cache in
      record c {
        vexsb_cache = erase_all vs c.vexsb_cache;
        vexsb_dc = forget_all vs c.vexsb_dc;
        func_cache = erase_all l c.func_cache;
        func_dc = forget_all l c.func_dc;
        jit_cache = erase_all l c.jit_cache;
        jit_dc = forget_all l c.jit_dc;
        destroyed = fs;
      }

  flushed-IsFlushed : (fs : List ℕ) → IsFlushed addr_of begin end c (flushed fs)
  unfolding flushed
  flushed-IsFlushed fs =
      let vsb = λ (x : ℕ). find-erase_range begin end x c.vexsb_cache in
      let fun = λ (x : ℕ). find-erase_range begin end x c.func_cache in
      record {
        coherent = record {
          vexsb_backed = IsBacked-forget (in_range begin end c.vexsb_cache) _ _ v.vexsb_backed;
          func_backed = IsBacked-forget (in_range begin end c.func_cache) _ _ v.func_backed;
          jit_backed = IsBacked-forget (in_range begin end c.func_cache) _ _ v.jit_backed;
          addressed = λ a s h. v.addressed a s (ground (arith, vsb a));
          func_has_vsb = λ a f h.
              let (s, e) = v.func_has_vsb a f (ground (arith, fun a)) in
              (s, ground (arith, fun a, vsb a));
          jit_has_func = λ a p h.
              let (f, e) = v.jit_has_func a p (ground (arith, find-erase_jits a)) in
              (f, ground (arith, fun a, find-erase_jits a));
        };
        vsbs = vsb;
        funcs = fun;
        jits = find-erase_jits;
      }

  -- The functions of a cache from which the range was destroyed are then taken out.
  delete_funcs-IsFlushed :
      (c' : Cache)
      → Destroys
          (record (flushed c.destroyed) { func_cache = c.func_cache; func_dc = c.func_dc })
          c'
      → IsFlushed addr_of begin end c (delete_funcs (in_range begin end c'.func_cache) c')
  unfolding flushed
  delete_funcs-IsFlushed c' (fs, e) =
      rw (e, delete_funcs_lem (in_range begin end c.func_cache)) (flushed-IsFlushed fs)

  -- With coherent caches, a flush of the addresses from begin to end that returns leaves the
  -- caches coherent, with no superblock, function or code at those addresses, and with those at
  -- all other addresses.
  pub flush_range-IsFlushed : Ensures (IsFlushed addr_of begin end c) (Jit.flush_range begin end c)
  unfolding Jit.flush_range flush_range flushed
  flush_range-IsFlushed = elim (Bool-cases (crosses begin end c.func_cache)) [
    | inl wrong ↦ rw wrong tt
    | inr right ↦
        rw (right, delete_fptrs_lem (in_range begin end c.func_cache) c, delete_vsbs_lem)
          (elim (Bool-cases (crosses begin end c.vexsb_cache)) [
            | inl wrong ↦ rw wrong tt
            | inr right' ↦
                rw (right', right)
                  (Ensures-bind
                    (Destroys (record (flushed c.destroyed) {
                      func_cache = c.func_cache;
                      func_dc = c.func_dc;
                    }))
                    (IsFlushed addr_of begin end c) _ _
                    (destroy_range-Destroys begin end c.func_cache _) delete_funcs-IsFlushed)
          ])
  ]

-- VexJITCache::flush leaves coherent caches with no superblock, function or code at any
-- address.
pub flush-IsCoherent :
    (addr_of : ℕ → ℕ) (c : Cache)
    → IsCoherent addr_of (Jit.flush c)
      × ((x : ℕ)
          → (find x (Jit.flush c).vexsb_cache ≡ none)
            × (find x (Jit.flush c).func_cache ≡ none)
            × (find x (Jit.flush c).jit_cache ≡ none))
unfolding Jit.flush flush find
flush-IsCoherent addr_of c = (
  record {
    vexsb_backed = IsBacked-flush [];
    func_backed = IsBacked-flush [];
    jit_backed = IsBacked-flush [];
    addressed = λ a s h. cc;
    func_has_vsb = λ a f h. absurd (ground arith);
    jit_has_func = λ a p h. absurd (ground arith);
  },
  λ x. (refl, refl, refl),
)
