-- ===== src/Cache/Room.antt =====
-- src/vexfcache.cc: a full cache makes room for the superblock that is fetched.
use vexllvm.Base.{
  ℕ, zero, suc, ◌+◌, ◌%◌, ◌<◌, ◌≤◌, ◌≡◌, ◌≢◌, refl, arith, All, [], ◌∷◌, none, some, ◌==◌, ltb,
  true, false, Bool-cases, Option-cases, inl, inr, length, get_elem?, member, ok, Ensures-ok,
}
use vexllvm.Base.Maps.{Map, find, erase, insert}
use vexllvm.DirectCache
use vexllvm.Cache.State.{Cache, Backend, destroy}
use vexllvm.Cache.Evict.{select_victim_address, evict, drop_func, drop_vsb}
use vexllvm.Cache.Lookup.{get_cached_vsb}
use vexllvm.Cache.Fetch.{make_room, file_vsb, alloc_cache_vsb, vsb_or_alloc, get_vsb}
use vexllvm.Cache.Capacity.{IsWithin, length-insert}
use vexllvm.Cache.Coherence.Entries.{IsCoherent, get_cached_vsb_lem, get_cached_func_lem}
use vexllvm.Cache.Coherence.Evict.{IsEvicted, evict-IsEvicted}
use vexllvm.Cache.Coherence.Steps.{refill_vsb-IsCoherent, ghost-IsCoherent}
use native.Mathlib.Nat.{mod-lt}

-- Each superblock is filed under its own address, which is not 0.
abbrev pub IsFiled : (ℕ → ℕ) → Map ℕ → Type 0
IsFiled addr_of m = All (λ ((a, s) : ℕ × ℕ). (addr_of s ≡ a) × (a ≢ 0)) m

length-erase : (k : ℕ) (m : Map ℕ) → length (erase k m) ≤ length m
unfolding erase
length-erase k [] = omega arith
length-erase k ((j, s) ∷ m) = ground (arith, length-erase k m)

-- An entry that is there, and that its removal makes room.
entry_lem :
    (addr_of : ℕ → ℕ) (m : Map ℕ) (i : ℕ)
    → IsFiled addr_of m
    → i < length m
    → (a : ℕ) × (s : ℕ) × (get_elem? m i ≡ some (a, s))
      × (addr_of s ≡ a)
      × (a ≢ 0)
      × (length (erase a m) < length m)
unfolding erase
entry_lem addr_of [] i h l = absurd (omega arith)
entry_lem addr_of ((a, s) ∷ m) zero (here, rest) l =
    let smaller = length-erase a m in (a, s, refl, here.0, here.1, ground arith)
entry_lem addr_of ((j, t) ∷ m) (suc i) (here, rest) l =
    let (a, s, found, filed, nonzero, smaller) = entry_lem addr_of m i rest (omega arith) in
    (a, s, found, filed, nonzero, ground arith)

module _ (addr_of : ℕ → ℕ) (b : Backend) where
  victim_lem :
      (c : Cache)
      → IsFiled addr_of c.vexsb_cache
      → 0 < length c.vexsb_cache
      → (a : ℕ) × (select_victim_address addr_of b c ≡ ok a)
        × (length (erase a c.vexsb_cache) < length c.vexsb_cache)
  unfolding select_victim_address
  victim_lem c filed positive =
      let size = length c.vexsb_cache in
      let occupied : (size == 0) ≡ false = ground arith in
      let (a, s, found, own, nonzero, smaller) =
        entry_lem addr_of c.vexsb_cache (b.rand c.rand_calls % size) filed (mod-lt _ positive) in
      let apart : (a == 0) ≡ false = ground arith in
      (a, rw (occupied, found, own, apart) refl, smaller)

  evict_returns :
      {c : Cache} (a : ℕ)
      → IsCoherent addr_of c
      → ((k f : ℕ) → find k c.func_cache ≡ some f → member f c.destroyed ≡ false)
      → (c' : Cache) × (evict c a ≡ ok c')
  unfolding evict drop_func destroy
  evict_returns {c} a v alive =
      let (d, e, backed) = get_cached_func_lem v a in
      elim (Option-cases (find a c.func_cache)) [
        | inl gone ↦ (drop_vsb a (get_cached_vsb (record c { func_dc = d }) a), rw (e, gone) refl)
        | inr (f, there) ↦
            let living = alive a f there in
            let less = record c {
              func_cache = erase a c.func_cache;
              func_dc = DirectCache.put d a none;
              destroyed = f ∷ c.destroyed;
            } in
            (drop_vsb a (get_cached_vsb less a), rw (e, there, living) refl)
      ]

  -- With no compiled code and no destroyed function left in the map, there is room.
  make_room_lem :
      {c : Cache}
      → IsCoherent addr_of c
      → IsFiled addr_of c.vexsb_cache
      → IsWithin c
      → 0 < c.max_cache_ents
      → c.jit_cache ≡ []
      → ((k f : ℕ) → find k c.func_cache ≡ some f → member f c.destroyed ≡ false)
      → (c' : Cache) × (make_room addr_of b evict c ≡ ok c')
        × (length c'.vexsb_cache < c'.max_cache_ents)
        × (c'.max_cache_ents ≡ c.max_cache_ents)
  unfolding make_room
  make_room_lem {c} v filed within positive unjitted alive =
      elim (Bool-cases (length c.vexsb_cache == c.max_cache_ents)) [
        | inr roomy ↦ (c, rw roomy refl, ground arith, refl)
        | inl full ↦
            let (a, chosen, smaller) = victim_lem c filed (ground arith) in
            let v' = ghost-IsCoherent v {fs = c.destroyed} {n = c.rand_calls + 1} in
            let (c', evicted) = evict_returns a v' alive in
            let left =
              Ensures-ok (IsEvicted addr_of a (record c { rand_calls = c.rand_calls + 1 })) evicted
                (evict-IsEvicted addr_of a v' (rw unjitted (unfold find in refl))) in
            let fewer : length c'.vexsb_cache < length c.vexsb_cache = rw (left.vsbs) smaller in
            (c', rw (full, chosen, evicted) refl, rw (left.max_kept) (ground arith), left.max_kept)
      ]

  alloc_lem :
      (h a s : ℕ) (c c' : Cache)
      → b.xlate h a ≡ some s
      → make_room addr_of b evict c ≡ ok c'
      → ltb (length c'.vexsb_cache) c'.max_cache_ents ≡ true
      → alloc_cache_vsb addr_of b evict h a c
        ≡ ok (
          record c' {
            vexsb_cache = insert a s c'.vexsb_cache;
            vexsb_dc = DirectCache.put c'.vexsb_dc a (some s);
          },
          some s,
        )
  unfolding alloc_cache_vsb file_vsb
  alloc_lem h a s c c' made made_room less =
      rw (made, alloc_cache_vsb) (simp (made_room, less) refl)

  -- With the eviction of VexFCache, coherent caches of no more superblocks than a positive
  -- max_cache_ents, each superblock filed under its own address, which is not 0, no compiled
  -- code, no destroyed function in the map, and a translator that gives a superblock at the
  -- address: getVSB returns a superblock, and leaves no more superblocks than max_cache_ents.
  pub get_vsb-IsWithin :
      {c : Cache} (h a s : ℕ)
      → IsCoherent addr_of c
      → IsFiled addr_of c.vexsb_cache
      → IsWithin c
      → 0 < c.max_cache_ents
      → c.jit_cache ≡ []
      → ((k f : ℕ) → find k c.func_cache ≡ some f → member f c.destroyed ≡ false)
      → b.xlate h a ≡ some s
      → (c' : Cache) × (t : ℕ) × (get_vsb addr_of b evict h a c ≡ ok (c', some t)) × IsWithin c'
  unfolding get_vsb vsb_or_alloc
  get_vsb-IsWithin {c} h a s v filed within positive unjitted alive made =
      let (d, e, backed) = get_cached_vsb_lem v a in
      elim (Option-cases (find a c.vexsb_cache)) [
        | inr (t, there) ↦ (record c { vexsb_dc = d }, t, rw (e, there) refl, within)
        | inl absent ↦
            let (c', made_room, roomy, same) =
              make_room_lem (refill_vsb-IsCoherent v backed) filed within positive unjitted alive in
            let less : ltb (length c'.vexsb_cache) c'.max_cache_ents ≡ true = ground arith in
            let longer = length-insert a s c'.vexsb_cache in
            (
              record c' {
                vexsb_cache = insert a s c'.vexsb_cache;
                vexsb_dc = DirectCache.put c'.vexsb_dc a (some s);
              },
              s,
              rw (e, absent) (alloc_lem h a s _ c' made made_room less),
              omega (arith, longer),
            )
      ]
