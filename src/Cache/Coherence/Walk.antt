-- ===== src/Cache/Coherence/Walk.antt =====
-- src/vexjitcache.cc: the walk over the exits, and `getFPtr`.
use vexllvm.Base.{
  ℕ, zero, suc, ◌≡◌, refl, Option, none, some, List, [], ◌∷◌, arith, ◌==◌, false, ◌||◌, member, All,
  Bool-cases, Option-cases, inl, inr, Result, Ensures, Ensures-bind, Ensures-trivial, assert_some,
}
use vexllvm.Base.Maps.{find, insert, find-insert}
use vexllvm.DirectCache
use vexllvm.Cache.State.{Cache, Backend}
use vexllvm.Cache.Jit.{
  Walk, is_jitted, record_named, fetch, note, visit_one, visit, expand, is_full, unless_full,
  walk_round, walk, walk_fuel, find_exits, file_fptr, compile_func, fptr_or_compile, get_fptr,
}
use vexllvm.Cache.Coherence.Entries.{IsCoherent, get_cached_fptr_lem}
use vexllvm.Cache.Coherence.Jit.{Extends, Extends-refl, Extends-trans}
use vexllvm.Cache.Coherence.Fetch.{IsAddressed, HasFunc, get_func-HasFunc}
use vexllvm.Cache.Coherence.Steps.{
  refill_jit-IsCoherent, insert_jit-IsCoherent, insert_jit_absent-IsCoherent,
}

-- An address whose code can be filed: it has a function, and the direct cache knows no code.
pub record IsFileable (c : Cache) (p : ℕ × ℕ) : Type 0 where
  pub func : ℕ
  pub found : find p.0 c.func_cache ≡ some func
  pub silent : DirectCache.get c.jit_dc p.0 ≡ none

module _ {addr_of : ℕ → ℕ} where
  All-extend :
      {c c' : Cache} (l : List (ℕ × ℕ))
      → Extends addr_of c c'
      → All (IsFileable c) l
      → All (IsFileable c') l
  All-extend [] x h = tt
  All-extend (p ∷ l) x h = (
    record {
      func = h.0.func;
      found = x.keeps_func p.0 h.0.func h.0.found;
      silent = x.stays_silent p.0 h.0.silent;
    },
    All-extend l x h.1,
  )

-- What the walk keeps: the caches extend those at its start, and its names can be filed.
pub record IsWalked (addr_of : ℕ → ℕ) (c : Cache) (w : Walk) : Type 0 where
  pub extended : Extends addr_of c w.cache
  pub fileable : All (IsFileable w.cache) w.fnames

unjitted_silent :
    {addr_of : ℕ → ℕ} {c : Cache} (v : IsCoherent addr_of c) (a : ℕ)
    → is_jitted a c ≡ false
    → DirectCache.get c.jit_dc a ≡ none
unfolding is_jitted
unjitted_silent {c} v a h = elim (Option-cases (DirectCache.get c.jit_dc a)) [
  | inl gone ↦ gone
  | inr (p, there) ↦ ground (arith, v.jit_backed a p there)
]

module _ (addr_of : ℕ → ℕ) (b : Backend) (addressed : IsAddressed addr_of b) {c : Cache} where
  note-IsWalked :
      (a : ℕ) (r : Cache × Option ℕ) {w : Walk}
      → IsWalked addr_of c w
      → HasFunc addr_of a w.cache r
      → DirectCache.get w.cache.jit_dc a ≡ none
      → IsWalked addr_of c (note addr_of b a r w)
  unfolding note
  note-IsWalked a (c', none) {w} k (x, has) silent = record {
    extended = Extends-trans k.extended x;
    fileable = All-extend w.fnames x k.fileable;
  }
  note-IsWalked a (c', some f) {w} k (x, has) silent =
      let l = All-extend w.fnames x k.fileable in
      elim (Bool-cases (member f w.workset || member f w.complete)) [
        | inl seen ↦ rw seen (record { extended = Extends-trans k.extended x; fileable = l })
        | inr new ↦ rw new (record {
          extended = Extends-trans k.extended x;
          fileable = (record { func = f; found = has; silent = x.stays_silent a silent }, l);
        })
      ]

  visit_one-IsWalked :
      (a : ℕ) {w : Walk}
      → IsWalked addr_of c w
      → Ensures (IsWalked addr_of c) (visit_one addr_of b a w)
  unfolding visit_one fetch
  visit_one-IsWalked a {w} k = elim (Bool-cases (is_jitted a w.cache)) [
    | inl jitted ↦ rw jitted k
    | inr new ↦ rw new (
        Ensures-bind (HasFunc addr_of a w.cache) (IsWalked addr_of c) _ _
          (get_func-HasFunc addr_of b addressed a a k.extended.coherent)
          λ r x. note-IsWalked a r k x (unjitted_silent k.extended.coherent a new))
  ]

  visit-IsWalked :
      (addrs : List ℕ) {w : Walk}
      → IsWalked addr_of c w
      → Ensures (IsWalked addr_of c) (visit addr_of b addrs w)
  unfolding visit
  visit-IsWalked [] k = k
  visit-IsWalked (a ∷ addrs) {w} k =
      Ensures-bind (IsWalked addr_of c) (IsWalked addr_of c) (visit_one addr_of b a w) _
        (visit_one-IsWalked a k) λ w' k'. visit-IsWalked addrs k'

  expand-IsWalked :
      (f : ℕ) (queue : List ℕ) {w : Walk}
      → IsWalked addr_of c w
      → Ensures (IsWalked addr_of c) (expand addr_of b f queue w)
  unfolding expand
  expand-IsWalked f queue {w} k =
      Ensures-bind (IsWalked addr_of c) (IsWalked addr_of c)
        (visit addr_of b (b.ret_addrs f) (record w { queue = queue })) _
        (visit-IsWalked (b.ret_addrs f) (record { extended = k.extended; fileable = k.fileable }))
        λ w' k'. record { extended = k'.extended; fileable = k'.fileable }

  walk_round-IsWalked :
      (next : Walk → Result Walk)
      → ((w : Walk) → IsWalked addr_of c w → Ensures (IsWalked addr_of c) (next w))
      → (workset queue : List ℕ) (w : Walk) → IsWalked addr_of c w
      → Ensures (IsWalked addr_of c) (walk_round addr_of b next workset queue w)
  unfolding walk_round unless_full
  walk_round-IsWalked next keep [] queue w k = k
  walk_round-IsWalked next keep (_ ∷ _) [] w k = tt
  walk_round-IsWalked next keep (_ ∷ _) (f ∷ queue) w k =
      Ensures-bind (IsWalked addr_of c) (IsWalked addr_of c) (expand addr_of b f queue w) _
        (expand-IsWalked f queue k)
        λ w' k'. elim (Bool-cases (is_full addr_of b w')) [
          | inl full ↦ rw (full, unless_full) k'
          | inr more ↦ rw (more, unless_full) (keep w' k')
        ]

  walk-IsWalked :
      (fuel : ℕ) (w : Walk)
      → IsWalked addr_of c w
      → Ensures (IsWalked addr_of c) (walk addr_of b fuel w)
  unfolding walk
  walk-IsWalked zero w k = k
  walk-IsWalked (suc fuel) w k =
      walk_round-IsWalked (walk addr_of b fuel) (walk-IsWalked fuel) w.workset w.queue w k

  find_exits-IsWalked :
      (h a f : ℕ)
      → IsCoherent addr_of c
      → Ensures (IsWalked addr_of c) (find_exits addr_of b h a f c)
  unfolding find_exits
  find_exits-IsWalked h a f v =
      let k : IsWalked addr_of c
          (record { cache = c; fnames = []; workset = f ∷ []; queue = f ∷ []; complete = [] }) =
        record { extended = Extends-refl v; fileable = tt } in
      elim (Bool-cases (h == a)) [
        | inl same ↦ rw same (walk-IsWalked walk_fuel _ k)
        | inr other ↦ rw other k
      ]

-- Filing the code that the walk found.
record_named-IsCoherent :
    {addr_of : ℕ → ℕ} (b : Backend) (l : List (ℕ × ℕ)) {c : Cache}
    → IsCoherent addr_of c
    → All (IsFileable c) l
    → IsCoherent addr_of (record_named b l c) × ((record_named b l c).func_cache ≡ c.func_cache)
unfolding record_named
record_named-IsCoherent b [] v h = (v, refl)
record_named-IsCoherent b ((a, f) ∷ l) {c} v (h, hs) =
    record_named-IsCoherent b l
      (insert_jit_absent-IsCoherent v a (b.named f) h.func h.found h.silent) (All-insert l hs)
  where
    All-insert :
        (l : List (ℕ × ℕ))
        → All (IsFileable c) l
        → All (IsFileable (record c { jit_cache = insert a (b.named f) c.jit_cache })) l
    All-insert [] h = tt
    All-insert (p ∷ l) (h, hs) =
        (record { func = h.func; found = h.found; silent = h.silent }, All-insert l hs)

-- The caches that a call leaves, with the code that it returns filed.
abbrev pub HasFptr : (ℕ → ℕ) → ℕ → Cache × ℕ → Type 0
HasFptr addr_of a r = IsCoherent addr_of r.0 × (find a r.0.jit_cache ≡ some r.1)

module _ (addr_of : ℕ → ℕ) (b : Backend) (addressed : IsAddressed addr_of b) where
  file_fptr-HasFptr :
      {c : Cache} (a p f : ℕ) {w : Walk}
      → IsWalked addr_of c w
      → find a c.func_cache ≡ some f
      → HasFptr addr_of a (file_fptr addr_of b a p w)
  unfolding file_fptr
  file_fptr-HasFptr a p f {w} k found =
      let (v, same) = record_named-IsCoherent b w.fnames k.extended.coherent k.fileable in
      let there : find a w.cache.func_cache ≡ some f = k.extended.keeps_func a f found in
      let d = record_named b w.fnames w.cache in
      (insert_jit-IsCoherent v a p f (rw same there), ground (arith, find-insert a a p d.jit_cache))

  compile_func-HasFptr :
      {c : Cache} (h a : ℕ) (r : Cache × Option ℕ)
      → HasFunc addr_of a c r
      → Ensures (HasFptr addr_of a) (compile_func addr_of b h a r)
  unfolding compile_func
  compile_func-HasFptr h a (c', none) x = tt
  compile_func-HasFptr h a (c', some f) (x, has) =
      Ensures-bind (IsWalked addr_of c') (HasFptr addr_of a) (find_exits addr_of b h a f c') _
        (find_exits-IsWalked addr_of b addressed h a f x.coherent)
        λ w k.
          Ensures-bind (λ _. Unit {0}) (HasFptr addr_of a) (assert_some (b.compile f)) _
            (Ensures-trivial _) λ p _. file_fptr-HasFptr a p f k has

  -- With coherent caches, and a translator that gives a superblock the address that was asked
  -- for, a call of getFPtr that returns leaves the caches coherent, and the map of compiled
  -- code holds at the address the code that it returned.
  pub get_fptr-HasFptr :
      {c : Cache} (h a : ℕ)
      → IsCoherent addr_of c
      → Ensures (HasFptr addr_of a) (get_fptr addr_of b h a c)
  unfolding get_fptr fptr_or_compile fetch
  get_fptr-HasFptr {c} h a v =
      let (d, e, backed) = get_cached_fptr_lem v a in
      let v' = refill_jit-IsCoherent v backed in
      elim (Option-cases (find a c.jit_cache)) [
        | inr (p, there) ↦ rw (e, there) (v', there)
        | inl absent ↦
            rw (e, absent)
              (Ensures-bind (HasFunc addr_of a (record c { jit_dc = d })) (HasFptr addr_of a) _ _
                (get_func-HasFunc addr_of b addressed h a v') λ r x. compile_func-HasFptr h a r x)
      ]
