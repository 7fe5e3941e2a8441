-- ===== src/DirectCache.antt =====
-- src/directcache.h: the direct-mapped cache in front of the address maps.
use vexllvm.Base.{ℕ, ◌/◌, ◌%◌, ◌≡◌, false, Option, none, some, arith, ◌==◌, if◌then◌else◌}
use vexllvm.Base.Maps.{Map, find}

abbrev pub dc_size : ℕ
dc_size = 4096

-- `struct dc_pair`; a null pointer is `none`.
pub record Pair {ℓ} (T : Type ℓ) : Type ℓ where
  pub ptr : ℕ
  pub t : Option T

-- `ents`, by slot.
abbrev pub DirectCache {ℓ} : Type ℓ → Type ℓ
DirectCache T = ℕ → Pair T

unfoldable pub ptr2slot : ℕ → ℕ
ptr2slot p = p / 4 % dc_size

module _ {ℓ} {T : Type ℓ} where
  -- The constructor and `flush` both zero the entries.
  unfoldable pub flush : DirectCache T
  flush slot = record { ptr = 0; t = none }

  unfoldable pub put : DirectCache T → ℕ → Option T → DirectCache T
  put ents p t slot = if slot == ptr2slot p then record { ptr = p; t = t } else ents slot

  unfoldable pub get : DirectCache T → ℕ → Option T
  get ents p = let e = ents (ptr2slot p) in if e.ptr == p then e.t else none

  pub get-flush : (p : ℕ) → get flush p ≡ none
  unfolding get flush
  get-flush p = ground arith

  pub get-put_self : (c : DirectCache T) (p : ℕ) (t : Option T) → get (put c p t) p ≡ t
  unfolding get put
  get-put_self c p t = ground arith

  -- After a put at p, get answers what was put at p, nothing at any other address of its slot,
  -- and as before at the addresses of the other slots.
  pub get-put :
      (c : DirectCache T) (p q : ℕ) (t : Option T)
      → get (put c p t) q
        ≡ (if p == q then t else if ptr2slot q == ptr2slot p then none else get c q)
  unfolding get put
  get-put c p q t = ground arith

  -- A `put` of a null pointer only forgets.
  pub get-put-none :
      (c : DirectCache T) (p q : ℕ) {t : T}
      → get (put c p none) q ≡ some t
      → (get c q ≡ some t) × ((p == q) ≡ false)
  get-put-none c p q h = ground (arith, get-put c p q none)

  -- The direct cache answers with entries of the map behind it only.
  abbrev pub IsBacked : DirectCache T → Map T → Type ℓ
  IsBacked c m = (p : ℕ) (t : T) → get c p ≡ some t → find p m ≡ some t
