-- ===== src/Vex/Context/Placed.antt =====
-- src/genllvm.cc: where the cached pointers and casts stand, and what an access keeps of it.
use vexllvm.Base.{
  ℕ, ◌/◌, ◌≡◌, ◌≢◌, refl, arith, ap, ◌∙◌, sym, Bool, true, false, ◌&&◌, ◌==◌, Bool-cases,
  Option-cases, ==_iff, inl, inr, [], ◌∷◌, Option, none, some, All, ok,
}
use vexllvm.Vex.Llvm.{Ty, int, vec, float, double, size_in_bits, same_type}
use vexllvm.Vex.Context.Pointers.{
  Gep, GepMap, CastMap, find_gep, find_cast, cast_ctx, Gen, in_entry, reuse_gep, get_ctx_ty_gep,
  get_ctx_byte_gep,
}

-- A cached pointer's index is the offset of its key in units of the key's size.
abbrev pub IsFaithful : GepMap → Type 0
IsFaithful m = All (λ ((k, g) : (ℕ × ℕ) × Gep). g.index ≡ k.0 / k.1) m

same_type-equal : (t u : Ty) → same_type t u ≡ true → t ≡ u
same_type-equal (int v) (int w) h = ap int (ground arith)
same_type-equal (vec m v) (vec n w) h =
    let e : m ≡ n = ground arith in let f : v ≡ w = ground arith in rw (e, f) refl
same_type-equal float float h = refl
same_type-equal double double h = refl
same_type-equal (int v) (vec n w) h = absurd (ground arith)
same_type-equal (int v) float h = absurd (ground arith)
same_type-equal (int v) double h = absurd (ground arith)
same_type-equal (vec m v) (int w) h = absurd (ground arith)
same_type-equal (vec m v) float h = absurd (ground arith)
same_type-equal (vec m v) double h = absurd (ground arith)
same_type-equal float (int w) h = absurd (ground arith)
same_type-equal float (vec n w) h = absurd (ground arith)
same_type-equal float double h = absurd (ground arith)
same_type-equal double (int w) h = absurd (ground arith)
same_type-equal double (vec n w) h = absurd (ground arith)
same_type-equal double float h = absurd (ground arith)

abbrev index_or_zero : Option Gep → ℕ
index_or_zero none = 0
index_or_zero (some g) = g.index

find_gep-index :
    (off n : ℕ) (m : GepMap) (g : Gep)
    → IsFaithful m
    → find_gep off n m ≡ some g
    → g.index ≡ off / n
unfolding find_gep
find_gep-index off n [] g h e = absurd (ground arith)
find_gep-index off n (((o, k), x) ∷ m) g (here, rest) e =
    elim (Bool-cases ((o == off) && (k == n))) [
      | inl hit ↦
          let same = ap index_or_zero (rw hit at e) in
          let o_is : o ≡ off = ground arith in
          let k_is : k ≡ n = ground arith in sym same ∙ rw (o_is, k_is) at here
      | inr other ↦ find_gep-index off n m g rest (rw other at e)
    ]

and-left : (a c : Bool) → a && c ≡ true → a ≡ true
and-left true c h = refl
and-left false c h = absurd (ground arith)

and-right : (a c : Bool) → a && c ≡ true → c ≡ true
and-right true c h = h
and-right false c h = absurd (ground arith)

-- All pointers and casts that are kept stand in one block.
abbrev GepsIn : ℕ → GepMap → Type 0
GepsIn bb m = All (λ ((k, g) : (ℕ × ℕ) × Gep). (g.block ≡ bb) × (g.cast_block ≡ bb)) m

abbrev CastsIn : ℕ → CastMap → Type 0
CastsIn bb m = All (λ ((t, block) : Ty × ℕ). block ≡ bb) m

-- Within a function the casts stand in its entry block, and so do the pointers as long as the
-- entry block is built; between functions both maps are empty.
pub record IsPlaced (g : Gen) : Type 0 where
  pub faithful : IsFaithful g.gepbyte_map
  pub casts : (e : ℕ) → g.entry_bb ≡ some e → CastsIn e g.ctxcast_map
  pub geps : (e : ℕ) → g.entry_bb ≡ some e → g.insert_block ≡ e → GepsIn e g.gepbyte_map
  pub closed : g.entry_bb ≡ none → (g.gepbyte_map ≡ []) × (g.ctxcast_map ≡ [])

or_else {ℓ} : {A : Type ℓ} → A → Option A → A
or_else x none = x
or_else x (some y) = y

some-injective {ℓ} : {A : Type ℓ} {x y : A} → some x ≡ some y → x ≡ y
unfolding or_else
some-injective {x = x} e = ap (or_else x) e

find_gep-in :
    (bb off n : ℕ) (m : GepMap) (g : Gep)
    → GepsIn bb m
    → find_gep off n m ≡ some g
    → (g.block ≡ bb) × (g.cast_block ≡ bb)
unfolding find_gep
find_gep-in bb off n [] g h e = absurd (ground arith)
find_gep-in bb off n (((o, k), x) ∷ m) g (here, rest) e =
    elim (Bool-cases ((o == off) && (k == n))) [
      | inl hit ↦ let same : x ≡ g = some-injective (rw hit at e) in rw (← same) here
      | inr other ↦ find_gep-in bb off n m g rest (rw other at e)
    ]

find_cast-in :
    (bb : ℕ) (ty : Ty) (m : CastMap) (block : ℕ)
    → CastsIn bb m
    → find_cast ty m ≡ some block
    → block ≡ bb
unfolding find_cast
find_cast-in bb ty [] block h e = absurd (ground arith)
find_cast-in bb ty ((t, x) ∷ m) block (here, rest) e = elim (Bool-cases (same_type t ty)) [
  | inl hit ↦ let same : x ≡ block = some-injective (rw hit at e) in sym same ∙ here
  | inr other ↦ find_cast-in bb ty m block rest (rw other at e)
]

-- What an access leaves alone.
abbrev IsSameFunction : Gen → Gen → Type 0
IsSameFunction g g' = (g'.entry_bb ≡ g.entry_bb) × (g'.insert_block ≡ g.insert_block)

-- The pointer and its cast stand in the block that is built.
abbrev pub IsUsable : Gen → Gep → Type 0
IsUsable g p = (p.block ≡ g.insert_block) × (p.cast_block ≡ g.insert_block)

in_entry-is : (g : Gen) (e : ℕ) → g.entry_bb ≡ some e → in_entry g ≡ (e == g.insert_block)
unfolding in_entry
in_entry-is g e h = rw h refl

get_ctx_ty_gep_lem :
    (off : ℕ) (ty : Ty) (g : Gen) (e : ℕ)
    → g.entry_bb ≡ some e
    → CastsIn e g.ctxcast_map
    → (c : ℕ) × (casts : CastMap) × (get_ctx_ty_gep off ty g ≡ (
      record { index = off; element = ty; block = g.insert_block; cast_block = c },
      record g { ctxcast_map = casts },
    ))
      × (c ≡ g.insert_block)
      × CastsIn e casts
unfolding get_ctx_ty_gep cast_ctx
get_ctx_ty_gep_lem off ty g e entry h = elim (Bool-cases (e == g.insert_block)) [
  | inr outside ↦
      let o : in_entry g ≡ false = in_entry-is g e entry ∙ outside in
      (g.insert_block, g.ctxcast_map, rw o refl, refl, h)
  | inl inside ↦
      let o : in_entry g ≡ true = in_entry-is g e entry ∙ inside in
      let at_entry : e ≡ g.insert_block = (==_iff _ _).0 inside in
      elim (Option-cases (find_cast ty g.ctxcast_map)) [
        | inl absent ↦ (
          g.insert_block,
          (ty, g.insert_block) ∷ g.ctxcast_map,
          rw (o, absent) refl,
          refl,
          (sym at_entry, h),
        )
        | inr (block, there) ↦
            let placed = find_cast-in e ty g.ctxcast_map block h there in
            (block, g.ctxcast_map, rw (o, there) refl, placed ∙ at_entry, h)
      ]
]

reuse_gep-IsPlaced :
    (off bytes : ℕ) (ty : Ty) (g : Gen) (e : ℕ) (it : Option Gep)
    → IsPlaced g
    → g.entry_bb ≡ some e
    → find_gep off bytes g.gepbyte_map ≡ it
    → (p : Gep × Gen) × (reuse_gep off bytes ty g it ≡ p)
      × (p.0.index ≡ off / bytes)
      × (p.0.element ≡ ty)
      × IsUsable g p.0
      × IsPlaced p.1
unfolding reuse_gep
reuse_gep-IsPlaced off bytes ty g e none h entry found =
    let (c, casts, made, c_is, placed) =
      get_ctx_ty_gep_lem (off / bytes) ty g e entry (h.casts e entry) in
    let gep : Gep = record {
      index = off / bytes;
      element = ty;
      block = g.insert_block;
      cast_block = c;
    } in
    (
      (gep, record g { ctxcast_map = casts; gepbyte_map = ((off, bytes), gep) ∷ g.gepbyte_map }),
      rw made refl,
      refl,
      refl,
      (refl, c_is),
      record {
        faithful = (refl, h.faithful);
        casts = λ d same. rw (some-injective (sym same ∙ entry)) placed;
        geps = λ d same here. ((here, c_is ∙ here), h.geps d same here);
        closed = λ none_there. absurd (ground arith);
      },
    )
reuse_gep-IsPlaced off bytes ty g e (some it) h entry found =
    elim (Bool-cases (in_entry g && same_type it.element ty)) [
      | inl reused ↦
          let index = find_gep-index off bytes g.gepbyte_map it h.faithful found in
          let element = same_type-equal it.element ty (and-right (in_entry g) _ reused) in
          let inside = sym (in_entry-is g e entry) ∙ and-left (in_entry g) _ reused in
          let at_entry : g.insert_block ≡ e = sym ((==_iff _ _).0 inside) in
          let (block, cast) =
            find_gep-in e off bytes g.gepbyte_map it (h.geps e entry at_entry) found in
          ((it, g), rw reused refl, index, element, (block ∙ sym at_entry, cast ∙ sym at_entry), h)
      | inr fresh ↦
          let (c, casts, made, c_is, placed) =
            get_ctx_ty_gep_lem (off / bytes) ty g e entry (h.casts e entry) in
          (
            (
              record { index = off / bytes; element = ty; block = g.insert_block; cast_block = c },
              record g { ctxcast_map = casts },
            ),
            rw (fresh, made) refl,
            refl,
            refl,
            (refl, c_is),
            record {
              faithful = h.faithful;
              casts = λ d same. rw (some-injective (sym same ∙ entry)) placed;
              geps = h.geps;
              closed = λ none_there. absurd (ground arith);
            },
          )
    ]

pub access-IsPlaced :
    (off : ℕ) (ty : Ty) (g : Gen) (e : ℕ)
    → IsPlaced g
    → g.entry_bb ≡ some e
    → size_in_bits ty / 8 ≢ 0
    → (p : Gep × Gen) × (get_ctx_byte_gep off ty g ≡ ok p)
      × (p.0.index ≡ off / (size_in_bits ty / 8))
      × (p.0.element ≡ ty)
      × IsUsable g p.0
      × IsPlaced p.1
unfolding get_ctx_byte_gep
access-IsPlaced off ty g e h entry sized =
    let bytes = size_in_bits ty / 8 in
    let positive : (bytes == 0) ≡ false = ground arith in
    let (p, made, index, element, usable, placed) =
      reuse_gep-IsPlaced off bytes ty g e (find_gep off bytes g.gepbyte_map) h entry refl in
    (p, rw (positive, made) refl, index, element, usable, placed)
