-- ===== src/Vex/Context/Layout.antt =====
-- src/genllvm.cc: the struct type of the guest's CPU state.
use vexllvm.Base.{
  ℕ, zero, suc, ◌+◌, ◌-◌, ◌*◌, ◌<◌, ◌≡◌, ◌⊎◌, refl, arith, Bool-cases, inl, inr, ltb, ◌==◌, ◌||◌,
  if◌then◌else◌, List, [], ◌∷◌, Result, ok, fault, Fault, ◌>>=◌, true, All,
}
use vexllvm.Vex.Llvm.{Ty, int, vec, size_in_bits}

-- `guest_ctx_field`: the bytes of one element, and the number of elements.
pub record Field : Type 0 where
  pub f_len : ℕ
  pub f_count : ℕ

-- The switch on `f->f_len * 8`
unfoldable pub field_type : ℕ → Result Ty
field_type f_len =
    let bits = f_len * 8 in
    if bits == 8
    then ok (int 8)
    else if bits == 16
    then ok (int 16)
    else if bits == 32
    then ok (int 32)
    else if bits == 64
    then ok (int 64)
    else if bits == 128
    then ok (vec 8 16)
    else if bits == 256
    then ok (vec 16 16)
    else fault Fault.assertion

unfoldable pub push_types : ℕ → Ty → List Ty → List Ty
push_types zero t rest = rest
push_types (suc c) t rest = t ∷ push_types c t rest

-- `tmp_f` for a gap: one element of a width that the switch has, or single bytes.
unfoldable pub padding : ℕ → Field
padding gap =
    if gap == 2 || (gap == 4 || (gap == 8 || (gap == 16 || gap == 32)))
    then record { f_len = gap; f_count = 1 }
    else record { f_len = 1; f_count = gap }

-- The switch and the pushes for one field, before what the loop pushes later.
unfoldable pub add_field : Field → Result (List Ty) → Result (List Ty)
add_field f rest = do t ← field_type f.f_len; types ← rest; ok (push_types f.f_count t types)

-- The loop of GenLLVM::getGuestTy over the fields by offset, from `expected_off` on. A gap is
-- filled first and the field is then tried again.
unfoldable pub add_fields : ℕ → List (ℕ × Field) → Result (List Ty)
add_fields expected_off [] = ok []
add_fields expected_off ((cur_off, f) ∷ fields) =
    let masked = add_fields expected_off fields in
    let rest = add_fields (cur_off + f.f_count * f.f_len) fields in
    let tried = add_field f rest in
    if ltb cur_off expected_off
    then masked
    else if ltb expected_off cur_off
    then add_field (padding (cur_off - expected_off)) tried
    else tried

-- GenLLVM::getGuestTy, when it has not run before
unfoldable pub get_guest_ty : List (ℕ × Field) → Result (List Ty)
get_guest_ty = add_fields 0

-- The bits of the elements, without what a target's alignment would add.
abbrev pub total_bits : List Ty → ℕ
total_bits [] = 0
total_bits (t ∷ types) = size_in_bits t + total_bits types

-- The first byte after the fields that are not masked.
abbrev pub end_of : ℕ → List (ℕ × Field) → ℕ
end_of expected_off [] = expected_off
end_of expected_off ((cur_off, f) ∷ fields) =
    let masked = end_of expected_off fields in
    let rest = end_of (cur_off + f.f_count * f.f_len) fields in
    if ltb cur_off expected_off then masked else rest

-- The widths that the switch has.
abbrev pub IsWidth : ℕ → Type 0
IsWidth n = (n ≡ 1) ⊎ (n ≡ 2) ⊎ (n ≡ 4) ⊎ (n ≡ 8) ⊎ (n ≡ 16) ⊎ (n ≡ 32)

field_type_lem : (n : ℕ) → IsWidth n → (t : Ty) × (field_type n ≡ ok t) × (size_in_bits t ≡ n * 8)
unfolding field_type
field_type_lem n h = elim h [
  | inl e ↦ (int 8, rw e refl, rw e refl)
  | inr (inl e) ↦ (int 16, rw e refl, rw e refl)
  | inr (inr (inl e)) ↦ (int 32, rw e refl, rw e refl)
  | inr (inr (inr (inl e))) ↦ (int 64, rw e refl, rw e refl)
  | inr (inr (inr (inr (inl e)))) ↦ (vec 8 16, rw e refl, rw e refl)
  | inr (inr (inr (inr (inr e)))) ↦ (vec 16 16, rw e refl, rw e refl)
]

push_types-bits :
    (c : ℕ) (t : Ty) (rest : List Ty)
    → total_bits (push_types c t rest) ≡ c * size_in_bits t + total_bits rest
unfolding push_types
push_types-bits zero t rest = omega arith
push_types-bits (suc c) t rest = grind (arith, push_types-bits c t rest)

known-IsWidth :
    (gap : ℕ)
    → (gap == 2 || (gap == 4 || (gap == 8 || (gap == 16 || gap == 32)))) ≡ true
    → IsWidth gap
known-IsWidth gap h = ground arith

padding_lem :
    (gap : ℕ)
    → 0 < gap
    → IsWidth (padding gap).f_len × ((padding gap).f_count * (padding gap).f_len ≡ gap)
unfolding padding
padding_lem gap h =
    elim (Bool-cases (gap == 2 || (gap == 4 || (gap == 8 || (gap == 16 || gap == 32))))) [
      | inl known ↦ rw known (known-IsWidth gap known, omega arith)
      | inr other ↦ rw other (inl refl, omega arith)
    ]

-- What a field adds: its elements, each of its width.
add_field_lem :
    (f : Field) (n : ℕ) (types : List Ty) (r : Result (List Ty))
    → IsWidth f.f_len
    → r ≡ ok types
    → total_bits types ≡ n * 8
    → (all : List Ty) × (add_field f r ≡ ok all) × (total_bits all ≡ (f.f_count * f.f_len + n) * 8)
unfolding add_field
add_field_lem f n types r w e bits =
    let (t, is_t, size) = field_type_lem f.f_len w in
    (
      push_types f.f_count t types,
      rw (is_t, e) refl,
      rw (push_types-bits, size, bits) (grind arith),
    )

-- For fields of widths that the switch has, in any order and with any gaps and overlaps, the
-- struct type is built, and from the offset that is expected its elements have exactly the bits
-- up to the end of the fields: of those that begin below an earlier field's end none is added.
pub add_fields_lem :
    (expected_off : ℕ) (fields : List (ℕ × Field))
    → All (λ ((off, f) : ℕ × Field). IsWidth f.f_len) fields
    → (types : List Ty) × (n : ℕ) × (add_fields expected_off fields ≡ ok types)
      × (total_bits types ≡ n * 8)
      × (expected_off + n ≡ end_of expected_off fields)
unfolding add_fields
add_fields_lem expected_off [] h = ([], 0, refl, refl, omega arith)
add_fields_lem expected_off ((cur_off, f) ∷ fields) (w, h) =
    elim (Bool-cases (ltb cur_off expected_off)) [
      | inl masked ↦ rw masked (add_fields_lem expected_off fields h)
      | inr there ↦
          let (types, n, e, bits, reach) =
            add_fields_lem (cur_off + f.f_count * f.f_len) fields h in
          let (tried, et, bt) = add_field_lem f n types _ w e bits in
          elim (Bool-cases (ltb expected_off cur_off)) [
            | inr at ↦
                let same : expected_off ≡ cur_off = ground arith in
                (tried, f.f_count * f.f_len + n, rw (there, at) et, bt, rw there (omega arith))
            | inl gap ↦
                let (pw, size) = padding_lem (cur_off - expected_off) (ground arith) in
                let (all, ea, ba) =
                  add_field_lem (padding (cur_off - expected_off)) _ tried _ pw et bt in
                let more : expected_off < cur_off = ground arith in
                (all, _, rw (there, gap) ea, ba, rw there (omega arith))
          ]
    ]
