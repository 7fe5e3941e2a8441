-- ===== src/Vex/Stmts/Guarded.antt =====
-- src/vexstmt.cc: guarded loads and stores.
use vexllvm.Base.{
  ℕ, ◌-◌, ◌^◌, ◌≡◌, refl, ap, arith, Bool-cases, inl, inr, ◌==◌, ltb, if◌then◌else◌, some, none,
  get_elem?, set, ok,
}
use vexllvm.Superblock.Registers.{set_reg_value, store_if_null}
use vexllvm.Vex.Llvm.{Ty, int, Builder, zext, sext}
use vexllvm.Vex.Llvm.Words.{extend}
use vexllvm.Vex.Llvm.Documented.{IsDocumented}
use vexllvm.Vex.Llvm.Scalars.{IsWord, IsWord-cast, IsWord-bound, IsWord-change}
use vexllvm.Vex.Exprs.{Host, Relocation, State, Expr, is_true, load_mem, emit}
use vexllvm.Vex.Stmts

-- The bits that an operation loads into a word of 32 bits, and the word that it makes of them.
abbrev pub load_bits : Stmts.LoadGOp → ℕ
load_bits Stmts.ident32 = 32
load_bits Stmts.u8to32 = 8
load_bits Stmts.s8to32 = 8
load_bits Stmts.u16to32 = 16
load_bits Stmts.s16to32 = 16
load_bits Stmts.ident_v128 = 128
load_bits Stmts.unknown_op = 0

-- The operations that give a word of 32 bits.
abbrev pub GivesWord : Stmts.LoadGOp → Type 0
GivesWord Stmts.ident_v128 = ⊥
GivesWord Stmts.unknown_op = ⊥
GivesWord _ = Unit

abbrev pub extended : Stmts.LoadGOp → ℕ → ℕ
extended Stmts.s8to32 x = if ltb x 128 then x else 2 ^ 32 - (2 ^ 8 - x)
extended Stmts.s16to32 x = if ltb x 32768 then x else 2 ^ 32 - (2 ^ 16 - x)
extended _ x = x

module _ {V : Type 0} (b : Builder V) (laws : IsDocumented b) (h : Host V) (r : Relocation)
    (exit_type_offset : ℕ) (reg_type : ℕ → Ty) where
  guard_lem : {v : V} {g : ℕ} → IsWord b v 1 g → is_true b h r v ≡ (g == 1)
  unfolding is_true
  guard_lem k = ap (λ n. n == 1) k.holds

  load_g-IsWord :
      (op : Stmts.LoadGOp) (mem : h.Mem) (a : V) (x : ℕ)
      → GivesWord op
      → IsWord b (load_mem b h r mem a (int (load_bits op))) (load_bits op) x
      → (v : V) × (Stmts.load_g_value b h r exit_type_offset reg_type op mem a ≡ ok v)
        × IsWord b v 32 (extended op x)
  unfolding Stmts.load_g_value extend
  load_g-IsWord Stmts.ident32 mem a x e k = (_, refl, k)
  load_g-IsWord Stmts.u8to32 mem a x e k =
      let bound = IsWord-bound laws k in
      (_, refl, IsWord-change laws (IsWord-cast laws zext 32 k) (omega arith))
  load_g-IsWord Stmts.s8to32 mem a x e k =
      let bound = IsWord-bound laws k in
      (_, refl, IsWord-change laws (IsWord-cast laws sext 32 k) (ground arith))
  load_g-IsWord Stmts.u16to32 mem a x e k =
      let bound = IsWord-bound laws k in
      (_, refl, IsWord-change laws (IsWord-cast laws zext 32 k) (omega arith))
  load_g-IsWord Stmts.s16to32 mem a x e k =
      let bound = IsWord-bound laws k in
      (_, refl, IsWord-change laws (IsWord-cast laws sext 32 k) (ground arith))
  load_g-IsWord Stmts.ident_v128 mem a x e k = absurd e
  load_g-IsWord Stmts.unknown_op mem a x e k = absurd e

  -- For a guarded load into a temporary without a value, of an operation that gives a word of
  -- 32 bits, with the guard set the temporary gets the loaded bits, extended as the operation
  -- says, and otherwise the alternative; nothing else changes.
  pub emit_load_g_lem :
      (op : Stmts.LoadGOp) (t : ℕ) (addr alt guard : Expr V) (s : State V h.Ctx h.Mem) (a d gv : V)
      (g x : ℕ)
      → GivesWord op
      → emit b h r addr s ≡ ok a
      → emit b h r alt s ≡ ok d
      → emit b h r guard s ≡ ok gv
      → get_elem? s.values t ≡ some none
      → IsWord b gv 1 g
      → IsWord b (load_mem b h r s.mem a (int (load_bits op))) (load_bits op) x
      → (v : V) × (Stmts.emit_load_g b h r exit_type_offset reg_type op t addr alt guard s
          ≡ ok (record s { values = set s.values t (some (if g == 1 then v else d)) }))
        × IsWord b v 32 (extended op x)
  unfolding Stmts.emit_load_g Stmts.set_reg set_reg_value store_if_null
  emit_load_g_lem op t addr alt guard s a d gv g x e ea ed eg free k l =
      let (v, ev, word) = load_g-IsWord op s.mem a x e l in
      (v, rw (eg, ea, ed, ev, guard_lem k, free) refl, word)

  -- A guarded store: with the guard set it is the store, and otherwise it changes nothing.
  pub emit_store_g_lem :
      (addr data_expr guard : Expr V) (s : State V h.Ctx h.Mem) (a d gv : V) (g : ℕ)
      → emit b h r addr s ≡ ok a
      → emit b h r data_expr s ≡ ok d
      → emit b h r guard s ≡ ok gv
      → IsWord b gv 1 g
      → Stmts.emit_store_g b h r exit_type_offset reg_type addr data_expr guard s ≡ (
          if g == 1
          then Stmts.emit_store b h r exit_type_offset reg_type addr data_expr s
          else ok s)
  unfolding Stmts.emit_store_g Stmts.emit_store
  emit_store_g_lem addr data_expr guard s a d gv g ea ed eg k = elim (Bool-cases (g == 1)) [
    | inl set ↦ rw (eg, ea, ed, guard_lem k, set) refl
    | inr clear ↦ rw (eg, ea, ed, guard_lem k, clear) refl
  ]
