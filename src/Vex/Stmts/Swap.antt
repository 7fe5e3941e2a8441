-- ===== src/Vex/Stmts/Swap.antt =====
-- src/vexstmt.cc: compare-and-swap.
use vexllvm.Base.{
  ℕ, ◌/◌, ◌≡◌, refl, ap, ◌∙◌, Bool, true, false, not, ◌≢◌, Bool-cases, inl, inr, ◌==◌,
  if◌then◌else◌, some, none, get_elem?, set, ok,
}
use vexllvm.Superblock.Registers.{set_reg_value, store_if_null, get_elem?-set_other}
use vexllvm.Vex.Llvm.{Ty, size_in_bits, Builder, icmp_eq, add}
use vexllvm.Vex.Llvm.Words.{test}
use vexllvm.Vex.Llvm.Documented.{IsDocumented, bit}
use vexllvm.Vex.Llvm.Scalars.{IsWord, IsWord-icmp, IsWord-flag}
use vexllvm.Vex.Exprs.{Host, Relocation, State, Expr, is_true, load_mem, store_mem, emit}
use vexllvm.Vex.Stmts

bit_is_set : (c : Bool) → (bit c == 1) ≡ c
bit_is_set true = refl
bit_is_set false = refl

-- Whether two tests have the same answer.
abbrev pub agree : Bool → Bool → Bool
agree true d = d
agree false d = not d

bits_agree : (c d : Bool) → (bit c == bit d) ≡ agree c d
bits_agree true true = refl
bits_agree true false = refl
bits_agree false true = refl
bits_agree false false = refl

module _ {V : Type 0} (b : Builder V) where
  -- The address of the high half.
  abbrev pub high_addr : V → V → V
  high_addr a e =
      b.create add a (b.constant (size_in_bits (b.type_of a)) (size_in_bits (b.type_of e) / 8))

module _ {V : Type 0} (b : Builder V) (laws : IsDocumented b) (h : Host V) (r : Relocation)
    (exit_type_offset : ℕ) (reg_type : ℕ → Ty) where
  -- A comparison of two words decides its branch.
  is_true-icmp :
      {v1 v2 : V} {w x y : ℕ}
      → IsWord b v1 w x
      → IsWord b v2 w y
      → is_true b h r (b.create_icmp icmp_eq v1 v2) ≡ (x == y)
  unfolding is_true test
  is_true-icmp {v1} {v2} {w} {x} {y} k l =
      ap (λ n. n == 1) (IsWord-icmp laws icmp_eq k l) ∙ bit_is_set (x == y)

  -- For a swap whose temporary has no value yet, where the expected value and the loaded one
  -- are words of one width, the loaded value is assigned to the temporary; the new value is
  -- stored where the two are equal, and where they differ the memory stays as it was.
  pub emit_cas_single_lem :
      (t : ℕ) (addr expected new : Expr V) (s : State V h.Ctx h.Mem) (a e n : V) (w x y : ℕ)
      → emit b h r addr s ≡ ok a
      → emit b h r expected s ≡ ok e
      → emit b h r new s ≡ ok n
      → get_elem? s.values t ≡ some none
      → IsWord b e w x
      → IsWord b (load_mem b h r s.mem a (b.type_of e)) w y
      → Stmts.emit_cas_single b h r exit_type_offset reg_type t addr expected new s
        ≡ ok (record {
          values = set s.values t (some (load_mem b h r s.mem a (b.type_of e)));
          ctx = s.ctx;
          mem = if x == y then store_mem b h r s.mem a n else s.mem;
        })
  unfolding Stmts.emit_cas_single Stmts.set_reg set_reg_value store_if_null
  emit_cas_single_lem t addr expected new s a e n w x y ea ee en free k l =
      elim (Bool-cases (x == y)) [
        | inl same ↦ rw (ea, ee, en, is_true-icmp k l, same, free) refl
        | inr other ↦ rw (ea, ee, en, is_true-icmp k l, other, free) refl
      ]

  -- For a swap of two halves, whose temporaries differ and have no value yet, where the new
  -- value does not read the memory and each half's expected and loaded values are words of one
  -- width: the loaded halves are assigned, and the code stores exactly where the tests of the
  -- two halves agree, so also where both fail; it then stores the low half's new value at both
  -- addresses.
  pub emit_cas_double_lem :
      (t : ℕ) (addr expected new : Expr V) (hi : Stmts.HighHalf V) (s : State V h.Ctx h.Mem)
      (a e e_hi n : V) (w x y x_hi y_hi : ℕ)
      → emit b h r addr s ≡ ok a
      → emit b h r expected s ≡ ok e
      → emit b h r hi.expected_val_hi s ≡ ok e_hi
      → ((mem : h.Mem) → emit b h r new (record s { mem = mem }) ≡ ok n)
      → get_elem? s.values t ≡ some none
      → get_elem? s.values hi.old_val_tmp_hi ≡ some none
      → t ≢ hi.old_val_tmp_hi
      → IsWord b e w x
      → IsWord b (load_mem b h r s.mem a (b.type_of e)) w y
      → IsWord b e_hi w x_hi
      → IsWord b (load_mem b h r s.mem (high_addr b a e) (b.type_of e)) w y_hi
      → Stmts.emit_cas_double b h r exit_type_offset reg_type t addr expected new hi s
        ≡ ok (record {
          values =
              set
                (set s.values t (some (load_mem b h r s.mem a (b.type_of e))))
                hi.old_val_tmp_hi
                (some (load_mem b h r s.mem (high_addr b a e) (b.type_of e)));
          ctx = s.ctx;
          mem =
              if agree (x == y) (x_hi == y_hi)
              then store_mem b h r (store_mem b h r s.mem a n) (high_addr b a e) n
              else s.mem;
        })
  unfolding Stmts.emit_cas_double Stmts.set_reg set_reg_value store_if_null test
  emit_cas_double_lem t addr expected new hi s a e e_hi n w x y x_hi y_hi ea ee eh en free free_hi
        apart k l k_hi l_hi =
      let now : emit b h r new s ≡ ok n = en s.mem in
      let later = en (store_mem b h r s.mem a n) in
      let flag = is_true-icmp (IsWord-flag laws icmp_eq k l) (IsWord-flag laws icmp_eq k_hi l_hi) in
      let flag = flag ∙ bits_agree (x == y) (x_hi == y_hi) in
      let loaded = some (load_mem b h r s.mem a (b.type_of e)) in
      let still = get_elem?-set_other s.values t hi.old_val_tmp_hi loaded apart ∙ free_hi in
      elim (Bool-cases (agree (x == y) (x_hi == y_hi))) [
        | inl stored ↦ rw (ea, ee, eh, now, later, flag, stored, free, still) refl
        | inr other ↦ rw (ea, ee, eh, now, later, flag, other, free, still) refl
      ]
