-- ===== src/Vex/Stmts/Exits.antt =====
-- src/vexstmt.cc: conditional exits, and arrays of the CPU state that are read back.
use vexllvm.Base.{
  ℕ, ◌+◌, ◌*◌, ◌/◌, ◌^◌, ◌<◌, ◌≡◌, ◌≢◌, refl, sym, ap, ◌∙◌, arith, Bool-cases, ==_iff, inl, inr,
  ◌==◌, if◌then◌else◌, ok,
}
use vexllvm.Exec.State.{ExitType}
use vexllvm.Vex.Llvm.{Ty, size_in_bits, Builder}
use vexllvm.Vex.Llvm.Documented.{IsDocumented}
use vexllvm.Vex.Llvm.Scalars.{IsWord}
use vexllvm.Vex.Context.Index.{rotated, read_index_lem, write_index_lem}
use vexllvm.Vex.Exprs.{
  Host, Relocation, State, Expr, get_i, is_true, write_ctx, read_ctx_at, write_ctx_at, emit,
}
use vexllvm.Vex.Stmts

module _ {V : Type 0} (b : Builder V) (h : Host V) (exit_type_offset : ℕ) where
  -- The context after the exit type has been left in its byte.
  abbrev pub marked : ExitType → h.Ctx → h.Ctx
  marked e ctx =
      h.ctx_store ctx (b.constant 32 (exit_type_offset / 1)) (b.constant 8 (Stmts.exit_code e))

module _ {V : Type 0} (b : Builder V) (laws : IsDocumented b) (h : Host V) (r : Relocation)
    (exit_type_offset : ℕ) (reg_type : ℕ → Ty) where
  set_exit_type_lem :
      (e : ExitType) (s : State V h.Ctx h.Mem)
      → Stmts.set_exit_type b h r exit_type_offset reg_type e s
        ≡ ok (record s { ctx = marked b h exit_type_offset e s.ctx })
  unfolding Stmts.set_exit_type write_ctx
  set_exit_type_lem e s = rw (laws.constant-type 8 (Stmts.exit_code e)) refl

  -- For a conditional exit of a jump kind that the constructor knows, with the guard clear the
  -- code goes on and has changed nothing; with the guard set it returns the destination, and
  -- only then, and only where the kind is not Boring, the kind's exit type is in its byte of
  -- the CPU state.
  pub emit_exit_lem :
      (guard : Expr V) (jk : Stmts.ExitKind) (dst : ℕ) (s : State V h.Ctx h.Mem) (e : ExitType)
      (gv : V) (g : ℕ)
      → Stmts.exit_type_of jk ≡ ok e
      → emit b h r guard s ≡ ok gv
      → IsWord b gv 1 g
      → Stmts.emit_exit b h r exit_type_offset reg_type guard jk dst s
        ≡ ok (
            if g == 1
            then Stmts.leave
                (if Stmts.is_boring jk
                  then s
                  else record s { ctx = marked b h exit_type_offset e s.ctx })
                dst
            else Stmts.next s)
  unfolding Stmts.emit_exit is_true
  emit_exit_lem guard jk dst s e gv g et eg k = elim (Bool-cases (Stmts.is_boring jk)) [
    | inl boring ↦ rw (et, eg, boring, k.holds) refl
    | inr other ↦ rw (et, eg, other, k.holds, set_exit_type_lem e s) refl
  ]

  -- What a load of the CPU state gives behind a store of a value of the same type: the value at
  -- the same element, and at another what was there before.
  pub record IsMemory : Type 0 where
    pub same :
        (c : h.Ctx) (k j v : V)
        → b.lane k 0 ≡ b.lane j 0
        → h.ctx_load (h.ctx_store c k v) j (b.type_of v) ≡ v
    pub other :
        (c : h.Ctx) (k j v : V)
        → b.lane k 0 ≢ b.lane j 0
        → h.ctx_load (h.ctx_store c k v) j (b.type_of v) ≡ h.ctx_load c j (b.type_of v)

  -- For an array of the CPU state at a multiple of the size of its elements, of at least one
  -- element, that ends below 2 ^ 32, two index words of 32 bits of which that of GetI does not
  -- depend on the CPU state, and a CPU state whose loads at the number of an element give what
  -- was last stored at that number, and which a store at another number leaves as it was: PutI
  -- succeeds, and GetI with its own index and bias then gives the value that was put, where
  -- both indices with their biases, added in 32 bits, leave the same remainder by the length of
  -- the array; otherwise it gives what it gave before.
  pub get_i-put_i :
      (first len bias x bias' x' : ℕ) (ix ix' data_expr : Expr V) (s : State V h.Ctx h.Mem)
      (iv iv' v : V)
      → IsMemory
      → size_in_bits (b.type_of v) / 8 ≢ 0
      → 0 < len
      → first + len < 2 ^ 32
      → emit b h r data_expr s ≡ ok v
      → emit b h r ix s ≡ ok iv
      → ((c : h.Ctx) → emit b h r ix' (record s { ctx = c }) ≡ ok iv')
      → IsWord b iv 32 x
      → IsWord b iv' 32 x'
      → (let array = first * (size_in_bits (b.type_of v) / 8) in
          let read = get_i array len ix' bias' (b.type_of v) in
          (s' : State V h.Ctx h.Mem) × (Stmts.emit_put_i b h r exit_type_offset reg_type array bias
              len ix data_expr s
            ≡ ok s')
          × (emit b h r read s'
              ≡ (if rotated len bias x == rotated len bias' x' then ok v else emit b h r read s)))
  unfolding Stmts.emit_put_i write_ctx_at read_ctx_at emit
  get_i-put_i first len bias x bias' x' ix ix' data_expr s iv iv' v mem sized positive fits ed ei
        ei' k k' =
      let (off, eo, word, bound) =
        write_index_lem laws first len bias x iv v sized positive fits k in
      let (off', eo', word', bound') =
        read_index_lem laws first len bias' x' iv' (b.type_of v) sized positive fits k' in
      let later = ei' (h.ctx_store s.ctx off v) in
      let before = ei' s.ctx in
      (
        record s { ctx = h.ctx_store s.ctx off v },
        rw (ed, ei, eo) refl,
        elim (Bool-cases (rotated len bias x == rotated len bias' x')) [
          | inl hit ↦
              let e = (==_iff _ _).0 hit in
              let here = word.holds ∙ ap (λ n. first + n) e ∙ sym word'.holds in
              rw (later, eo', hit, mem.same s.ctx off off' v here) refl
          | inr miss ↦
              let apart : b.lane off 0 ≢ b.lane off' 0 =
                λ same. let e = sym word.holds ∙ same ∙ word'.holds in absurd (ground arith) in
              rw (later, eo', miss, before, eo', mem.other s.ctx off off' v apart) refl
        ],
      )
