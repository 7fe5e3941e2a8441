-- ===== src/Tests/Vex.antt =====
-- src/vexop.cc, src/vexstmt.cc, src/genllvm.cc: emitted code at concrete words.
use vexllvm.Base.{
  ℕ, suc, ◌+◌, ◌-◌, ◌*◌, ◌/◌, ◌%◌, ◌^◌, ◌≡◌, refl, arith, ◌==◌, true, false, if◌then◌else◌, some,
  none, [], ◌∷◌, ok,
}
use vexllvm.Superblock.Registers.{Values}
use vexllvm.Exec.State.{ExitType}
use vexllvm.Vex.Llvm.{Ty, int, vec, shl, add, sub}
use vexllvm.Vex.Llvm.Words.{word, operation}
use vexllvm.Vex.Llvm.Machine.{Val, machine, machine-IsDocumented}
use vexllvm.Vex.Llvm.Scalars.{IsWord}
use vexllvm.Vex.Scalar.Convert
use vexllvm.Vex.Scalar.Convert.Widths.{emit_conversion_lem}
use vexllvm.Vex.Scalar.Binops
use vexllvm.Vex.Scalar.Binops.Shifts.{emit_shift_lem}
use vexllvm.Vex.Vector.Interleave
use vexllvm.Vex.Vector.Interleave.Order.{emit_interleave_lem}
use vexllvm.Vex.Vector.Lanes
use vexllvm.Vex.Vector.Lanes.Extremes.{extreme, emit_min_max_lem}
use vexllvm.Vex.Vector.Lanes.Averaged.{IsAverage, ordered, emit_average_lem}
use vexllvm.Vex.Vector.Saturate
use vexllvm.Vex.Vector.Saturate.Narrowed.{IsNarrowed, emit_narrow_lem}
use vexllvm.Vex.Vector.Saturate.Clamped.{clamped, biased}
use vexllvm.Vex.Vector.Saturate.Limits.{operand}
use vexllvm.Vex.Vector.Saturate.Signed.{emit_sat_signed_lem}
use vexllvm.Vex.Vector.Saturate.Unsigned.{emit_sat_unsigned_lem}
use vexllvm.Vex.Context.Pointers.{Gep, Gen}
use vexllvm.Vex.Exprs.{
  Host, Relocation, State, get_i, const_int, emit, host_addr, load_mem, store_mem,
}
use vexllvm.Vex.Stmts
use vexllvm.Vex.Stmts.Swap.{high_addr, emit_cas_single_lem, emit_cas_double_lem}
use vexllvm.Vex.Context.Index.{rotated}
use vexllvm.Vex.Stmts.Exits.{marked, emit_exit_lem, IsMemory, get_i-put_i}

abbrev int_val : ℕ → ℕ → Val
int_val w x = record { ty = int w; content = λ i. x }

abbrev vec_val : ℕ → ℕ → (ℕ → ℕ) → Val
vec_val n w f = record { ty = vec n w; content = f }

-- An amount above the width wraps around.
emit_shift_example :
    IsWord machine
      (Binops.emit_shift machine Binops.iop_shl8 (int_val 8 3) (int_val 8 9))
      8
      (word shl 8 3 (9 % 8))
emit_shift_example =
    emit_shift_lem machine machine-IsDocumented Binops.iop_shl8 (int_val 8 3) (int_val 8 9) 3 9
      (record { has_type = refl; holds = refl }) (record { has_type = refl; holds = refl })

emit_conversion_example :
    IsWord machine
      (Convert.emit_conversion machine Convert.iop_8sto32 (int_val 8 255))
      32
      4294967295
emit_conversion_example =
    emit_conversion_lem machine-IsDocumented Convert.iop_8sto32 (int_val 8 255) 255
      (record { has_type = refl; holds = refl })

abbrev low_bytes : Val
low_bytes = vec_val 8 8 λ i. i

abbrev high_bytes : Val
high_bytes = vec_val 8 8 λ i. 240 + i

emit_interleave_example :
    (machine.lane
        (Interleave.emit_interleave machine Interleave.iop_interleavehi8x8 low_bytes high_bytes)
        (2 * 1)
      ≡ machine.lane (machine.create_bit_cast high_bytes (vec 8 8)) (4 + 1))
    × (machine.lane
          (Interleave.emit_interleave machine Interleave.iop_interleavehi8x8 low_bytes high_bytes)
          (suc (2 * 1))
        ≡ machine.lane (machine.create_bit_cast low_bytes (vec 8 8)) (4 + 1))
emit_interleave_example =
    emit_interleave_lem machine-IsDocumented Interleave.iop_interleavehi8x8 low_bytes high_bytes 1
      (omega arith)

-- 7 and -9 in the last lane; 7 and 247 without sign.
emit_sat_signed_example :
    (biased 8
        (machine.lane (Saturate.emit_sat_signed machine add Saturate.q8sx8 low_bytes high_bytes) 7)
      ≡ clamped 8 (
          biased 8 (operand machine low_bytes 8 8 7)
          + biased 8 (operand machine high_bytes 8 8 7)
          - 2 ^ 8 / 2))
    × (biased 8 (
          machine.lane (Saturate.emit_sat_signed machine sub Saturate.q8sx8 low_bytes high_bytes) 7)
        ≡ clamped 8 (
            biased 8 (operand machine low_bytes 8 8 7)
            + 2 ^ 8 / 2
            - biased 8 (operand machine high_bytes 8 8 7)))
emit_sat_signed_example =
    emit_sat_signed_lem machine-IsDocumented Saturate.q8sx8 low_bytes high_bytes 7 (omega arith)

emit_sat_unsigned_example :
    (machine.lane (Saturate.emit_qadd_unsigned machine Saturate.q8ux8 low_bytes high_bytes) 7
      ≡ clamped 8 (operand machine low_bytes 8 8 7 + operand machine high_bytes 8 8 7))
    × (machine.lane (Saturate.emit_qsub_unsigned machine Saturate.q8ux8 low_bytes high_bytes) 7
        ≡ operand machine low_bytes 8 8 7 - operand machine high_bytes 8 8 7)
emit_sat_unsigned_example =
    emit_sat_unsigned_lem machine-IsDocumented Saturate.q8ux8 low_bytes high_bytes 7 (omega arith)

-- A pointer that was made in the entry block 1; then block 2 is built.
abbrev entry_gep : Gep
entry_gep = record { index = 2; element = vec 8 8; block = 1; cast_block = 1 }

abbrev entered : Gen
entered = record { entry_bb = some 1; insert_block = 1; gepbyte_map = []; ctxcast_map = [] }

abbrev accessed_once : Gen
accessed_once = record {
  entry_bb = some 1;
  insert_block = 1;
  gepbyte_map = ((16, 8), entry_gep) ∷ [];
  ctxcast_map = (vec 8 8, 1) ∷ [];
}

-- -8 and 7 give 0, rounded up.
abbrev wide_low : Val
wide_low = vec_val 16 8 λ i. i

abbrev wide_high : Val
wide_high = vec_val 16 8 λ i. 241 + i

emit_average_example :
    IsAverage true 8
      (operand machine wide_low 16 8 7)
      (operand machine wide_high 16 8 7)
      (machine.lane (Lanes.emit_average machine Lanes.iop_avg8sx16 wide_low wide_high) 7)
emit_average_example =
    emit_average_lem machine-IsDocumented Lanes.iop_avg8sx16 wide_low wide_high 7 (omega arith)

-- Lanes of 16 bits, of which the second operand's are negative.
abbrev mixed_low : Val
mixed_low = vec_val 8 16 λ i. i

abbrev mixed_high : Val
mixed_high = vec_val 8 16 λ i. 65528 + i

emit_min_max_example :
    ordered true 16
      (machine.lane (Lanes.emit_min_max machine Lanes.iop_max16sx8 mixed_low mixed_high) 3)
    ≡ extreme true
        (ordered true 16 (operand machine mixed_low 8 16 3))
        (ordered true 16 (operand machine mixed_high 8 16 3))
emit_min_max_example =
    emit_min_max_lem machine-IsDocumented Lanes.iop_max16sx8 mixed_low mixed_high 3 (omega arith)

-- Two lanes of 32 bits beyond the range of 16 bits.
abbrev large_words : Val
large_words = vec_val 2 32 λ i. 70000 + i

abbrev negative_words : Val
negative_words = vec_val 2 32 λ i. 4294967286 + i

emit_narrow_example :
    IsNarrowed true 32 (operand machine negative_words 2 32 1) (
      machine.lane
        (Saturate.emit_narrow machine Saturate.iop_qnarrowbin32sto16sx4 large_words negative_words)
        1)
    × IsNarrowed true 32 (operand machine large_words 2 32 1) (
        machine.lane
          (Saturate.emit_narrow machine Saturate.iop_qnarrowbin32sto16sx4 large_words
            negative_words)
          3)
emit_narrow_example =
    emit_narrow_lem machine-IsDocumented Saturate.iop_qnarrowbin32sto16sx4 large_words
      negative_words 1 (omega arith)

-- A context and a memory that are functions of the lane of their index.
abbrev host : Host Val
host = record {
  Ctx = ℕ → Val;
  ctx_load = λ c k t. c (machine.lane k 0);
  ctx_store = λ c k u j. if j == machine.lane k 0 then u else c j;
  Mem = ℕ → Val;
  mem_load = λ m a t. m (machine.lane a 0);
  mem_store = λ m a u j. if j == machine.lane a 0 then u else m j;
  ctx_base = int_val 64 0;
}

abbrev relocation : Relocation
relocation = record { is_32bit = false; base = 0; use_reloc = true }

abbrev blank : ℕ → Val
blank j = int_val 32 0

abbrev bytes_in_memory : ℕ → Val
bytes_in_memory j = int_val 8 200

abbrev words_in_memory : ℕ → Val
words_in_memory j = if j == 64 then int_val 32 5 else int_val 32 6

abbrev free : Values Val
free = none ∷ none ∷ []

abbrev any_type : ℕ → Ty
any_type t = int 32

abbrev with_words : State Val (ℕ → Val) (ℕ → Val)
with_words = record { values = free; ctx = blank; mem = words_in_memory }

abbrev with_bytes : State Val (ℕ → Val) (ℕ → Val)
with_bytes = record { values = free; ctx = blank; mem = bytes_in_memory }

-- The memory holds 5 and 5 is expected, so 9 is stored.
emit_cas_single_example :
    Stmts.emit_cas_single machine host relocation 0 any_type 0
      (const_int 64 64)
      (const_int 32 5)
      (const_int 32 9)
      with_words
    ≡ ok (record {
      values = some (words_in_memory 64) ∷ none ∷ [];
      ctx = blank;
      mem = store_mem machine host relocation words_in_memory (int_val 64 64) (int_val 32 9);
    })
unfolding emit load_mem store_mem host_addr
emit_cas_single_example =
    emit_cas_single_lem machine machine-IsDocumented host relocation 0 any_type 0 (const_int 64 64)
      (const_int 32 5) (const_int 32 9) with_words (int_val 64 64) (int_val 32 5) (int_val 32 9) 32
      5 5 refl refl refl refl (record { has_type = refl; holds = refl })
      (record { has_type = refl; holds = refl })

-- The memory holds 5 and 6, and 1 and 2 are expected: both halves fail, and yet 9 is stored twice.
emit_cas_double_example :
    Stmts.emit_cas_double machine host relocation 0 any_type 0
      (const_int 64 64)
      (const_int 32 1)
      (const_int 32 9)
      (record { old_val_tmp_hi = 1; expected_val_hi = const_int 32 2; new_val_hi = const_int 32 8 })
      with_words
    ≡ ok (record {
      values = some (words_in_memory 64) ∷ some (words_in_memory 68) ∷ [];
      ctx = blank;
      mem =
          store_mem machine host relocation
            (store_mem machine host relocation words_in_memory (int_val 64 64) (int_val 32 9))
            (high_addr machine (int_val 64 64) (int_val 32 1))
            (int_val 32 9);
    })
unfolding emit load_mem store_mem host_addr operation
emit_cas_double_example =
    emit_cas_double_lem machine machine-IsDocumented host relocation 0 any_type 0 (const_int 64 64)
      (const_int 32 1) (const_int 32 9) _ with_words (int_val 64 64) (int_val 32 1) (int_val 32 2)
      (int_val 32 9) 32 1 5 2 6 refl refl refl (λ m. refl) refl refl (λ e. absurd (omega arith))
      (record { has_type = refl; holds = refl }) (record { has_type = refl; holds = refl })
      (record { has_type = refl; holds = refl }) (record { has_type = refl; holds = refl })

emit_exit_example :
    Stmts.emit_exit machine host relocation 640 any_type
      (const_int 1 1)
      Stmts.sys_syscall
      4096
      with_words
    ≡ ok (
        Stmts.leave
          (record with_words { ctx = marked machine host 640 ExitType.syscall blank })
          4096)
unfolding emit Stmts.exit_type_of Stmts.is_boring
emit_exit_example =
    emit_exit_lem machine machine-IsDocumented host relocation 640 any_type (const_int 1 1)
      Stmts.sys_syscall 4096 with_words ExitType.syscall (int_val 1 1) 1 refl refl
      (record { has_type = refl; holds = refl })

host-IsMemory : IsMemory machine machine-IsDocumented host relocation 0 any_type
host-IsMemory = record {
  same = λ c k j v e.
      let hit : (machine.lane j 0 == machine.lane k 0) ≡ true = ground arith in rw hit refl;
  other = λ c k j v e.
      let miss : (machine.lane j 0 == machine.lane k 0) ≡ false = ground arith in rw miss refl;
}

-- The x87 registers: with the top of the stack 0, ST(-1) is the last of the eight, as is ST(7).
get_i-put_i_example :
    (s' : State Val (ℕ → Val) (ℕ → Val)) × (Stmts.emit_put_i machine host relocation 0 any_type
        (5 * 8)
        4294967295
        8
        (const_int 32 0)
        (const_int 64 77)
        with_words
      ≡ ok s')
    × (emit machine host relocation (get_i (5 * 8) 8 (const_int 32 7) 0 (int 64)) s' ≡ (
        if rotated 8 4294967295 0 == rotated 8 0 7
        then ok (int_val 64 77)
        else emit machine host relocation (get_i (5 * 8) 8 (const_int 32 7) 0 (int 64)) with_words))
unfolding emit
get_i-put_i_example =
    get_i-put_i machine machine-IsDocumented host relocation 0 any_type 5 8 4294967295 0 0 7
      (const_int 32 0) (const_int 32 7) (const_int 64 77) with_words (int_val 32 0) (int_val 32 7)
      (int_val 64 77) host-IsMemory (λ e. absurd (omega arith)) (omega arith) (omega arith) refl
      refl (λ c. refl) (record { has_type = refl; holds = refl })
      (record { has_type = refl; holds = refl })
