-- ===== src/Vex/Context/Index.antt =====
-- src/genllvm.cc: accesses at an index that is known when the emitted code runs.
use vexllvm.Base.{
  ℕ, ◌+◌, ◌*◌, ◌/◌, ◌%◌, ◌^◌, ◌<◌, ◌≡◌, ◌≢◌, refl, arith, ◌∙◌, ◌==◌, if◌then◌else◌, Result, ok,
  fault, Fault, true, false,
}
use vexllvm.Vex.Llvm.{Ty, int, size_in_bits, Builder, add, urem}
use vexllvm.Vex.Llvm.Words.{IsDefined, operation}
use vexllvm.Vex.Llvm.Documented.{IsDocumented}
use vexllvm.Vex.Llvm.Scalars.{
  IsWord, IsWord-create, IsWord-constant, IsWord-change, IsWord-bit_cast,
}
use native.Mathlib.Nat.{mod-eq_of_lt, mod-lt, mul-mod_left}

module _ {V : Type 0} (b : Builder V) where
  -- The element that the indexed readCtx addresses: `byte_off` and `len` are the array's offset
  -- and number of elements, and `bias` is an int as a word of 32 bits.
  unfoldable pub read_index : ℕ → ℕ → ℕ → V → Ty → Result V
  read_index byte_off bias len ix access_ty =
      let bytes = size_in_bits access_ty / 8 in
      let offset = b.create add (b.create_bit_cast ix (int 32)) (b.constant 32 bias) in
      let base_v = b.constant 32 (byte_off / bytes) in
      let offset = b.create urem offset (b.constant 32 len) in
      if bytes == 0
      then fault Fault.division
      else if byte_off % bytes == 0
      then ok (b.create add offset base_v)
      else fault Fault.assertion

  -- The element that the indexed writeCtx addresses, by the type of the value that it stores.
  unfoldable pub write_index : ℕ → ℕ → ℕ → V → V → Result V
  write_index byte_off bias len ix v =
      let bytes = size_in_bits (b.type_of v) / 8 in
      let offset = b.create add (b.create_bit_cast ix (int 32)) (b.constant 32 bias) in
      let base_v = b.constant 32 (byte_off / bytes) in
      let offset = b.create urem offset (b.constant 32 len) in
      if bytes == 0
      then fault Fault.division
      else if byte_off % bytes == 0
      then ok (b.create add offset base_v)
      else fault Fault.assertion

-- The element of an array of `len` that an index word and a bias name: the array rotates.
abbrev pub rotated : ℕ → ℕ → ℕ → ℕ
rotated len bias x = (x + bias % 2 ^ 32) % 2 ^ 32 % len

module _ {V : Type 0} {b : Builder V} (laws : IsDocumented b) where
  -- For an array of `len` elements at a multiple of their size, whose elements all have a number
  -- below 2 ^ 32, and an index word, the assertion holds and the access is to the element of the
  -- array at the index, the bias added modulo 2 ^ 32, modulo `len`: it never leaves the array.
  pub read_index_lem :
      (first len bias x : ℕ) (ix : V) (ty : Ty)
      → size_in_bits ty / 8 ≢ 0
      → 0 < len
      → first + len < 2 ^ 32
      → IsWord b ix 32 x
      → (off : V) × (read_index b (first * (size_in_bits ty / 8)) bias len ix ty ≡ ok off)
        × IsWord b off 32 (first + rotated len bias x)
        × (rotated len bias x < len)
  unfolding read_index IsDefined operation
  read_index_lem first len bias x ix ty sized positive fits h =
      let bytes = size_in_bits ty / 8 in
      let nonzero : (bytes == 0) ≡ false = ground arith in
      let aligned : (first * bytes % bytes == 0) ≡ true =
        let e = mul-mod_left first bytes in ground arith in
      let quotient : first * bytes / bytes ≡ first = grind arith in
      let whole : len % 2 ^ 32 ≡ len = mod-eq_of_lt (omega arith) in
      let biased =
        IsWord-create laws add (IsWord-bit_cast laws h) (IsWord-constant laws 32 bias) tt in
      let len_v = IsWord-change laws (IsWord-constant laws 32 len) whole in
      let small : (x + bias % 2 ^ 32) % 2 ^ 32 % len < len = mod-lt _ positive in
      let turned = IsWord-create laws urem biased len_v (λ e. omega arith) in
      let turned = IsWord-change laws turned (mod-eq_of_lt (omega arith)) in
      let base_v =
        IsWord-change laws (IsWord-constant laws 32 first) (mod-eq_of_lt (omega arith)) in
      let reached = IsWord-create laws add turned base_v tt in
      (
        _,
        rw (nonzero, aligned, quotient) refl,
        IsWord-change laws reached (mod-eq_of_lt (omega arith) ∙ omega arith),
        small,
      )

  -- The same for the element that is written.
  pub write_index_lem :
      (first len bias x : ℕ) (ix v : V)
      → size_in_bits (b.type_of v) / 8 ≢ 0
      → 0 < len
      → first + len < 2 ^ 32
      → IsWord b ix 32 x
      → (off : V) × (write_index b (first * (size_in_bits (b.type_of v) / 8)) bias len ix v
          ≡ ok off)
        × IsWord b off 32 (first + rotated len bias x)
        × (rotated len bias x < len)
  unfolding write_index read_index
  write_index_lem first len bias x ix v = read_index_lem first len bias x ix (b.type_of v)
