-- ===== src/Vex/Context/Pointers.antt =====
-- src/genllvm.cc: pointers into the CPU state and their cache, over one function's blocks.
use vexllvm.Base.{
  ℕ, ◌*◌, ◌/◌, Bool, false, not, ◌&&◌, ◌==◌, if◌then◌else◌, List, [], ◌∷◌, Option, none, some,
  Result, ok, fault, Fault,
}
use vexllvm.Superblock.Registers.{
  IrType, ity_i1, ity_i8, ity_i16, ity_i32, ity_i64, ity_i128, ity_f32, ity_f64, ity_v128, ity_v256,
  ity_unknown,
}
use vexllvm.Vex.Llvm.{Ty, int, vec, float, double, size_in_bits, same_type}

-- GenLLVM::vexTy2LLVM; a null pointer is `none`.
unfoldable pub vex_ty2llvm : IrType → Option Ty
vex_ty2llvm ity_i1 = some (int 1)
vex_ty2llvm ity_i8 = some (int 8)
vex_ty2llvm ity_i16 = some (int 16)
vex_ty2llvm ity_i32 = some (int 32)
vex_ty2llvm ity_i64 = some (int 64)
vex_ty2llvm ity_f32 = some float
vex_ty2llvm ity_f64 = some double
vex_ty2llvm ity_v128 = some (vec 16 8)
vex_ty2llvm ity_v256 = some (vec 32 8)
vex_ty2llvm ity_i128 = none
vex_ty2llvm ity_unknown = none

-- A pointer into the context: the instruction, by its block, that adds the index to the context
-- as a pointer to elements, and the block of the cast to that pointer.
pub record Gep : Type 0 where
  pub index : ℕ
  pub element : Ty
  pub block : ℕ
  pub cast_block : ℕ

-- The key is an offset and a size in bytes.
abbrev pub GepMap : Type 0
GepMap = List ((ℕ × ℕ) × Gep)

unfoldable pub find_gep : ℕ → ℕ → GepMap → Option Gep
find_gep off n [] = none
find_gep off n (((o, m), g) ∷ rest) = if (o == off) && (m == n) then some g else find_gep off n rest

-- The casts of the context by their element types, and the blocks that they stand in.
abbrev pub CastMap : Type 0
CastMap = List (Ty × ℕ)

unfoldable pub find_cast : Ty → CastMap → Option ℕ
find_cast ty [] = none
find_cast ty ((t, block) ∷ rest) = if same_type t ty then some block else find_cast ty rest

-- The state of GenLLVM while a function is built; blocks are numbers.
pub record Gen : Type 0 where
  pub entry_bb : Option ℕ
  pub insert_block : ℕ
  pub gepbyte_map : GepMap
  pub ctxcast_map : CastMap

-- GenLLVM::beginBB, with the block that it creates; without the memory log.
unfoldable pub begin_bb : ℕ → Gen → Result Gen
begin_bb bb g = begin_unless_nested g.entry_bb
  where
    begin_unless_nested : Option ℕ → Result Gen
    begin_unless_nested (some entry) = fault Fault.assertion
    begin_unless_nested none = ok (record g { entry_bb = some bb; insert_block = bb })

-- GenLLVM::endBB
unfoldable pub end_bb : Gen → Result Gen
end_bb g = end_unless_missing g.entry_bb
  where
    end_unless_missing : Option ℕ → Result Gen
    end_unless_missing none = fault Fault.assertion
    end_unless_missing (some entry) =
        ok (record g { entry_bb = none; gepbyte_map = []; ctxcast_map = [] })

-- `SetInsertPoint`
unfoldable pub set_insert_point : ℕ → Gen → Gen
set_insert_point bb g = record g { insert_block = bb }

unfoldable pub in_entry : Gen → Bool
in_entry g = is_block g.entry_bb
  where
    is_block : Option ℕ → Bool
    is_block none = false
    is_block (some bb) = bb == g.insert_block

-- The block of the cast that getCtxTyGEP takes: outside of the entry block always a new one.
unfoldable pub cast_ctx : Ty → Gen → Option ℕ → ℕ × Gen
cast_ctx access_ty g none =
    (g.insert_block, record g { ctxcast_map = (access_ty, g.insert_block) ∷ g.ctxcast_map })
cast_ctx access_ty g (some block) = (block, g)

-- GenLLVM::getCtxTyGEP: the offset counts elements.
unfoldable pub get_ctx_ty_gep : ℕ → Ty → Gen → Gep × Gen
get_ctx_ty_gep off access_ty g =
    let cast =
      if not (in_entry g)
      then (g.insert_block, g)
      else cast_ctx access_ty g (find_cast access_ty g.ctxcast_map) in
    (
      record { index = off; element = access_ty; block = g.insert_block; cast_block = cast.0 },
      cast.1,
    )

-- What getCtxByteGEP does with what the map holds for its key.
unfoldable pub reuse_gep : ℕ → ℕ → Ty → Gen → Option Gep → Gep × Gen
reuse_gep off bytes ty g none =
    let (gep, g') = get_ctx_ty_gep (off / bytes) ty g in
    (gep, record g' { gepbyte_map = ((off, bytes), gep) ∷ g'.gepbyte_map })
reuse_gep off bytes ty g (some it) =
    if in_entry g && same_type it.element ty then (it, g) else get_ctx_ty_gep (off / bytes) ty g

-- GenLLVM::getCtxByteGEP
unfoldable pub get_ctx_byte_gep : ℕ → Ty → Gen → Result (Gep × Gen)
get_ctx_byte_gep off ty g =
    let bytes = size_in_bits ty / 8 in
    if bytes == 0
    then fault Fault.assertion
    else ok (reuse_gep off bytes ty g (find_gep off bytes g.gepbyte_map))

-- The byte that a pointer addresses.
abbrev pub byte_of : Gep → ℕ
byte_of g = g.index * (size_in_bits g.element / 8)
