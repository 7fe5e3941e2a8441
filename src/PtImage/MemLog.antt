-- ===== src/PtImage/MemLog.antt =====
-- src/memlog.h and src/ptimgchk.cc: the last store of the guest, and the native process's memory
-- where it was made. A memory is a function from addresses to bytes.
use vexllvm.Base.{
  ℕ, zero, suc, ◌+◌, ◌-◌, ◌*◌, ◌%◌, Bool, true, ◌&&◌, not, Option, none, some, ltb, leb, ◌==◌,
  if◌then◌else◌, Result, ok, fault, Fault, ◌>>=◌,
}
use vexllvm.PtShadow.Compare.{passes_from}

-- `class MemLog`
pub record MemLog : Type 0 where
  pub address : ℕ
  pub size : ℕ
  pub bytes : ℕ → ℕ

-- MAX_STORE_SIZE, in bytes
abbrev pub max_store_bytes : ℕ
max_store_bytes = 16

-- MEMLOG_BUF_SZ
abbrev pub memlog_buf_sz : ℕ
memlog_buf_sz = 24

-- MemLog::clear
abbrev pub clear : MemLog
clear = record { address = 0; size = 0; bytes = λ j. 0 }

-- MemLog::wasWritten
unfoldable pub was_written : MemLog → Bool
was_written l = not (l.address == 0)

-- `*mem = ptrace(PTRACE_PEEKDATA, ...)`: a long is its eight bytes.
unfoldable pub peek_long : (ℕ → ℕ) → ℕ → ℕ → (ℕ → ℕ) → ℕ → ℕ
peek_long native aligned k bytes j =
    if leb (8 * k) j && ltb j (8 * k + 8) then native (aligned + (j - 8 * k)) else bytes j

-- The loop of readMemLogData, in its round k. A round past the buffer would overwrite the stack.
unfoldable pub peek_longs : ℕ → (ℕ → ℕ) → ℕ → ℕ → ℕ → (ℕ → ℕ) → Result (ℕ → ℕ)
peek_longs zero native aligned end k bytes = ok bytes
peek_longs (suc fuel) native aligned end k bytes =
    let rest =
      peek_longs fuel native (aligned + 8) end (suc k) (peek_long native aligned k bytes) in
    if ltb aligned end
    then if ltb memlog_buf_sz (8 * k + 8) then fault Fault.past_end else rest
    else ok bytes

-- `memmove(&bytes[0], &bytes[extra], size)`
unfoldable pub move_down : ℕ → ℕ → (ℕ → ℕ) → Result (ℕ → ℕ)
move_down extra size bytes =
    if ltb memlog_buf_sz (extra + size)
    then fault Fault.past_end
    else ok (λ j. if ltb j size then bytes (extra + j) else bytes j)

-- PTImgChk::readMemLogData
unfoldable pub read_mem_log_data : (ℕ → ℕ) → MemLog → Result (ℕ → ℕ)
read_mem_log_data native l =
    let extra = l.address % 8 in
    let aligned = l.address - extra in
    let end = l.address + l.size in
    do
      bytes ← peek_longs (end - aligned) native aligned end 0 (λ j. 0)
      if extra == 0 then ok bytes else move_down extra l.size bytes

-- PTImgChk::isMatchMemLog
unfoldable pub is_match_mem_log : (ℕ → ℕ) → (ℕ → ℕ) → Option MemLog → Result Bool
is_match_mem_log native guest none = ok true
is_match_mem_log native guest (some l) = do
  bytes ← read_mem_log_data native l
  ok (passes_from 0 l.size (λ j. bytes j == guest (l.address + j)))
