-- ===== src/Syscalls/Numbers.antt =====
-- src/cpu/amd64syscalls.cc and its twins for ARM and i386: the tables from the guest's numbers of
-- system calls to the host's, and back.
use vexllvm.Base.{
  ℕ, zero, suc, List, [], ◌∷◌, Option, none, some, ltb, if◌then◌else◌, length, set, get_elem?,
  Result, ok, fault, Fault, ◌>>=◌,
}
use vexllvm.Base.Int.{ℤ, pos, negsuc}

-- The tables' size.
abbrev pub table_size : ℕ
table_size = 512

-- `g_host_to_guest_syscalls` and `g_guest_to_host_syscalls`
pub record Tables : Type 0 where
  pub host_to_guest : List ℤ
  pub guest_to_host : List ℤ

-- A vector of n entries that are all -1.
unfoldable pub unset_entries : ℕ → List ℤ
unset_entries zero = []
unset_entries (suc n) = negsuc 0 ∷ unset_entries n

-- An assignment to an entry of a vector.
unfoldable pub assign_entry : List ℤ → ℕ → ℕ → Result (List ℤ)
assign_entry l i v = if ltb i (length l) then ok (set l i (pos v)) else fault Fault.past_end

-- The SYSCALL_RELATION lines of syscallsmapping.h, which are a parameter: host and guest number.
unfoldable pub relate : List (ℕ × ℕ) → Tables → Result Tables
relate [] t = ok t
relate ((host, guest) ∷ relations) t = do
  host_to_guest ← assign_entry t.host_to_guest host guest
  guest_to_host ← assign_entry t.guest_to_host guest host
  relate relations (record { host_to_guest = host_to_guest; guest_to_host = guest_to_host })

-- syscall_mapping_init
unfoldable pub syscall_mapping_init : List (ℕ × ℕ) → Result Tables
syscall_mapping_init relations =
    relate relations (record {
      host_to_guest = unset_entries table_size;
      guest_to_host = unset_entries table_size;
    })

-- An entry of a vector.
unfoldable pub entry_at : Option ℤ → Result ℤ
entry_at none = fault Fault.past_end
entry_at (some nr) = ok nr

-- translateSyscall, of a number that is read as unsigned
unfoldable pub translate_syscall : ℕ → Tables → Result ℤ
translate_syscall sys_nr t =
    if ltb (length t.guest_to_host) sys_nr
    then ok (negsuc 0)
    else entry_at (get_elem? t.guest_to_host sys_nr)
