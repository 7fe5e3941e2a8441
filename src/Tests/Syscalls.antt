-- ===== src/Tests/Syscalls.antt =====
-- src/cpu/amd64syscalls.cc: read, and two names of one guest number.
use vexllvm.Base.{ℕ, ◌≡◌, refl, arith, List, [], ◌∷◌, ok}
use vexllvm.Base.Int.{pos}
use vexllvm.Syscalls.Numbers.{Tables, syscall_mapping_init, translate_syscall}
use vexllvm.Syscalls.Translated.{translated, translate_syscall_lem}

abbrev relations : List (ℕ × ℕ)
relations = (0, 3) ∷ (4, 195) ∷ (5, 195) ∷ []

translate_syscall_example :
    (t : Tables) × (syscall_mapping_init relations ≡ ok t)
    × (translate_syscall 195 t ≡ translated relations 195)
translate_syscall_example =
    translate_syscall_lem relations 195
      ((omega arith, omega arith), ((omega arith, omega arith), ((omega arith, omega arith), tt)))

-- The last relation holds.
stat_is_last : translated relations 195 ≡ ok (pos 5)
stat_is_last = refl
