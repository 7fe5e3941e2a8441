-- ===== src/Syscalls/Translated.antt =====
-- src/cpu/amd64syscalls.cc and its twins for ARM and i386: what a number is translated to.
use vexllvm.Base.{
  ℕ, zero, suc, ◌<◌, ◌≤◌, ◌≡◌, refl, ap, ◌∙◌, arith, true, false, List, [], ◌∷◌, none, some, ltb,
  ◌==◌, if◌then◌else◌, length, set, get_elem?, All, Result, ok, fault, Fault, Bool-cases, inl, inr,
}
use vexllvm.Base.Int.{ℤ, pos, negsuc}
use vexllvm.Syscalls.Numbers.{
  table_size, Tables, unset_entries, assign_entry, relate, syscall_mapping_init, entry_at,
  translate_syscall,
}

-- The host's number in the last relation with the guest's number, or the given one.
abbrev pub host_of : List (ℕ × ℕ) → ℕ → ℤ → ℤ
host_of [] nr otherwise = otherwise
host_of ((host, guest) ∷ relations) nr otherwise =
    host_of relations nr (if nr == guest then pos host else otherwise)

-- Both numbers have entries.
abbrev pub IsListed : ℕ × ℕ → Type 0
IsListed (host, guest) = (host < table_size) × (guest < table_size)

length-unset_entries : (n : ℕ) → length (unset_entries n) ≡ n
unfolding unset_entries
length-unset_entries zero = refl
length-unset_entries (suc n) = omega (arith, length-unset_entries n)

get_elem?-unset_entries : (n i : ℕ) → i < n → get_elem? (unset_entries n) i ≡ some (negsuc 0)
unfolding unset_entries
get_elem?-unset_entries zero i h = absurd (omega arith)
get_elem?-unset_entries (suc n) zero h = refl
get_elem?-unset_entries (suc n) (suc i) h = get_elem?-unset_entries n i (omega arith)

length-set : (l : List ℤ) (i : ℕ) (v : ℤ) → length (set l i v) ≡ length l
length-set [] i v = refl
length-set (x ∷ l) zero v = refl
length-set (x ∷ l) (suc i) v = ap suc (length-set l i v)

get_elem?-set :
    (l : List ℤ) (i j : ℕ) (v d : ℤ)
    → get_elem? l j ≡ some d
    → get_elem? (set l i v) j ≡ some (if j == i then v else d)
get_elem?-set [] i j v d h = absurd (ground arith)
get_elem?-set (x ∷ l) zero zero v d h = refl
get_elem?-set (x ∷ l) zero (suc j) v d h = h ∙ ground arith
get_elem?-set (x ∷ l) (suc i) zero v d h = h ∙ ground arith
get_elem?-set (x ∷ l) (suc i) (suc j) v d h = get_elem?-set l i j v d h ∙ ground arith

-- Past the end there is no entry.
get_elem?-length : (l : List ℤ) (i : ℕ) → length l ≤ i → get_elem? l i ≡ none
get_elem?-length [] i h = refl
get_elem?-length (x ∷ l) zero h = absurd (omega arith)
get_elem?-length (x ∷ l) (suc i) h = get_elem?-length l i (omega arith)

assign_entry-fits :
    (l : List ℤ) (i v : ℕ) → i < length l → assign_entry l i v ≡ ok (set l i (pos v))
unfolding assign_entry
assign_entry-fits l i v h = let e : ltb i (length l) ≡ true = ground arith in rw e refl

relate_lem :
    (relations : List (ℕ × ℕ)) (t : Tables) (nr : ℕ)
    → All IsListed relations
    → length t.host_to_guest ≡ table_size
    → length t.guest_to_host ≡ table_size
    → (t' : Tables) × (relate relations t ≡ ok t')
      × (length t'.guest_to_host ≡ table_size)
      × ((d : ℤ)
          → get_elem? t.guest_to_host nr ≡ some d
          → get_elem? t'.guest_to_host nr ≡ some (host_of relations nr d))
unfolding relate
relate_lem [] t nr listed h g = (t, refl, g, λ d e. e)
relate_lem ((host, guest) ∷ relations) t nr ((host_fits, guest_fits), listed) h g =
    let t1 : Tables = record {
      host_to_guest = set t.host_to_guest host (pos guest);
      guest_to_host = set t.guest_to_host guest (pos host);
    } in
    let (t', related, size, entry) =
      relate_lem relations t1 nr listed (length-set t.host_to_guest host (pos guest) ∙ h)
        (length-set t.guest_to_host guest (pos host) ∙ g) in
    (
      t',
      rw
          (
            assign_entry-fits t.host_to_guest host guest (omega arith),
            assign_entry-fits t.guest_to_host guest host (omega arith),
          )
          related,
      size,
      λ d e. entry _ (get_elem?-set t.guest_to_host guest nr (pos host) d e),
    )

-- What translateSyscall answers of a number.
abbrev pub translated : List (ℕ × ℕ) → ℕ → Result ℤ
translated relations nr =
    if ltb nr table_size
    then ok (host_of relations nr (negsuc 0))
    else if nr == table_size
    then fault Fault.past_end
    else ok (negsuc 0)

translate_syscall-translated :
    (relations : List (ℕ × ℕ)) (t : Tables) (nr : ℕ)
    → length t.guest_to_host ≡ table_size
    → ((d : ℤ)
        → get_elem? (unset_entries table_size) nr ≡ some d
        → get_elem? t.guest_to_host nr ≡ some (host_of relations nr d))
    → translate_syscall nr t ≡ translated relations nr
unfolding translate_syscall entry_at
translate_syscall-translated relations t nr size entry = elim (Bool-cases (ltb nr table_size)) [
  | inl within ↦
      let held : get_elem? t.guest_to_host nr ≡ some (host_of relations nr (negsuc 0)) =
        entry (negsuc 0) (get_elem?-unset_entries table_size nr (ground arith)) in
      let passes : ltb table_size nr ≡ false = ground arith in rw (size, within, passes, held) refl
  | inr outside ↦ elim (Bool-cases (nr == table_size)) [
    | inl at_end ↦
        let passes : ltb table_size nr ≡ false = ground arith in
        let past : get_elem? t.guest_to_host nr ≡ none =
          get_elem?-length t.guest_to_host nr (ground arith) in
        rw (size, outside, at_end, passes, past) refl
    | inr beyond ↦
        let stops : ltb table_size nr ≡ true = ground arith in
        rw (size, outside, beyond, stops) refl
  ]
]

-- Let both numbers of each relation be below 512. The tables are then set up, and a guest's
-- number below 512 is translated to the host's number of the last relation that has it, or to
-- -1; 512 reads past the end of the table; every other number is translated to -1.
pub translate_syscall_lem :
    (relations : List (ℕ × ℕ)) (nr : ℕ)
    → All IsListed relations
    → (t : Tables) × (syscall_mapping_init relations ≡ ok t)
      × (translate_syscall nr t ≡ translated relations nr)
unfolding syscall_mapping_init
translate_syscall_lem relations nr listed =
    let (t, related, size, entry) =
      relate_lem relations
        (record { host_to_guest = unset_entries 512; guest_to_host = unset_entries 512 }) nr listed
        (length-unset_entries 512) (length-unset_entries 512) in
    (t, related, translate_syscall-translated relations t nr size entry)
