-- ===== src/PtImage/Pages.antt =====
-- src/ptimgchk.cc: the pages that the registers point to, compared and copied. `lookup` is
-- GuestMem::lookupMapping: whether the requested protection of the mapping has PROT_WRITE.
use vexllvm.Base.{
  ℕ, zero, suc, ◌+◌, ◌-◌, ◌*◌, ◌%◌, ◌^◌, Bool, true, false, List, [], ◌∷◌, Option, none, some, ltb,
  ◌==◌, if◌then◌else◌, member,
}
use vexllvm.PtShadow.Compare.{passes_from}

-- `p & ~0xfff`
abbrev pub page_of : ℕ → ℕ
page_of p = p - p % 4096

-- `dat - 4096` of a 64-bit word
abbrev pub page_before : ℕ → ℕ
page_before dat = (dat + (2 ^ 64 - 4096)) % 2 ^ 64

abbrev pub is_empty_set : List ℕ → Bool
is_empty_set [] = true
is_empty_set (x ∷ l) = false

-- `read<long>`: eight bytes from p on, the lowest first
unfoldable pub read_long : ℕ → (ℕ → ℕ) → ℕ → ℕ
read_long zero mem p = 0
read_long (suc n) mem p = mem p + 256 * read_long n mem (p + 1)

-- The loop of getPageMismatch; address 0 stands for no mismatch.
unfoldable pub find_mismatch : ℕ → (ℕ → ℕ) → (ℕ → ℕ) → ℕ → ℕ
find_mismatch zero native guest p = 0
find_mismatch (suc left) native guest p =
    let rest = find_mismatch left native guest (p + 1) in if native p == guest p then rest else p

unfoldable pub mismatch_of : Option Bool → (ℕ → ℕ) → (ℕ → ℕ) → ℕ → ℕ
mismatch_of none native guest p = 0
mismatch_of (some false) native guest p = 0
mismatch_of (some true) native guest p = find_mismatch 4096 native guest p

-- `memcpy` of a page
unfoldable pub copy_page : ℕ → (ℕ → ℕ) → (ℕ → ℕ) → ℕ → ℕ
copy_page page source target a = if page_of a == page then source a else target a

unfoldable pub copy_mapped : Option Bool → ℕ → (ℕ → ℕ) → (ℕ → ℕ) → ℕ → ℕ
copy_mapped none p source target = target
copy_mapped (some false) p source target = target
copy_mapped (some true) p source target = copy_page (page_of p) source target

unfoldable pub watch_matches : Option Bool → (ℕ → ℕ) → (ℕ → ℕ) → ℕ → Bool
watch_matches none native guest p = true
watch_matches (some write) native guest p = read_long 8 native p == read_long 8 guest p

module _ (lookup : ℕ → Option Bool) where
  -- PTImgChk::getPageMismatch
  unfoldable pub get_page_mismatch : (ℕ → ℕ) → (ℕ → ℕ) → ℕ → ℕ
  get_page_mismatch native guest p = mismatch_of (lookup (page_of p)) native guest (page_of p)

  -- One half of printRootTraceDat: the sets mptrs and cptrs
  unfoldable pub check_page : (ℕ → ℕ) → (ℕ → ℕ) → ℕ → List ℕ × List ℕ → List ℕ × List ℕ
  check_page native guest chk_ptr (mptrs, cptrs) =
      let mismatch_ptr = get_page_mismatch native guest chk_ptr in
      if member chk_ptr cptrs
      then (mptrs, chk_ptr ∷ cptrs)
      else if mismatch_ptr == 0
      then (mptrs, chk_ptr ∷ cptrs)
      else (mismatch_ptr ∷ mptrs, chk_ptr ∷ cptrs)

  -- PTImgChk::printRootTraceDat
  unfoldable pub root_trace_dat : (ℕ → ℕ) → (ℕ → ℕ) → ℕ → List ℕ × List ℕ → List ℕ × List ℕ
  root_trace_dat native guest dat sets =
      check_page native guest (page_of dat)
        (check_page native guest (page_of (page_before dat)) sets)

  -- The loop of printRootTrace over the words of the CPU state
  unfoldable pub root_trace_from : (ℕ → ℕ) → (ℕ → ℕ) → List ℕ → List ℕ × List ℕ → List ℕ × List ℕ
  root_trace_from native guest [] sets = sets
  root_trace_from native guest (dat ∷ dats) sets =
      root_trace_from native guest dats (root_trace_dat native guest dat sets)

  -- PTImgChk::printRootTrace
  unfoldable pub root_trace : (ℕ → ℕ) → (ℕ → ℕ) → List ℕ → Bool
  root_trace native guest dats = is_empty_set (root_trace_from native guest dats ([], [])).0

  -- The loop of doFixupGuest: the guest's memory
  unfoldable pub do_fixup_guest : List ℕ → (ℕ → ℕ) → (ℕ → ℕ) → ℕ → ℕ
  do_fixup_guest [] native guest = guest
  do_fixup_guest (reg ∷ dats) native guest =
      do_fixup_guest dats native (copy_mapped (lookup reg) reg native guest)

  -- PTImgChk::pushPage: the native process's memory
  unfoldable pub push_page : (ℕ → ℕ) → ℕ → (ℕ → ℕ) → ℕ → ℕ
  push_page guest p native = copy_mapped (lookup (page_of p)) (page_of p) guest native

  -- The loop of doFixupNative
  unfoldable pub do_fixup_native : List ℕ → (ℕ → ℕ) → (ℕ → ℕ) → ℕ → ℕ
  do_fixup_native [] guest native = native
  do_fixup_native (reg ∷ dats) guest native =
      do_fixup_native dats guest
        (if ltb reg 4096 then native else push_page guest reg (push_page guest (reg - 4096) native))

  -- PTImgChk::isWatchPtrMatch
  unfoldable pub is_watch_ptr_match : (ℕ → ℕ) → (ℕ → ℕ) → ℕ → Bool
  is_watch_ptr_match native guest xchk_watchptr =
      let p = xchk_watchptr - xchk_watchptr % 8 in watch_matches (lookup p) native guest p

-- PTImgChk::isStackMatch: 16 longs below the stack pointer, and 144 from it on
unfoldable pub is_stack_match : Bool → (ℕ → ℕ) → (ℕ → ℕ) → ℕ → Bool
is_stack_match xchk_stack native guest stack_base =
    if xchk_stack
    then passes_from 0 160 (λ i.
      let p = (stack_base + (2 ^ 64 - 128) + 8 * i) % 2 ^ 64 in
      read_long 8 native p == read_long 8 guest p)
    else true
