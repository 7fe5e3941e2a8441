-- ===== src/Exec/Protection.antt =====
-- src/vexexec.cc: writing to a page and running it exclude one another, and what a write to
-- translated code asks for.
use vexllvm.Base.{
  ℕ, ◌≡◌, refl, true, false, not, Option, none, some, arith, Bool-cases, inl, inr, Ensures,
  Ensures-bind, Ensures-mono, Ensures-trivial,
}
use vexllvm.Cache.State.{Cache}
use vexllvm.Cache.Fetch.{get_vsb}
use vexllvm.Cache.Jit
use vexllvm.Exec.State.{Prot, Mapping, Guest, Exec, Env}
use vexllvm.Exec.Dispatch.{fits_mapping, protect_code, compile_sb, load_sb, get_sb_from_guest_addr}

module _ (addr_of : ℕ → ℕ) (g : Guest) where
  open g use {Mem, lookup_mapping, record_mapping, mapping_end, host_ptr}

  -- What the dispatcher relies on: a mapping that was recorded is found at the addresses at
  -- which the mapping before it was found.
  abbrev pub KeepsMappings : Type 0
  KeepsMappings =
      (mem : Mem) (a : ℕ) (m : Mapping) (p : Prot)
      → lookup_mapping mem a ≡ some m
      → lookup_mapping (record_mapping mem (record m { cur_prot = p })) a
        ≡ some (record m { cur_prot = p })

  compile_sb-mem :
      (v : Env) (hostptr a : ℕ) (m : Option Mapping) (e : Exec Mem) (r : Cache × Option ℕ)
      → Ensures (λ x. x.0.mem ≡ e.mem) (compile_sb addr_of g v hostptr a m e r)
  unfolding compile_sb
  compile_sb-mem v hostptr a m e (c, none) = refl
  compile_sb-mem v hostptr a m e (c, some vsb) =
      Ensures-bind (λ _. Unit {0}) (λ x. x.0.mem ≡ e.mem)
        (Jit.get_fptr addr_of v.backend hostptr a c) _ (Ensures-trivial _)
        λ r _. elim (Bool-cases (fits_mapping addr_of g v m vsb)) [
          | inl fits ↦ rw fits refl
          | inr spans ↦ rw spans tt
        ]

  -- The mapping under running code may be run, and is not writable.
  abbrev pub IsFixed : Option Mapping → Type 0
  IsFixed none = Unit
  IsFixed (some m) = (m.req_prot.exec ≡ true) × (m.cur_prot.write ≡ false)

  abbrev LeavesFixed : ℕ → Option (Exec Mem) → Type 0
  LeavesFixed a none = Unit
  LeavesFixed a (some e) = IsFixed (lookup_mapping e.mem a)

  -- A superblock that was loaded lies on such a page.
  abbrev pub IsLoadedFixed : ℕ → Exec Mem × Option ℕ → Type 0
  IsLoadedFixed a (e, none) = Unit
  IsLoadedFixed a (e, some s) = IsFixed (lookup_mapping e.mem a)

  protect_code-LeavesFixed :
      KeepsMappings
      → (a : ℕ) (m : Option Mapping) (e : Exec Mem) → lookup_mapping e.mem a ≡ m
      → LeavesFixed a (protect_code addr_of g m e)
  unfolding protect_code
  protect_code-LeavesFixed keeps a none e h = rw h tt
  protect_code-LeavesFixed keeps a (some m) e h = elim (Bool-cases (not m.req_prot.exec)) [
    | inl refused ↦ simp refused tt
    | inr runs ↦ elim (Bool-cases m.cur_prot.write) [
      | inr fixed ↦ simp (runs, fixed, h) (ground arith, refl)
      | inl writable ↦
          simp (runs, writable)
            (rw (keeps e.mem a m (record (m.req_prot) { write = false }) h) (ground arith, refl))
    ]
  ]

  -- With a guest memory that finds a recorded mapping again, when getSBFromGuestAddr returns a
  -- superblock, the mapping of its address, if there is one, allows it to be run and is not
  -- writable.
  pub get_sb-IsFixed :
      KeepsMappings
      → (v : Env) (a : ℕ) (e : Exec Mem)
      → Ensures (IsLoadedFixed a) (get_sb_from_guest_addr addr_of g v a e)
  unfolding get_sb_from_guest_addr
  get_sb-IsFixed keeps v a e =
      let m = lookup_mapping e.mem a in
      load (protect_code addr_of g m e) (protect_code-LeavesFixed keeps a m e refl)
    where
      load :
          (o : Option (Exec Mem))
          → LeavesFixed a o
          → Ensures (IsLoadedFixed a) (load_sb addr_of g v a (lookup_mapping e.mem a) e o)
      load none h = unfold load_sb in tt
      load (some e') h =
          unfold load_sb in
          Ensures-bind (λ _. Unit {0}) _
            (get_vsb addr_of v.backend Jit.evict (host_ptr e.mem a) a e'.cache) _
            (Ensures-trivial _)
            λ r _.
              Ensures-mono (λ x. x.0.mem ≡ e'.mem) _
                (compile_sb addr_of g v (host_ptr e.mem a) a (lookup_mapping e.mem a) e' r) kept
                (compile_sb-mem v (host_ptr e.mem a) a (lookup_mapping e.mem a) e' r)
        where
          kept : (x : Exec Mem × Option ℕ) → x.0.mem ≡ e'.mem → IsLoadedFixed a x
          kept (x, none) same = tt
          kept (x, some t) same = rw same h
