-- ===== src/Superblock/Jumps.antt =====
-- src/vexsb.cc, src/vexexec.cc: the jumps that a superblock is loaded with, those that it emits,
-- and those that the dispatcher takes.
use vexllvm.Base.{
  ℕ, ◌≡◌, ◌⊎◌, refl, Bool, List, [], ◌∷◌, Option, none, some, inl, inr, Result, ok, fault, Fault,
  ◌>>=◌, Ensures, Ensures-bind, Ensures-trivial,
}
use vexllvm.Exec.State.{Guest, ExitType, Exec, Env}
use vexllvm.Exec.Dispatch.{special_exit}
use vexllvm.Superblock.Load.{
  JumpKind, Stmt, Superblock, load_instructions, load_jump, load, create, emit_exit_type, boring,
  no_redir, client_req, call, ret, yield, sys_sysenter, sys_syscall, sys_int128, sig_trap,
  no_decode, unknown_kind,
}

-- The jump of the superblock, if there is one, can be emitted.
abbrev pub CanEmit : Option Superblock → Type 0
CanEmit none = Unit
CanEmit (some sb) = (t : ExitType) × (emit_exit_type sb.jump_kind ≡ ok t)

abbrev pub HasExit : JumpKind → Type 0
HasExit k = (t : ExitType) × (emit_exit_type k ≡ ok t)

load-CanEmit :
    (b : Bool) (a : ℕ) (irsb : List Stmt) (k : JumpKind) (n : ℕ)
    → HasExit k
    → Ensures (λ sb. CanEmit (some sb)) (load b a irsb k n)
unfolding load
load-CanEmit b a [] k n h = tt
load-CanEmit b a (s ∷ irsb) k n h =
    Ensures-bind (λ _. Unit {0}) (λ sb. CanEmit (some sb)) (load_instructions (s ∷ irsb) none) _
      (Ensures-trivial _)
      λ r _.
        Ensures-bind (λ _. Unit {0}) (λ sb. CanEmit (some sb)) (load_jump b k r.1 _) _
          (Ensures-trivial _) λ e _. h

unknown-CanEmit :
    (b : Bool) (a : ℕ) (irsb : List Stmt) (n : ℕ)
    → Ensures (λ sb. CanEmit (some sb)) (load b a irsb unknown_kind n)
unfolding load load_jump
unknown-CanEmit b a [] n = tt
unknown-CanEmit b a (s ∷ irsb) n =
    Ensures-bind (λ _. Unit {0}) (λ sb. CanEmit (some sb)) (load_instructions (s ∷ irsb) none) _
      (Ensures-trivial _) λ r _. tt

some-CanEmit :
    (m : Result Superblock)
    → Ensures (λ sb. CanEmit (some sb)) m
    → Ensures CanEmit (m >>= λ sb. ok (some sb))
some-CanEmit m h = Ensures-bind (λ sb. CanEmit (some sb)) CanEmit m _ h λ sb k. k

-- A superblock that create returns has a jump that emit can emit.
pub create-CanEmit :
    (b : Bool) (a : ℕ) (irsb : List Stmt) (k : JumpKind) (n : ℕ)
    → Ensures CanEmit (create b a irsb k n)
unfolding create emit_exit_type
create-CanEmit b a irsb no_decode n = tt
create-CanEmit b a irsb unknown_kind n = some-CanEmit _ (unknown-CanEmit b a irsb n)
create-CanEmit b a irsb boring n = some-CanEmit _ (load-CanEmit b a irsb boring n (_, refl))
create-CanEmit b a irsb no_redir n = some-CanEmit _ (load-CanEmit b a irsb no_redir n (_, refl))
create-CanEmit b a irsb client_req n = some-CanEmit _ (load-CanEmit b a irsb client_req n (_, refl))
create-CanEmit b a irsb call n = some-CanEmit _ (load-CanEmit b a irsb call n (_, refl))
create-CanEmit b a irsb ret n = some-CanEmit _ (load-CanEmit b a irsb ret n (_, refl))
create-CanEmit b a irsb yield n = some-CanEmit _ (load-CanEmit b a irsb yield n (_, refl))
create-CanEmit b a irsb sys_sysenter n =
    some-CanEmit _ (load-CanEmit b a irsb sys_sysenter n (_, refl))
create-CanEmit b a irsb sys_syscall n =
    some-CanEmit _ (load-CanEmit b a irsb sys_syscall n (_, refl))
create-CanEmit b a irsb sys_int128 n = some-CanEmit _ (load-CanEmit b a irsb sys_int128 n (_, refl))
create-CanEmit b a irsb sig_trap n = some-CanEmit _ (load-CanEmit b a irsb sig_trap n (_, refl))

module _ (addr_of : ℕ → ℕ) (g : Guest) (v : Env) (vsb ip : ℕ) (e : Exec g.Mem) where
  -- The dispatcher's switch on the exit type that a jump leaves.
  abbrev pub after_jump : JumpKind → Result (Exec g.Mem × Option ℕ)
  after_jump k = emit_exit_type k >>= λ t. special_exit addr_of g v t vsb ip e

  -- A jump is Ijk_Yield, and the dispatcher fails its assertion on the exit type that the code
  -- leaves; or it cannot be emitted; or the dispatcher ends the round.
  pub after_jump_lem :
      (k : JumpKind)
      → ((k ≡ yield) × (after_jump k ≡ fault Fault.assertion))
        ⊎ ((emit_exit_type k ≡ fault Fault.assertion)
            ⊎ ((r : Exec g.Mem × Option ℕ) × (after_jump k ≡ ok r)))
  unfolding emit_exit_type special_exit
  after_jump_lem yield = inl (refl, refl)
  after_jump_lem no_decode = inr (inl refl)
  after_jump_lem unknown_kind = inr (inl refl)
  after_jump_lem boring = inr (inr (_, refl))
  after_jump_lem no_redir = inr (inr (_, refl))
  after_jump_lem client_req = inr (inr (_, refl))
  after_jump_lem call = inr (inr (_, refl))
  after_jump_lem ret = inr (inr (_, refl))
  after_jump_lem sys_sysenter = inr (inr (_, refl))
  after_jump_lem sys_syscall = inr (inr (_, refl))
  after_jump_lem sys_int128 = inr (inr (_, refl))
  after_jump_lem sig_trap = inr (inr (_, refl))
