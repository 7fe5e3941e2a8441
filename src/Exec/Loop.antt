-- ===== src/Exec/Loop.antt =====
-- src/vexexec.cc: the loop over the rounds. Each round has its own answers from outside.
use vexllvm.Base.{
  ℕ, List, [], ◌∷◌, All, Bool, true, false, Result, ok, ◌>>=◌, Ensures, Ensures-bind, Bool-cases,
  inl, inr,
}
use vexllvm.Base.Int.{pos}
use vexllvm.Cache.Coherence.Fetch.{IsAddressed}
use vexllvm.Exec.State.{Guest, Exec, Env}
use vexllvm.Exec.Dispatch.{step_vsb, do_next_sb}
use vexllvm.Exec.Invariant.{IsSound}
use vexllvm.Exec.Rounds.{do_next_sb-IsSound}

module _ (addr_of : ℕ → ℕ) (g : Guest) where
  open g use {Mem}

  -- VexExec::beginStepping, but for the signal's action; `pc` is the guest CPU's.
  unfoldable pub begin_stepping : ℕ → Exec Mem → Exec Mem
  begin_stepping pc e = record e { next_addr = pc; call_depth = pos 0 }

  -- `while (stepVSB())`, for as many rounds as there are answers; the Boolean is whether the loop
  -- would go on.
  unfoldable pub step_while : List Env → Exec Mem → Result (Exec Mem × Bool)
  step_while [] e = ok (e, true)
  step_while (v ∷ vs) e = do
    r ← step_vsb addr_of g v e
    elim r.1 [ true ↦ step_while vs r.0 | false ↦ ok (r.0, false) ]

  -- VexExec::run
  unfoldable pub run : ℕ → List Env → Exec Mem → Result (Exec Mem × Bool)
  run pc vs e = step_while vs (begin_stepping pc e)

  step_vsb-IsSound :
      (v : Env) {e : Exec Mem}
      → IsAddressed addr_of v.backend
      → IsSound addr_of e
      → Ensures (λ r. IsSound addr_of r.0) (step_vsb addr_of g v e)
  unfolding step_vsb
  step_vsb-IsSound v {e} addressed s = elim (Bool-cases e.exited) [
    | inl over ↦ simp over s
    | inr running ↦ simp running (
        Ensures-bind (λ r. IsSound addr_of r.0) (λ r. IsSound addr_of r.0)
          (do_next_sb addr_of g v e) _ (do_next_sb-IsSound addr_of g v addressed s) λ r k. k)
  ]

  step_while-IsSound :
      (vs : List Env) {e : Exec Mem}
      → All (λ v. IsAddressed addr_of v.backend) vs
      → IsSound addr_of e
      → Ensures (λ r. IsSound addr_of r.0) (step_while vs e)
  unfolding step_while
  step_while-IsSound [] a s = s
  step_while-IsSound (v ∷ vs) {e} (a, rest) s =
      Ensures-bind (λ r. IsSound addr_of r.0) (λ r. IsSound addr_of r.0) (step_vsb addr_of g v e) _
        (step_vsb-IsSound v a s)
        λ r k. elim (Bool-cases r.1) [
          | inl more ↦ rw more (step_while-IsSound vs rest k)
          | inr last ↦ rw last k
        ]

  -- From a sound state, with translators that give a superblock the address that was asked for,
  -- a run through any sequence of rounds that does not stop the process ends in a sound state:
  -- coherent caches, and a trace as long as its counter, of at most TRACE_MAX + 1 entries.
  pub run-IsSound :
      (pc : ℕ) (vs : List Env) {e : Exec Mem}
      → All (λ v. IsAddressed addr_of v.backend) vs
      → IsSound addr_of e
      → Ensures (λ r. IsSound addr_of r.0) (run pc vs e)
  unfolding run begin_stepping
  run-IsSound pc vs a s =
      step_while-IsSound vs a
        (record { coherent = s.coherent; counted = s.counted; bounded = s.bounded })
