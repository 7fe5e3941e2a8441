-- ===== src/Superblock/Imarks.antt =====
-- src/vexsb.cc: the extents of the instructions, and the end of the superblock.
use vexllvm.Base.{ℕ, All, ◌<◌, ◌≡◌, ◌≢◌, true, List, [], ◌∷◌, Option, some}
use vexllvm.Vex.Stmts.{ExitKind}
use vexllvm.Superblock.Load.{
  Stmt, imark, put, put_i, wr_tmp, Superblock, store, exit, cas, llsc, dirty, store_g, load_g,
  unknown_tag, stopped, made,
}

-- The last of the extents, or what was there before.
abbrev pub last_extent : List (ℕ × ℕ) → Option (ℕ × ℕ) → Option (ℕ × ℕ)
last_extent [] last = last
last_extent (x ∷ l) last = last_extent l (some x)

-- A statement whose constructor returns: the expressions can be created, and those of Put and PutI
-- are there; an exit has one of the jump kinds that are named, a helper is found, a guarded
-- access is little-endian. An instruction's length fits in its byte.
abbrev pub IsLoadable : Stmt → Type 0
IsLoadable (imark addr len) = len < 256
IsLoadable (put d) = d ≡ made
IsLoadable (put_i i d) = (i ≡ made) × (d ≡ made)
IsLoadable (wr_tmp e) = e ≢ stopped
IsLoadable (store a d) = (a ≢ stopped) × (d ≢ stopped)
IsLoadable (exit g jk) = (g ≢ stopped) × (jk ≢ ExitKind.unexpected)
IsLoadable (cas l) = All (λ e. e ≢ stopped) l
IsLoadable (llsc l) = All (λ e. e ≢ stopped) l
IsLoadable (dirty g f l) = (g ≢ stopped) × (f ≡ true) × All (λ e. e ≢ stopped) l
IsLoadable (store_g le l) = (le ≡ true) × All (λ e. e ≢ stopped) l
IsLoadable (load_g le l) = (le ≡ true) × All (λ e. e ≢ stopped) l
IsLoadable unknown_tag = ⊥
IsLoadable s = Unit
