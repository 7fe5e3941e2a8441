-- ===== src/Support/Floats.antt =====
-- support/vexops.c: the floating-point operations, over the comparisons of the C compiler.
use vexllvm.Base.{◌≡◌, Bool, true, false, if◌then◌else◌, arith}

-- IRCmpF64Result
pub data Comparison : Type 0 where
  un lt gt eq : Comparison

-- A floating-point type with `==`, `<`, `>` and unary minus.
pub record Floats : Type 1 where
  pub Float : Type 0
  pub zero : Float
  pub same : Float → Float → Bool
  pub less : Float → Float → Bool
  pub greater : Float → Float → Bool
  pub negate : Float → Float

module _ (f : Floats) where
  open f use {Float, zero, same, less, greater, negate}

  -- vexop_cmpf64, and vexop_cmpf32 of the other type
  unfoldable pub cmpf : Float → Float → Comparison
  cmpf f1 f2 =
      if same f1 f2 then eq else if less f1 f2 then lt else if greater f1 f2 then gt else un

  -- vexop_minf64
  unfoldable pub minf : Float → Float → Float
  minf f1 f2 = if less f1 f2 then f1 else f2

  -- vexop_maxf32
  unfoldable pub maxf : Float → Float → Float
  maxf f1 f2 = if greater f1 f2 then f1 else f2

  -- vexop_absf64, and vexop_absf32 of the other type
  unfoldable pub absf : Float → Float
  absf x = if less x zero then negate x else x

  -- The comparison the other way round.
  abbrev pub flip : Comparison → Comparison
  flip un = un
  flip lt = gt
  flip gt = lt
  flip eq = eq

  -- What IEEE 754 says of comparisons: they read the same from both sides, and exclude one
  -- another.
  pub record IsIeee : Type 0 where
    pub same_sym : (x y : Float) → same x y ≡ same y x
    pub less_greater : (x y : Float) → less x y ≡ greater y x
    pub not_both : (x y : Float) → less x y ≡ true → greater x y ≡ false

  -- With what IEEE 754 says of comparisons, the comparison of two floats the other way round
  -- has less and greater exchanged, and is equal or unordered alike.
  pub cmpf-flip : IsIeee → (x y : Float) → cmpf y x ≡ flip (cmpf x y)
  unfolding cmpf
  cmpf-flip ieee x y = ground (
    arith,
    ieee.same_sym x y,
    ieee.less_greater x y,
    ieee.less_greater y x,
    ieee.not_both x y,
    ieee.not_both y x,
  )
