-- ===== src/Vex/Vector/Saturate/Limits.antt =====
-- src/vexop.cc: the lanes of OPSATS_AS_EMIT and OPSATU_AS_EMIT.
use vexllvm.Base.{ℕ, ◌+◌, ◌%◌, ◌^◌, ◌<◌, ◌≤◌, ◌≡◌, if◌then◌else◌}
use vexllvm.Vex.Llvm.{
  int, vec, Builder, Binary, Cast, zext, sext, add, sub, icmp_sgt, icmp_slt, icmp_ugt,
}
use vexllvm.Vex.Llvm.Words.{word, cast, test, IsDefined}
use vexllvm.Vex.Llvm.Documented.{IsDocumented}
use vexllvm.Vex.Llvm.Scalars.{IsWord, IsWord-constant, IsWord-cast, IsWord-select, IsWord-trunc}
use vexllvm.Vex.Vector.Lanes.Loop.{
  IsVector-cast, IsVector-create, IsVector-bit_cast, IsVector-element, IsVector-fill,
}
use vexllvm.Vex.Vector.Saturate
use vexllvm.Vex.Vector.Saturate.Clamped.{
  signed_limit, signed_round, unsigned_add_round, unsigned_sub_round,
}

module _ {V : Type 0} (b : Builder V) where
  -- A lane of an operand, read as the opcode's vector.
  abbrev pub operand : V → ℕ → ℕ → ℕ → ℕ
  operand v n w i = b.lane (b.create_bit_cast v (vec n w)) i

module _ {V : Type 0} {b : Builder V} (laws : IsDocumented b) where
  pub operand-bound : (v : V) (n w i : ℕ) → operand b v n w i < 2 ^ w
  operand-bound v n w i =
      let bound = laws.lane-bound (b.create_bit_cast v (vec n w)) i in
      let type = laws.bit_cast-type v (vec n w) in rw type at bound

  -- A bound of the clamp: a constant of w bits, brought to the wider lanes.
  limit :
      (c : Cast) (w x u : ℕ)
      → IsWord b (b.create_cast c (b.constant w x) (int u)) u (cast c w u (x % 2 ^ w))
  limit c w x u = IsWord-cast laws c u (IsWord-constant laws w x)

  opsat_lanes :
      (ext : Cast) (op : Binary) (n w : ℕ) (one two : V → V) (v1 v2 : V) (g : ℕ → ℕ)
      → ((x y : ℕ) → IsDefined op (w + 1) x y)
      → n ≤ 2 ^ 32
      → ((v : V) (e : ℕ) → IsWord b v (w + 1) e → IsWord b (two (one v)) (w + 1) (g e))
      → (i : ℕ) → i < n
      → b.lane (Saturate.opsat b (vec n w) ext (vec n (w + 1)) op one two v1 v2) i
        ≡ g (
            word op
              (w + 1)
              (cast ext w (w + 1) (operand b v1 n w i))
              (cast ext w (w + 1) (operand b v2 n w i)))
          % 2 ^ w
  unfolding Saturate.opsat
  opsat_lanes ext op n w one two v1 v2 g defined large limits =
      let x = IsVector-cast laws ext (w + 1) (IsVector-bit_cast laws v1 n w) in
      let y = IsVector-cast laws ext (w + 1) (IsVector-bit_cast laws v2 n w) in
      let partial = IsVector-create laws op defined x y in
      let result =
        IsVector-fill laws n w _ _ large
          λ j l. IsWord-trunc laws w (limits _ _ (IsVector-element laws j large partial l)) in
      result.holds

  signed_limits :
      (n w f g : ℕ) (v : V) (e : ℕ)
      → IsWord b v (w + 1) e
      → IsWord b
          (Saturate.slow b w g sext icmp_slt
            (vec n (w + 1))
            (Saturate.shigh b w f sext icmp_sgt (vec n (w + 1)) v))
          (w + 1)
          (signed_limit w f g e)
  unfolding Saturate.slow Saturate.shigh
  signed_limits n w f g v e h =
      let hi = limit sext w f (w + 1) in
      let lo = limit sext w g (w + 1) in
      let below = IsWord-select laws icmp_sgt h hi hi h in
      IsWord-select laws icmp_slt below lo lo below

  high_limit :
      (n w f : ℕ) (v : V) (e : ℕ)
      → IsWord b v (w + 1) e
      → IsWord b (Saturate.shigh b w f zext icmp_ugt (vec n (w + 1)) v) (w + 1) (
          if test icmp_ugt (w + 1) e (cast zext w (w + 1) (f % 2 ^ w))
          then cast zext w (w + 1) (f % 2 ^ w)
          else e)
  unfolding Saturate.shigh
  high_limit n w f v e h = let hi = limit zext w f (w + 1) in IsWord-select laws icmp_ugt h hi hi h

  low_limit :
      (n w g : ℕ) (v : V) (e : ℕ)
      → IsWord b v (w + 1) e
      → IsWord b (Saturate.slow b w g zext icmp_slt (vec n (w + 1)) v) (w + 1) (
          if test icmp_slt (w + 1) e (cast zext w (w + 1) (g % 2 ^ w))
          then cast zext w (w + 1) (g % 2 ^ w)
          else e)
  unfolding Saturate.slow
  low_limit n w g v e h = let lo = limit zext w g (w + 1) in IsWord-select laws icmp_slt h lo lo h

  pub signed_lane :
      (op : Binary) (n w f g : ℕ) (v1 v2 : V)
      → ((x y : ℕ) → IsDefined op (w + 1) x y)
      → n ≤ 2 ^ 32
      → (i : ℕ) → i < n
      → b.lane (Saturate.opsats b op (vec n w) (vec n (w + 1)) w f g v1 v2) i
        ≡ signed_round op w f g (operand b v1 n w i) (operand b v2 n w i)
  unfolding Saturate.opsats
  signed_lane op n w f g v1 v2 defined large =
      opsat_lanes sext op n w _ _ v1 v2 (signed_limit w f g) defined large (signed_limits n w f g)

  pub unsigned_add_lane :
      (n w f : ℕ) (v1 v2 : V)
      → n ≤ 2 ^ 32
      → (i : ℕ) → i < n
      → b.lane (Saturate.opsatu_add b (vec n w) (vec n (w + 1)) w f v1 v2) i
        ≡ unsigned_add_round w f (operand b v1 n w i) (operand b v2 n w i)
  unfolding Saturate.opsatu_add IsDefined
  unsigned_add_lane n w f v1 v2 large =
      opsat_lanes zext add n w _ _ v1 v2 _ (λ x y. tt) large (high_limit n w f)

  pub unsigned_sub_lane :
      (n w g : ℕ) (v1 v2 : V)
      → n ≤ 2 ^ 32
      → (i : ℕ) → i < n
      → b.lane (Saturate.opsatu_sub b (vec n w) (vec n (w + 1)) w g v1 v2) i
        ≡ unsigned_sub_round w g (operand b v1 n w i) (operand b v2 n w i)
  unfolding Saturate.opsatu_sub IsDefined
  unsigned_sub_lane n w g v1 v2 large =
      opsat_lanes zext sub n w _ _ v1 v2 _ (λ x y. tt) large (low_limit n w g)
