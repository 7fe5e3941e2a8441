-- ===== src/Base/Results.antt =====
-- Results of code that can stop the process: a failed `assert`, `exit`, or undefined behaviour.
use mathlib.Core.Path.{◌≡◌}
use mathlib.Core.Option.{Option, none, some}

pub data Fault : Type 0 where
  -- `assert` was given a false condition
  assertion : Fault
  -- a remainder by zero
  division : Fault
  -- an iteration ran past the end of its container
  past_end : Fault
  -- memory was used or freed after it had been freed
  use_after_free : Fault
  -- `exit(1)` after a signal that is not a write to translated code
  signal_exit : Fault
  -- the process ends after the guest and the native process differ
  mismatch_exit : Fault
  -- exit of a checker whose guest jumped to an unmapped address
  bad_address_exit : Fault

pub data Result {ℓ} (A : Type ℓ) : Type ℓ where
  ok : A → Result A
  fault : Fault → Result A

infixl 5 ◌>>=◌
-- The first fault ends the rest of the call.
abbrev pub ◌>>=◌ {ℓ ℓ'} : {X : Type ℓ} {Y : Type ℓ'} → Result X → (X → Result Y) → Result Y
ok value >>= rest = rest value
fault why >>= rest = fault why

-- A pointer that the code asserts to be non-null.
abbrev pub assert_some {ℓ} : {A : Type ℓ} → Option A → Result A
assert_some none = fault assertion
assert_some (some a) = ok a

-- What holds of the value, if there is one.
abbrev pub Ensures {ℓ κ} : {A : Type ℓ} → (A → Type κ) → Result A → Type κ
Ensures P (ok a) = P a
Ensures P (fault e) = Unit

pub Ensures-bind {ℓ κ} :
    {A B : Type ℓ} (P : A → Type κ) (Q : B → Type κ) (m : Result A) (f : A → Result B)
    → Ensures P m
    → ((a : A) → P a → Ensures Q (f a))
    → Ensures Q (m >>= f)
Ensures-bind P Q (ok a) f h k = k a h
Ensures-bind P Q (fault e) f h k = tt

pub Ensures-mono {ℓ κ} :
    {A : Type ℓ} (P Q : A → Type κ) (m : Result A)
    → ((a : A) → P a → Q a)
    → Ensures P m
    → Ensures Q m
Ensures-mono P Q (ok a) k h = k a h
Ensures-mono P Q (fault e) k h = tt

pub Ensures-ok {ℓ κ} :
    {A : Type ℓ} (P : A → Type κ) {m : Result A} {a : A} → m ≡ ok a → Ensures P m → P a
Ensures-ok P e h = rw e at h

pub Ensures-trivial {ℓ} : {A : Type ℓ} (m : Result A) → Ensures (λ (_ : A). Unit {0}) m
Ensures-trivial (ok a) = tt
Ensures-trivial (fault e) = tt
