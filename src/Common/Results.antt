-- ===== src/Common/Results.antt =====
-- Exceptions and state. A computation over a state ends with a value or an exception, and either
-- way with the state as the code has left it: what ran before a `throw` is not undone.
use Prim.Native.Nat.{ℕ}
use mathlib.Core.Path.{◌≡◌, refl}
use native.Mathlib.Omega.{arith}

-- The exception types of the standard library that the code throws, and two ends that are none:
-- `terminate`, after a destructor has thrown, and `undefined`, from where on the C++ standard says
-- nothing of the run.
pub data Error : Type 0 where
  overflow_error : Error
  invalid_argument : Error
  out_of_range : Error
  runtime_error : Error
  system_error : ℕ → Error
  terminate : Error
  undefined : Error

pub data Result {ℓ} (A : Type ℓ) : Type ℓ where
  ok : A → Result A
  throw : Error → Result A

abbrev pub Eff : Type 0 → Type 0 → Type 0
Eff S A = S → Result A × S

abbrev pub and_then : {S A B : Type 0} → Result A × S → (A → Eff S B) → Result B × S
and_then (ok a, s) k = k a s
and_then (throw e, s) k = (throw e, s)

infixl 5 ◌>>=◌ ◌>>◌
abbrev pub ◌>>=◌ : {S A B : Type 0} → Eff S A → (A → Eff S B) → Eff S B
◌>>=◌ m k s = and_then (m s) k

abbrev pub ◌>>◌ : {S A B : Type 0} → Eff S A → Eff S B → Eff S B
m >> k = m >>= λ _. k

abbrev pub pure : {S A : Type 0} → A → Eff S A
pure a s = (ok a, s)

abbrev pub raise : {S A : Type 0} → Error → Eff S A
raise e s = (throw e, s)

-- An exception of a part is the exception of the whole, in the state where it was thrown.
pub and_then-throw :
    {S A B : Type 0} {r : Result A × S} {e : Error} (k : A → Eff S B)
    → r.0 ≡ throw e
    → and_then r k ≡ (throw e, r.1)
and_then-throw {r} k h = ground arith

-- What holds of the state after a step and is kept by the continuation holds after both.
pub and_then-keeps {ℓ} :
    {S A B : Type 0} (P : S → Type ℓ) (r : Result A × S) (k : A → Eff S B)
    → P r.1
    → ((x : A) (s : S) → P s → P (k x s).1)
    → P (and_then r k).1
and_then-keeps P (ok x, s) k here there = there x s here
and_then-keeps P (throw e, s) k here there = here

pub and_then_assoc :
    {S A B C : Type 0} (r : Result A × S) (k : A → Eff S B) (j : B → Eff S C)
    → and_then (and_then r k) j ≡ and_then r (λ a s. and_then (k a s) j)
and_then_assoc (ok a, s) k j = refl
and_then_assoc (throw e, s) k j = refl

pub and_then-ok :
    {S A B : Type 0} {r : Result A × S} {a : A} (k : A → Eff S B)
    → r.0 ≡ ok a
    → and_then r k ≡ k a r.1
and_then-ok {r} k h = ground arith

-- An outcome is its value with the state that it leaves.
pub value_and_state : {S A : Type 0} (r : Result A × S) {a : A} → r.0 ≡ ok a → r ≡ (ok a, r.1)
value_and_state r h i = (h i, r.1)
