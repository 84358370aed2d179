-- ===== src/Common/Frames.antt =====
-- Computations that leave what an observation shows of the state, one rule for each way to build one.
use mathlib.Core.Path.{◌≡◌, refl, ◌∙◌}
use mathlib.Core.Bool.{Bool, true, false}
use libload.Common.Tests.{if◌then◌else◌}
use libload.Common.Results.{Error, Result, ok, throw, Eff, and_then, ◌>>=◌, ◌>>◌, pure, raise}

-- Whether it returns or throws, `m` leaves what `obs` shows.
pub record Leaves {S X A : Type 0} (obs : S → X) (m : Eff S A) : Type 0 where
  pub at : (s : S) → obs (m s).1 ≡ obs s

module _ {S X : Type 0} where
  -- The rest is needed only for what the first part has returned, in the state that it has left.
  pub after_leaves :
      {A B : Type 0} (obs : S → X) (r : Result A × S) (k : A → Eff S B) (x : X)
      → obs r.1 ≡ x
      → ((a : A) → r.0 ≡ ok a → obs (k a r.1).1 ≡ obs r.1)
      → obs (and_then r k).1 ≡ x
  after_leaves obs (ok a, s) k x here there = there a refl ∙ here
  after_leaves obs (throw e, s) k x here there = here

module _ {S X : Type 0} {obs : S → X} where
  pub Leaves-pure : {A : Type 0} (a : A) → Leaves obs (pure a)
  Leaves-pure a = record { at = λ s. refl }

  pub Leaves-raise : {A : Type 0} (e : Error) → Leaves obs (raise {A = A} e)
  Leaves-raise e = record { at = λ s. refl }

  pub Leaves-if :
      {A : Type 0} (b : Bool) (m n : Eff S A)
      → Leaves obs m
      → Leaves obs n
      → Leaves obs (if b then m else n)
  Leaves-if true m n hm hn = hm
  Leaves-if false m n hm hn = hn

  pub Leaves-bind :
      {A B : Type 0} {m : Eff S A} {k : A → Eff S B}
      → Leaves obs m
      → ((a : A) → Leaves obs (k a))
      → Leaves obs (m >>= k)
  Leaves-bind {m} {k} hm hk = record {
    at = λ s. after_leaves obs (m s) k _ (hm.at s) (λ a e. (hk a).at (m s).1);
  }

  pub Leaves-then :
      {A B : Type 0} {m : Eff S A} {n : Eff S B} → Leaves obs m → Leaves obs n → Leaves obs (m >> n)
  Leaves-then hm hn = Leaves-bind hm (λ a. hn)

-- If `m` returns, it returns `a`.
pub record Yields {S A : Type 0} (a : A) (m : Eff S A) : Type 0 where
  pub at : (s : S) (b : A) → (m s).0 ≡ ok b → b ≡ a

module _ {S A : Type 0} {a : A} where
  pub Yields-pure : Yields {S = S} a (pure a)
  Yields-pure = record { at = λ s b h. cc }

  after-Yields :
      {B : Type 0} (r : Result B × S) (k : B → Eff S A) (b : A)
      → ((x : B) → Yields a (k x))
      → (and_then r k).0 ≡ ok b
      → b ≡ a
  after-Yields (ok x, s) k b hk h = (hk x).at s b h
  after-Yields (throw e, s) k b hk h = absurd (cc)

  pub Yields-bind :
      {B : Type 0} (m : Eff S B) {k : B → Eff S A} → ((x : B) → Yields a (k x)) → Yields a (m >>= k)
  Yields-bind m {k} hk = record { at = λ s b h. after-Yields (m s) k b hk h }
