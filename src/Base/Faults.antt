-- ===== src/Base/Faults.antt =====
-- The outcome of C++ code that may run into undefined behaviour or a failed assertion.
use mathlib.Core.Path.{◌≡◌, subst}

pub data Fault : Type 0 where
  null_deref dangling assert_failed deep_recursion no_frame out_of_bounds : Fault

pub data Outcome {ℓ} (A : Type ℓ) : Type ℓ where
  ok : A → Outcome A
  fault : Fault → Outcome A

infixl 5 ◌>>=◌ ◌>>◌
abbrev pub ◌>>=◌ {ℓ κ} : {A : Type ℓ} {B : Type κ} → Outcome A → (A → Outcome B) → Outcome B
ok a >>= f = f a
fault e >>= f = fault e

abbrev pub ◌>>◌ {ℓ} : {B : Type ℓ} → Outcome (Unit {0}) → Outcome B → Outcome B
m >> k = m >>= λ _. k

-- The postcondition `P` holds of the result, if there is one.
pub data Ensures {ℓ} {A : Type ℓ} (P : A → Type 0) : Outcome A → Type ℓ where
  ensures : {a : A} → P a → Ensures P (ok a)
  faulted : {e : Fault} → Ensures P (fault e)

module _ {ℓ} {A : Type ℓ} {P : A → Type 0} where
  pub bind {κ} :
      {B : Type κ} {Q : B → Type 0} {r : Outcome A} {k : A → Outcome B}
      → Ensures P r
      → ((a : A) → P a → Ensures Q (k a))
      → Ensures Q (r >>= k)
  bind (ensures p) next = next _ p
  bind faulted next = faulted

  pub of_ok : {r : Outcome A} {a : A} → Ensures P r → r ≡ ok a → P a
  of_ok (ensures p) e = subst P (cc) p
  of_ok faulted e = cc

-- Two things that hold of one result
pub both {ℓ} :
    {A : Type ℓ} {P Q R : A → Type 0} {r : Outcome A}
    → Ensures P r
    → Ensures Q r
    → ((a : A) → P a → Q a → R a)
    → Ensures R r
both (ensures p) (ensures q) f = ensures (f _ p q)
both faulted q f = faulted

pub joined {ℓ} :
    {A : Type ℓ} {P Q : A → Type 0} {r : Outcome A}
    → Ensures P r
    → Ensures Q r
    → Ensures (λ a. P a × Q a) r
joined p q = both p q (λ a x y. (x, y))
