-- ===== src/Core/Flow.antt =====
-- A function body with early returns: each step goes on with a value or returns a result.
use galculus.Common.{Bool, true, false, Option, none, some, ◌≡◌, refl}

-- An early `return` of a result, or a value to go on with.
pub data Flow {ℓ} (R A : Type ℓ) : Type ℓ where
  stop : R → Flow R A
  next : A → Flow R A

infixl 5 ◌>>=◌ ◌>>◌
abbrev pub ◌>>=◌ {ℓ} : {R A B : Type ℓ} → Flow R A → (A → Flow R B) → Flow R B
stop r >>= f = stop r
next a >>= f = f a

abbrev pub ◌>>◌ {ℓ} : {R A B : Type ℓ} → Flow R A → Flow R B → Flow R B
m >> k = m >>= (λ _. k)

abbrev pub returned {ℓ} : {R : Type ℓ} → Flow R R → R
returned (stop r) = r
returned (next r) = r

abbrev pub or_return {ℓ} : {R A : Type ℓ} → Option A → R → Flow R A
or_return none r = stop r
or_return (some a) r = next a

abbrev pub unless_return : {R : Type 0} → Bool → R → Flow R (Unit {0})
unless_return true r = next tt
unless_return false r = stop r

-- A body that returned `g`, where `r` would have been an error and `g` is none, got past the step.
pub data Passed {A R : Type 0} (o : Option A) (f : A → Flow R R) (g : R) : Type 0 where
  passing : (a : A) → o ≡ some a → returned (f a) ≡ g → Passed o f g

pub data Tested {R : Type 0} (b : Bool) (k : Flow R R) (g : R) : Type 0 where
  testing : b ≡ true → returned k ≡ g → Tested b k g

module _ {R : Type 0} (ok : R → Bool) where
  pub passed :
      {A : Type 0} (o : Option A) (r : R) (f : A → Flow R R) {g : R}
      → returned (or_return o r >>= f) ≡ g
      → ok g ≡ true
      → ok r ≡ false
      → Passed o f g
  passed none r f e good bad = cc
  passed (some a) r f e good bad = passing a refl e

  pub tested :
      (b : Bool) (r : R) (k : Flow R R) {g : R}
      → returned (unless_return b r >> k) ≡ g
      → ok g ≡ true
      → ok r ≡ false
      → Tested b k g
  tested false r k e good bad = cc
  tested true r k e good bad = testing refl e
