-- ===== src/Common/Tests.antt =====
-- Boolean tests on the native numbers and on byte strings, and the conditional.
use Prim.Native.Nat.{ℕ, ◌≤◌, ◌<◌, compare, Ordering}
use Prim.Native.Char.{code}
use Prim.Native.String.{String}
use mathlib.Core.Path.{◌≡◌, refl}
use mathlib.Core.Logic.{◌↔◌, ◌≢◌, ◌⊎◌, inl, inr}
use mathlib.Core.Bool.{Bool, true, false, ◌&&◌}
use mathlib.Core.Option.{Option, none, some}
use mathlib.Core.List.{List, [], ◌∷◌}
use native.Mathlib.Omega.{arith}

abbrev pub ltb : ℕ → ℕ → Bool
ltb a b = elim (compare a b) [ Ordering.lt ↦ true | _ ↦ false ]

abbrev pub leb : ℕ → ℕ → Bool
leb a b = elim (compare a b) [ Ordering.gt ↦ false | _ ↦ true ]

infix 50 ◌==◌ ◌==ᵇ◌
abbrev pub ◌==◌ : ℕ → ℕ → Bool
a == b = elim (compare a b) [ Ordering.eq ↦ true | _ ↦ false ]

infix 1 if◌then◌else◌
abbrev pub if◌then◌else◌ {ℓ} : {A : Type ℓ} → Bool → A → A → A
if true then x else y = x
if false then x else y = y

pub ltb→lt : (a b : ℕ) → ltb a b ≡ true → a < b
ltb→lt a b h = ground arith

pub lt→ltb : (a b : ℕ) → a < b → ltb a b ≡ true
lt→ltb a b h = ground arith

pub leb→le : (a b : ℕ) → leb a b ≡ true → a ≤ b
leb→le a b h = ground arith

pub le→leb : (a b : ℕ) → a ≤ b → leb a b ≡ true
le→leb a b h = ground arith

pub ltb-false : (a b : ℕ) → b ≤ a → ltb a b ≡ false
ltb-false a b h = ground arith

pub ==_self : (a : ℕ) → (a == a) ≡ true
==_self a = ground arith

pub ==_iff : (a b : ℕ) → ((a == b) ≡ true) ↔ (a ≡ b)
==_iff a b = ground arith

-- A predicate of a conditional, by its branches.
pub if_elim {ℓ ℓ'} :
    {A : Type ℓ} (P : A → Type ℓ') (b : Bool) {x y : A}
    → (b ≡ true → P x)
    → (b ≡ false → P y)
    → P (if b then x else y)
if_elim P true p q = p refl
if_elim P false p q = q refl

-- To split on a computed value and keep the equation.
pub Bool-cases : (b : Bool) → (b ≡ true) ⊎ (b ≡ false)
Bool-cases true = inl refl
Bool-cases false = inr refl

pub Option-cases {ℓ} : {A : Type ℓ} (o : Option A) → (o ≡ none) ⊎ ((a : A) × (o ≡ some a))
Option-cases none = inl refl
Option-cases (some a) = inr (a, refl)

-- The bytes of a text constant of the program; they are all ASCII.
abbrev pub codes : String → List ℕ
codes String.[] = []
codes (String.◌∷◌ c s) = code c ∷ codes s

-- `==` of `std::string`.
unfoldable pub ◌==ᵇ◌ : List ℕ → List ℕ → Bool
[] ==ᵇ [] = true
[] ==ᵇ (y ∷ ys) = false
(x ∷ xs) ==ᵇ [] = false
(x ∷ xs) ==ᵇ (y ∷ ys) = x == y && (xs ==ᵇ ys)

pub ==ᵇ_self : (xs : List ℕ) → (xs ==ᵇ xs) ≡ true
unfolding ◌==ᵇ◌
==ᵇ_self [] = refl
==ᵇ_self (x ∷ xs) = ground (arith, ==ᵇ_self xs)

pub ==ᵇ→eq : (xs ys : List ℕ) → (xs ==ᵇ ys) ≡ true → xs ≡ ys
unfolding ◌==ᵇ◌
==ᵇ→eq [] [] h = refl
==ᵇ→eq [] (y ∷ ys) h = cc
==ᵇ→eq (x ∷ xs) [] h = cc
==ᵇ→eq (x ∷ xs) (y ∷ ys) h = ground (arith, ==ᵇ→eq xs ys)

pub ==ᵇ_iff : (xs ys : List ℕ) → ((xs ==ᵇ ys) ≡ true) ↔ (xs ≡ ys)
==ᵇ_iff xs ys = (==ᵇ→eq xs ys, λ e. ground (arith, ==ᵇ_self xs))

pub ==ᵇ_ne : (xs ys : List ℕ) → xs ≢ ys → (xs ==ᵇ ys) ≡ false
==ᵇ_ne xs ys n = elim (Bool-cases (xs ==ᵇ ys)) [ inl e ↦ absurd (n (==ᵇ→eq xs ys e)) | inr e ↦ e ]
