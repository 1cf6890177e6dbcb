-- ===== src/Common/Slices.antt =====
-- Front and back parts of lists that are put together.
use Prim.Native.Nat.{ℕ, zero, suc, ◌+◌, ◌≤◌}
use Prim.Native.Nat.add
use mathlib.Core.Path.{◌≡◌, refl, ap, ◌∙◌}
use mathlib.Core.List.{List, [], ◌∷◌, ◌++◌}
use native.Mathlib.Omega.{arith}
use galculus.Common.Lists.{length, take, drop, replicate}

module _ {ℓ} {A : Type ℓ} where
  pub take-append_left : (m : ℕ) (xs ys : List A) → m ≤ length xs → take m (xs ++ ys) ≡ take m xs
  take-append_left zero xs ys h = refl
  take-append_left (suc m) [] ys h = elim h [ ]
  take-append_left (suc m) (x ∷ xs) ys h = ap (◌∷◌ x) (take-append_left m xs ys (omega arith))

  pub drop-append_left :
      (m : ℕ) (xs ys : List A) → m ≤ length xs → drop m (xs ++ ys) ≡ drop m xs ++ ys
  drop-append_left zero xs ys h = refl
  drop-append_left (suc m) [] ys h = elim h [ ]
  drop-append_left (suc m) (x ∷ xs) ys h = drop-append_left m xs ys (omega arith)

  pub take-long : (n : ℕ) (xs : List A) → length xs ≤ n → take n xs ≡ xs
  take-long zero [] h = refl
  take-long zero (x ∷ xs) h = elim h [ ]
  take-long (suc n) [] h = refl
  take-long (suc n) (x ∷ xs) h = ap (◌∷◌ x) (take-long n xs (omega arith))

  pub drop_all : (n : ℕ) (xs : List A) → length xs ≤ n → drop n xs ≡ []
  drop_all zero [] h = refl
  drop_all zero (x ∷ xs) h = elim h [ ]
  drop_all (suc n) [] h = refl
  drop_all (suc n) (x ∷ xs) h = drop_all n xs (omega arith)

  pub length-replicate : (n : ℕ) (v : A) → length (replicate n v) ≡ n
  length-replicate zero v = refl
  length-replicate (suc n) v = ap suc (length-replicate n v)

  pub take-append_right :
      (xs ys : List A) (k : ℕ) → take (length xs + k) (xs ++ ys) ≡ xs ++ take k ys
  take-append_right [] ys k = ap (λ (t : ℕ). take t ys) (add.zero k)
  take-append_right (x ∷ xs) ys k =
      ap (λ (t : ℕ). take t (x ∷ xs ++ ys)) (add.suc (length xs) k)
      ∙ ap (◌∷◌ x) (take-append_right xs ys k)
