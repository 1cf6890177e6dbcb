-- ===== src/Common/Dict.antt =====
-- `std::unordered_map` with string keys: an association list. The order of the list stands for the
-- order of iteration, which C++ leaves open; a new key goes to the end.
use Prim.Native.Nat.{ℕ, suc}
use mathlib.Core.Path.{◌≡◌, refl, sym}
use mathlib.Core.Logic.{◌≢◌, inl, inr}
use mathlib.Core.Option.{Option, none, some}
use mathlib.Core.List.{List, [], ◌∷◌, map}
use native.Mathlib.Omega.{arith}
use galculus.Common.Tests.{Bool-cases, ◌==ᵇ◌, ==ᵇ_iff, ==ᵇ_self, ==ᵇ_ne, if◌then◌else◌}
use galculus.Common.Lists.{length, All}

abbrev pub Dict {ℓ} : Type ℓ → Type ℓ
Dict V = List (List ℕ × V)

module _ {ℓ} {V : Type ℓ} where
  -- `find`
  unfoldable pub lookup : List ℕ → Dict V → Option V
  lookup k [] = none
  lookup k ((j, v) ∷ m) = if j ==ᵇ k then some v else lookup k m

  -- `m[k] = v`
  unfoldable pub insert : List ℕ → V → Dict V → Dict V
  insert k v [] = (k, v) ∷ []
  insert k v ((j, w) ∷ m) = if j ==ᵇ k then (j, v) ∷ m else (j, w) ∷ insert k v m

  -- `erase`
  unfoldable pub erase : List ℕ → Dict V → Dict V
  erase k [] = []
  erase k ((j, w) ∷ m) = if j ==ᵇ k then m else (j, w) ∷ erase k m

  abbrev pub keys : Dict V → List (List ℕ)
  keys = map λ e. e.0

  -- `k` is none of the keys.
  abbrev pub Fresh : List ℕ → Dict V → Type 0
  Fresh k = All (λ e. e.0 ≢ k)

  -- No key stands twice.
  abbrev pub IsDict : Dict V → Type 0
  IsDict [] = Unit {0}
  IsDict ((j, v) ∷ m) = Fresh j m × IsDict m

  pub lookup-insert :
      (k j : List ℕ) (v : V) (m : Dict V)
      → lookup j (insert k v m) ≡ (if k ==ᵇ j then some v else lookup j m)
  unfolding lookup insert
  lookup-insert k j v [] = refl
  lookup-insert k j v ((i, w) ∷ m) =
      ground (arith, ==ᵇ_iff k j, ==ᵇ_iff i k, ==ᵇ_iff i j, lookup-insert k j v m)

  pub lookup-insert_self : (k : List ℕ) (v : V) (m : Dict V) → lookup k (insert k v m) ≡ some v
  lookup-insert_self k v m = ground (arith, lookup-insert k k v m, ==ᵇ_self k)

  pub lookup-insert_ne :
      (k j : List ℕ) (v : V) (m : Dict V) → k ≢ j → lookup j (insert k v m) ≡ lookup j m
  lookup-insert_ne k j v m n = ground (arith, lookup-insert k j v m, ==ᵇ_ne k j n)

  pub lookup-Fresh : (k : List ℕ) (m : Dict V) → Fresh k m → lookup k m ≡ none
  unfolding lookup
  lookup-Fresh k [] f = refl
  lookup-Fresh k ((j, w) ∷ m) f = ground (arith, lookup-Fresh k m f.1, ==ᵇ_ne j k f.0)

  pub lookup-erase_self : (k : List ℕ) (m : Dict V) → IsDict m → lookup k (erase k m) ≡ none
  unfolding lookup erase
  lookup-erase_self k [] d = refl
  lookup-erase_self k ((j, w) ∷ m) d =
      ground (arith, ==ᵇ_iff j k, lookup-Fresh j m d.0, lookup-erase_self k m d.1)

  pub lookup-erase_ne : (k j : List ℕ) (m : Dict V) → k ≢ j → lookup j (erase k m) ≡ lookup j m
  unfolding lookup erase
  lookup-erase_ne k j [] n = refl
  lookup-erase_ne k j ((i, w) ∷ m) n =
      ground (arith, ==ᵇ_iff i k, ==ᵇ_iff i j, lookup-erase_ne k j m n)

  pub insert-Fresh :
      (k j : List ℕ) (v : V) (m : Dict V) → k ≢ j → Fresh j m → Fresh j (insert k v m)
  unfolding insert
  insert-Fresh k j v [] n f = (n, tt)
  insert-Fresh k j v ((i, w) ∷ m) n f = ground (arith, insert-Fresh k j v m n f.1)

  pub erase-Fresh : (k j : List ℕ) (m : Dict V) → Fresh j m → Fresh j (erase k m)
  unfolding erase
  erase-Fresh k j [] f = tt
  erase-Fresh k j ((i, w) ∷ m) f = ground (arith, erase-Fresh k j m f.1)

  pub insert-IsDict : (k : List ℕ) (v : V) (m : Dict V) → IsDict m → IsDict (insert k v m)
  unfolding insert
  insert-IsDict k v [] d = (tt, tt)
  insert-IsDict k v ((i, w) ∷ m) d = elim (Bool-cases (i ==ᵇ k)) [
    | inl e ↦ rw e d
    | inr e ↦ rw e (
      insert-Fresh k i v m (λ same. ground (arith, ==ᵇ_iff i k, sym same)) d.0,
      insert-IsDict k v m d.1,
    )
  ]

  pub erase-IsDict : (k : List ℕ) (m : Dict V) → IsDict m → IsDict (erase k m)
  unfolding erase
  erase-IsDict k [] d = tt
  erase-IsDict k ((i, w) ∷ m) d = ground (arith, erase-Fresh k i m d.0, erase-IsDict k m d.1)

  pub length-insert_fresh :
      (k : List ℕ) (v : V) (m : Dict V) → lookup k m ≡ none → length (insert k v m) ≡ suc (length m)
  unfolding insert lookup
  length-insert_fresh k v [] e = refl
  length-insert_fresh k v ((j, w) ∷ m) e = ground (arith, length-insert_fresh k v m)

  pub length-insert_found :
      (k : List ℕ) (v w : V) (m : Dict V) → lookup k m ≡ some w → length (insert k v m) ≡ length m
  unfolding insert lookup
  length-insert_found k v w [] e = cc
  length-insert_found k v w ((j, x) ∷ m) e = ground (arith, length-insert_found k v w m)

  pub length-erase :
      (k : List ℕ) (m : Dict V) (v : V) → lookup k m ≡ some v → suc (length (erase k m)) ≡ length m
  unfolding erase lookup
  length-erase k [] v e = cc
  length-erase k ((j, w) ∷ m) v e = ground (arith, length-erase k m v)

  -- A new entry can be taken out again.
  pub erase-insert :
      (k : List ℕ) (v : V) (m : Dict V) → lookup k m ≡ none → erase k (insert k v m) ≡ m
  unfolding erase insert lookup
  erase-insert k v [] e = ground (arith, ==ᵇ_self k)
  erase-insert k v ((j, w) ∷ m) e = ground (arith, erase-insert k v m)
