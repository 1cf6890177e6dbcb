-- ===== src/Memory/Pool/Marks.antt =====
-- Counting: how often an index is in the free list, and how many flags are set.
use galculus.Common.{
  ℕ, zero, suc, ◌+◌, ◌-◌, ◌≤◌, ◌<◌, ◌≡◌, ◌≢◌, refl, ap, arith, Bool, true, false, ltb, ◌==◌, List,
  [], ◌∷◌, get_or, set, length, replicate,
}
use galculus.Memory.Pool.{push_indices}

abbrev pub bit : Bool → ℕ
bit false = 0
bit true = 1

abbrev pub occurrences : ℕ → List ℕ → ℕ
occurrences i [] = 0
occurrences i (x ∷ xs) = bit (i == x) + occurrences i xs

abbrev pub trues : List Bool → ℕ
trues [] = 0
trues (b ∷ bs) = bit b + trues bs

pub trues-le : (bs : List Bool) → trues bs ≤ length bs
trues-le [] = omega arith
trues-le (false ∷ bs) = omega (arith, trues-le bs)
trues-le (true ∷ bs) = omega (arith, trues-le bs)

pub trues-set :
    (bs : List Bool) (i : ℕ) (b : Bool)
    → i < length bs
    → trues (set bs i b) + bit (get_or bs i true) ≡ trues bs + bit b
trues-set [] i b h = absurd (omega arith)
trues-set (c ∷ bs) zero b h = omega arith
trues-set (c ∷ bs) (suc i) b h = omega (arith, trues-set bs i b (omega arith))

pub trues-lt : (bs : List Bool) (i : ℕ) → get_or bs i true ≡ false → trues bs < length bs
trues-lt [] i e = cc
trues-lt (b ∷ bs) zero e = omega (arith, trues-le bs, ap bit e)
trues-lt (false ∷ bs) (suc i) e = omega (arith, trues-lt bs i e)
trues-lt (true ∷ bs) (suc i) e = omega (arith, trues-lt bs i e)

pub trues_all : (bs : List Bool) → ((i : ℕ) → get_or bs i true ≡ true) → trues bs ≡ length bs
trues_all [] h = refl
trues_all (b ∷ bs) h = omega (arith, ap bit (h 0), trues_all bs (λ i. h (suc i)))

pub trues-replicate : (n : ℕ) → trues (replicate n false) ≡ 0
trues-replicate zero = refl
trues-replicate (suc n) = omega (arith, trues-replicate n)

pub get_or-set_self :
    (bs : List Bool) (i : ℕ) (b : Bool) → i < length bs → get_or (set bs i b) i true ≡ b
get_or-set_self [] i b h = absurd (omega arith)
get_or-set_self (c ∷ bs) zero b h = refl
get_or-set_self (c ∷ bs) (suc i) b h = get_or-set_self bs i b (omega arith)

pub get_or-set_ne :
    (bs : List Bool) (i j : ℕ) (b : Bool) → i ≢ j → get_or (set bs i b) j true ≡ get_or bs j true
get_or-set_ne [] i j b h = refl
get_or-set_ne (c ∷ bs) zero zero b h = absurd (h refl)
get_or-set_ne (c ∷ bs) zero (suc j) b h = refl
get_or-set_ne (c ∷ bs) (suc i) zero b h = refl
get_or-set_ne (c ∷ bs) (suc i) (suc j) b h = get_or-set_ne bs i j b (λ e. h (ap suc e))

pub get_or-false-lt : (bs : List Bool) (i : ℕ) → get_or bs i true ≡ false → i < length bs
get_or-false-lt [] i e = cc
get_or-false-lt (b ∷ bs) zero e = omega arith
get_or-false-lt (b ∷ bs) (suc i) e = omega (arith, get_or-false-lt bs i e)

pub get_or-replicate : (n i : ℕ) → bit (get_or (replicate n false) i true) + bit (ltb i n) ≡ 1
get_or-replicate zero i = ground arith
get_or-replicate (suc n) zero = ground arith
get_or-replicate (suc n) (suc i) = ground (arith, get_or-replicate n i)

bit-ltb-suc : (i n : ℕ) → bit (ltb i (suc n)) ≡ bit (ltb i n) + bit (i == n)
bit-ltb-suc i n = ground arith

-- The constructor's loop pushes each index once.
pub occurrences_push :
    (count left i : ℕ) (acc : List ℕ)
    → left ≤ count
    → occurrences i (push_indices count left acc) ≡ bit (ltb i left) + occurrences i acc
unfolding push_indices
occurrences_push count zero i acc h = ground arith
occurrences_push count (suc left) i acc h =
    let here : count - 1 - (count - suc left) ≡ left = omega arith in
    omega (
      arith,
      occurrences_push count left i ((count - 1 - (count - suc left)) ∷ acc) (omega arith),
      ap (λ (t : ℕ). bit (i == t)) here,
      bit-ltb-suc i left,
    )
