-- ===== src/Common/Bits.antt =====
-- `|`, `&` and `~` on machine words as arithmetic, at every width, from the digit recursion that
-- the native operations stand for.
use Prim.Native.Nat.{
  ℕ, zero, suc, ◌+◌, ◌-◌, ◌*◌, ◌/◌, ◌%◌, ◌^◌, ◌≤◌, ◌<◌, min, max, bit_and, bit_or, digits,
  bit_and-bitwise, bit_or-bitwise,
}
use mathlib.Core.Path.{◌≡◌, refl, ap, sym, ◌∙◌}
use native.Mathlib.Omega.{arith}
use native.Mathlib.Decide.{dec_lt, ℕ_discrete}
use native.Mathlib.Nat.{mod_self, pow-suc, pow-succ', one-le-pow, div-div-eq-div-mul}

-- The recursion on binary digits: `rest` of the second word is left when the first one is used up.
module _ (rest : ℕ → ℕ) (join : ℕ → ℕ → ℕ) where
  used_up : (fuel b : ℕ) → digits rest join fuel 0 b ≡ rest b
  used_up zero b = refl
  used_up (suc fuel) b = refl

  -- Any two counts that cover the first word give the same digits.
  agree :
      (fuel spare a b : ℕ)
      → a ≤ fuel
      → a ≤ spare
      → digits rest join fuel a b ≡ digits rest join spare a b
  agree fuel spare zero b _ _ = used_up fuel b ∙ sym (used_up spare b)
  agree zero spare (suc a) b short _ = absurd (omega arith)
  agree (suc fuel) zero (suc a) b _ short = absurd (omega arith)
  agree (suc fuel) (suc spare) (suc a) b long longer =
      ap (λ (high : ℕ). high * 2 + join (suc a % 2) (b % 2))
        (agree fuel spare (suc a / 2) (b / 2) (omega arith) (omega arith))

  -- A word on its own count, when what is left at the end fits the step.
  lowest_digit :
      ((b : ℕ) → rest b ≡ rest (b / 2) * 2 + join 0 (b % 2))
      → (a b : ℕ)
      → digits rest join a a b ≡ digits rest join (a / 2) (a / 2) (b / 2) * 2 + join (a % 2) (b % 2)
  lowest_digit ends zero b = ends b
  lowest_digit ends (suc a) b =
      ap (λ (high : ℕ). high * 2 + join (suc a % 2) (b % 2))
        (agree a (suc a / 2) (suc a / 2) (b / 2) (omega arith) (omega arith))

pub bit_and_step : (a b : ℕ) → bit_and a b ≡ bit_and (a / 2) (b / 2) * 2 + min (a % 2) (b % 2)
bit_and_step a b =
    bit_and-bitwise a b
    ∙ lowest_digit (λ y. zero) min (λ y. omega arith) a b
    ∙ ap (λ (high : ℕ). high * 2 + min (a % 2) (b % 2)) (sym (bit_and-bitwise (a / 2) (b / 2)))

pub bit_or_step : (a b : ℕ) → bit_or a b ≡ bit_or (a / 2) (b / 2) * 2 + max (a % 2) (b % 2)
bit_or_step a b =
    bit_or-bitwise a b
    ∙ lowest_digit (λ y. y) max (λ y. omega arith) a b
    ∙ ap (λ (high : ℕ). high * 2 + max (a % 2) (b % 2)) (sym (bit_or-bitwise (a / 2) (b / 2)))

nothing_in_common : (bound a : ℕ) → a ≤ bound → bit_and a 0 ≡ 0
nothing_in_common bound zero small = bit_and-bitwise 0 0
nothing_in_common zero (suc a) small = absurd (omega arith)
nothing_in_common (suc bound) (suc a) small =
    let upper = nothing_in_common bound (suc a / 2) (omega arith) in
    omega (arith, bit_and_step (suc a) 0, upper)

pub bit_and-zero : (a : ℕ) → bit_and a 0 ≡ 0
bit_and-zero a = nothing_in_common a a (omega arith)

bit_or-zero_fuel : (n a : ℕ) → a ≤ n → bit_or a 0 ≡ a
bit_or-zero_fuel n zero h = refl
bit_or-zero_fuel zero (suc a) h = absurd (omega arith)
bit_or-zero_fuel (suc n) (suc a) h =
    omega (arith, bit_or_step (suc a) 0, bit_or-zero_fuel n (suc a / 2) (omega arith))

bit_or_comm_below : (bound a b : ℕ) → a ≤ bound → b ≤ bound → bit_or a b ≡ bit_or b a
bit_or_comm_below zero a b p q =
    let left : a ≡ 0 = omega arith in let right : b ≡ 0 = omega arith in rw (left, right) refl
bit_or_comm_below (suc bound) a b p q = omega (
  arith,
  bit_or_step a b,
  bit_or_step b a,
  bit_or_comm_below bound (a / 2) (b / 2) (omega arith) (omega arith),
)

pub bit_or_comm : (a b : ℕ) → bit_or a b ≡ bit_or b a
bit_or_comm a b = bit_or_comm_below (a + b) a b (omega arith) (omega arith)

scale_suc : (q k : ℕ) → q * 2 ^ suc k ≡ 2 * (q * 2 ^ k)
scale_suc q k = omega (arith, ap (λ (t : ℕ). q * t) (pow-suc 2 k))

-- The bytes of a word, put together by shifts and `|`, add up.
pub bit_or-shift : (k q r : ℕ) → r < 2 ^ k → bit_or (q * 2 ^ k) r ≡ q * 2 ^ k + r
bit_or-shift zero q r fits = ground (arith, bit_or-zero_fuel q q)
bit_or-shift (suc k) q r fits =
    ground
      (arith, bit_or_step (q * 2 ^ suc k) r, scale_suc q k, bit_or-shift k q (r / 2) (omega arith))

div_two_pow : (a k : ℕ) → a / 2 ^ suc k ≡ a / 2 / 2 ^ k
div_two_pow a k = ap (λ (t : ℕ). a / t) (pow-succ' 2 k) ∙ sym (div-div-eq-div-mul a 2 (2 ^ k))

-- A shifted mask drops the low bits, and masks the others.
pub bit_and-shift : (k a m : ℕ) → bit_and a (m * 2 ^ k) ≡ bit_and (a / 2 ^ k) m * 2 ^ k
bit_and-shift zero a m = ground arith
bit_and-shift (suc k) a m = ground (
  arith,
  bit_and_step a (m * 2 ^ suc k),
  scale_suc m k,
  scale_suc (bit_and (a / 2 / 2 ^ k) m) k,
  div_two_pow a k,
  bit_and-shift k (a / 2) m,
)

bit_and-fields : (k q r : ℕ) → r < 2 ^ k → bit_and (q * 2 ^ k + r) (2 ^ k - 1) ≡ r
bit_and-fields zero q r fits = ground (arith, bit_and-zero (q * 2 ^ 0 + r))
bit_and-fields (suc k) q r fits = ground (
  arith,
  bit_and_step (q * 2 ^ suc k + r) (2 ^ suc k - 1),
  scale_suc q k,
  pow-suc 2 k,
  bit_and-fields k q (r / 2) (omega arith),
)

-- A mask of `k` ones is the remainder by `2 ^ k`.
pub bit_and-mask : (k a : ℕ) → bit_and a (2 ^ k - 1) ≡ a % 2 ^ k
bit_and-mask k a = ground (arith, one-le-pow k 2, bit_and-fields k (a / 2 ^ k) (a % 2 ^ k))

bit_and_self_fuel : (n v : ℕ) → v ≤ n → bit_and v v ≡ v
bit_and_self_fuel n zero h = refl
bit_and_self_fuel zero (suc v) h = absurd (omega arith)
bit_and_self_fuel (suc n) (suc v) h =
    omega (arith, bit_and_step (suc v) (suc v), bit_and_self_fuel n (suc v / 2) (omega arith))

even_half : (v : ℕ) → v % 2 ≡ 0 → bit_and v (v - 1) ≡ 0 → bit_and (v / 2) (v / 2 - 1) ≡ 0
even_half zero h e = refl
even_half (suc v) h e =
    let half : (suc v - 1) / 2 ≡ suc v / 2 - 1 = omega arith in
    omega (arith, bit_and_step (suc v) (suc v - 1), ap (bit_and (suc v / 2)) half)

odd_half : (v : ℕ) → v % 2 ≡ 1 → 1 < v → bit_and v (v - 1) ≡ 0 → ⊥
odd_half v h big e =
    let half : (v - 1) / 2 ≡ v / 2 = omega arith in
    omega (
      arith,
      bit_and_step v (v - 1),
      ap (bit_and (v / 2)) half,
      bit_and_self_fuel (v / 2) (v / 2) (omega arith),
    )

-- `v & (v - 1)` clears the lowest bit that is set, so it is 0 at the powers of two alone.
bit_and-pred_fuel : (n v : ℕ) → v ≤ n → 0 < v → bit_and v (v - 1) ≡ 0 → (k : ℕ) × (v ≡ 2 ^ k)
bit_and-pred_fuel zero v h pos e = absurd (omega arith)
bit_and-pred_fuel (suc n) v h pos e = elim (dec_lt 1 v) [
  | no small ↦ (0, omega arith)
  | yes big ↦ elim (ℕ_discrete (v % 2) 0) [
    | yes even ↦
        let (k, w) = bit_and-pred_fuel n (v / 2) (omega arith) (omega arith) (even_half v even e) in
        (suc k, omega (arith, pow-suc 2 k))
    | no odd ↦ absurd (odd_half v (omega arith) big e)
  ]
]

pub bit_and-pred : (v : ℕ) → 0 < v → bit_and v (v - 1) ≡ 0 → (k : ℕ) × (v ≡ 2 ^ k)
bit_and-pred v pos e = bit_and-pred_fuel v v (omega arith) pos e

pub two_pow-bit_and-pred : (k : ℕ) → bit_and (2 ^ k) (2 ^ k - 1) ≡ 0
two_pow-bit_and-pred k = bit_and-mask k (2 ^ k) ∙ mod_self (2 ^ k)
