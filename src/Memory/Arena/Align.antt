-- ===== src/Memory/Arena/Align.antt =====
-- The bit tricks of the arena: the test for a power of two, and rounding up to one.
use Prim.Native.Nat.{bit_and}
use galculus.Common.{
  ℕ, zero, suc, ◌+◌, ◌-◌, ◌*◌, ◌/◌, ◌%◌, ◌^◌, ◌≤◌, ◌<◌, ◌≡◌, sym, ap, ap₂, ◌∙◌, arith, true,
}
use mathlib.Core.Path.{subst}
use galculus.Common.Bits.{bit_and-shift, bit_and-mask, bit_and-pred, two_pow-bit_and-pred}
use galculus.Memory.Words.{u64, sub64, complement}
use galculus.Memory.Arena.{is_power_of_two, align_up}
use native.Mathlib.Nat.{
  pow-suc, one-le-pow, pow-le-pow_right, mod-eq_of_lt, div-lt_iff_lt-mul, div-add-mod', mod-lt,
  mul-mod_left,
}
use native.Mathlib.Decide.{dec_lt}

pub two_pow_pos : (k : ℕ) → 0 < 2 ^ k
two_pow_pos k = one-le-pow k 2 (omega arith)

sub64_one : (v : ℕ) → 0 < v → v < 2 ^ 64 → sub64 v 1 ≡ v - 1
sub64_one v p h = omega arith

-- The test passes on the powers of two below `2 ^ 64`, and on no other word.
pub is_power_of_two→pow : (v : ℕ) → v < 2 ^ 64 → is_power_of_two v ≡ true → (k : ℕ) × (v ≡ 2 ^ k)
unfolding is_power_of_two
is_power_of_two→pow zero h e = absurd (ground arith)
is_power_of_two→pow (suc v) h e =
    bit_and-pred (suc v) (omega arith)
      (ground (arith, ap (bit_and (suc v)) (sub64_one (suc v) (omega arith) h)))

pub pow→is_power_of_two : (v k : ℕ) → v < 2 ^ 64 → v ≡ 2 ^ k → is_power_of_two v ≡ true
unfolding is_power_of_two
pow→is_power_of_two v k h e = ground (
  arith,
  two_pow_pos k,
  ap (bit_and v) (sub64_one v (omega (arith, two_pow_pos k)) h),
  ap (λ (t : ℕ). bit_and t (t - 1)) e,
  two_pow-bit_and-pred k,
)

two_pow_add : (a b : ℕ) → 2 ^ a * 2 ^ b ≡ 2 ^ (a + b)
two_pow_add a zero = ground arith
two_pow_add a (suc b) = grind (arith, pow-suc 2 b, pow-suc 2 (a + b), two_pow_add a b)

two_pow-lt : (k n : ℕ) → 2 ^ k < 2 ^ n → k < n
two_pow-lt k n h = elim (dec_lt k n) [
  | yes p ↦ p
  | no p ↦
      absurd (omega (arith, pow-le-pow_right {n = 2} (omega arith) {i = n} {j = k} (omega arith)))
]

pred_mul : (t p : ℕ) → 0 < t → (t - 1) * p ≡ t * p - p
pred_mul zero p h = absurd (omega arith)
pred_mul (suc t) p h = ground arith

-- `~(2 ^ k - 1)` is the mask of the upper `64 - k` bits.
complement_low :
    (k n : ℕ)
    → 2 ^ k < 2 ^ 64
    → 2 ^ n * 2 ^ k ≡ 2 ^ 64
    → complement (sub64 (2 ^ k) 1) ≡ (2 ^ n - 1) * 2 ^ k
complement_low k n small h = omega (
  arith,
  two_pow_pos k,
  two_pow_pos n,
  sub64_one (2 ^ k) (two_pow_pos k) small,
  pred_mul (2 ^ n) (2 ^ k) (two_pow_pos n),
)

word_split : (k : ℕ) → 2 ^ k < 2 ^ 64 → 2 ^ (64 - k) * 2 ^ k ≡ 2 ^ 64
word_split k small =
    let below = two_pow-lt k 64 small in
    let sum : 64 - k + k ≡ 64 = omega arith in two_pow_add (64 - k) k ∙ ap (λ (t : ℕ). 2 ^ t) sum

sum_pred : (c p : ℕ) → 0 < p → c + p ≤ 2 ^ 64 → sub64 (u64 (c + p)) 1 ≡ c + p - 1
sum_pred c p pos fits = omega arith

-- Rounding up without a wrap.
align_up_multiple :
    (c k : ℕ)
    → 2 ^ k < 2 ^ 64
    → c + 2 ^ k ≤ 2 ^ 64
    → align_up c (2 ^ k) ≡ (c + 2 ^ k - 1) / 2 ^ k * 2 ^ k
unfolding align_up
align_up_multiple c k small fits =
    let quotient : (c + 2 ^ k - 1) / 2 ^ k < 2 ^ (64 - k) =
      (div-lt_iff_lt-mul (two_pow_pos k)).1 (omega (arith, word_split k small, two_pow_pos k)) in
    ap₂ bit_and (sum_pred c (2 ^ k) (two_pow_pos k) fits)
      (complement_low k (64 - k) small (word_split k small))
    ∙ bit_and-shift k (c + 2 ^ k - 1) (2 ^ (64 - k) - 1)
    ∙ ap (λ (t : ℕ). t * 2 ^ k)
        (bit_and-mask (64 - k) ((c + 2 ^ k - 1) / 2 ^ k) ∙ mod-eq_of_lt quotient)

-- The rounded address: the first multiple of the alignment from `c` on.
pub record IsAligned (c p r : ℕ) : Type 0 where
  pub above : c ≤ r
  pub near : r < c + p
  pub multiple : r % p ≡ 0

align_up_pow :
    (c k : ℕ) → 2 ^ k < 2 ^ 64 → c + 2 ^ k ≤ 2 ^ 64 → IsAligned c (2 ^ k) (align_up c (2 ^ k))
align_up_pow c k small fits =
    let e = align_up_multiple c k small fits in
    let split = div-add-mod' (c + 2 ^ k - 1) (2 ^ k) in
    let low = mod-lt (c + 2 ^ k - 1) (two_pow_pos k) in
    record {
      above = omega (arith, e, split, low, two_pow_pos k);
      near = omega (arith, e, split, low, two_pow_pos k);
      multiple = ap (λ (t : ℕ). t % 2 ^ k) e ∙ mul-mod_left ((c + 2 ^ k - 1) / 2 ^ k) (2 ^ k);
    }

pub align_up-IsAligned :
    (c p : ℕ)
    → p < 2 ^ 64
    → is_power_of_two p ≡ true
    → c + p ≤ 2 ^ 64
    → IsAligned c p (align_up c p)
align_up-IsAligned c p small power fits =
    let (k, e) = is_power_of_two→pow p small power in
    subst (λ (t : ℕ). IsAligned c t (align_up c t)) (sym e)
      (align_up_pow c k (omega (arith, e)) (omega (arith, e)))
