-- ===== src/Core/Frame/Checksum.antt =====
-- The checksum is the sum of the bytes modulo 2 ^ 32.
use galculus.Common.{
  ℕ, zero, suc, ◌+◌, ◌%◌, ◌^◌, ◌<◌, ◌≡◌, refl, ap, sym, ◌∙◌, arith, [], ◌∷◌, length, get_or, set,
}
use galculus.Core.Wire.{Bytes}
use galculus.Core.Frame.{checksum_from, checksum}
use mathlib.Core.List.{Perm, Permᴰ}
use mathlib.Core.Logic.{∥∥₁_elim}
use native.Mathlib.Nat.{ℕ_set}

pub total : Bytes → ℕ
total [] = 0
total (byte ∷ rest) = byte + total rest

checksum_from-total :
    (sum : ℕ) (bytes : Bytes)
    → sum < 2 ^ 32
    → checksum_from sum bytes ≡ (sum + total bytes) % 2 ^ 32
unfolding checksum_from total
checksum_from-total sum [] h = omega arith
checksum_from-total sum (byte ∷ rest) h =
    omega (arith, checksum_from-total ((sum + byte) % 2 ^ 32) rest (omega arith))

pub checksum-total : (bytes : Bytes) → checksum bytes ≡ total bytes % 2 ^ 32
unfolding checksum
checksum-total bytes = omega (arith, checksum_from-total 0 bytes (omega arith))

pub checksum-lt : (bytes : Bytes) → checksum bytes < 2 ^ 32
checksum-lt bytes = omega (arith, checksum-total bytes)

total-set :
    (bytes : Bytes) (i b : ℕ)
    → i < length bytes
    → total (set bytes i b) + get_or bytes i 0 ≡ total bytes + b
unfolding total
total-set [] i b h = elim h [ ]
total-set (x ∷ rest) zero b h = omega arith
total-set (x ∷ rest) (suc i) b h = omega (arith, total-set rest i b (omega arith))

-- Changing one byte to another changes the checksum.
pub checksum-set :
    (bytes : Bytes) (i b : ℕ)
    → i < length bytes
    → b < 256
    → get_or bytes i 0 < 256
    → checksum (set bytes i b) ≡ checksum bytes
    → b ≡ get_or bytes i 0
checksum-set bytes i b h hb hx e =
    omega (arith, checksum-total (set bytes i b), checksum-total bytes, total-set bytes i b h)

total-Permᴰ : {xs ys : Bytes} → Permᴰ xs ys → total xs ≡ total ys
unfolding total
total-Permᴰ Permᴰ.nil = refl
total-Permᴰ (Permᴰ.cons e p) = omega (arith, e, total-Permᴰ p)
total-Permᴰ (Permᴰ.swap e f) = omega (arith, e, f)
total-Permᴰ (Permᴰ.trans p q) = total-Permᴰ p ∙ total-Permᴰ q

-- The order of the bytes does not show in the checksum.
pub checksum-perm : {xs ys : Bytes} → Perm xs ys → checksum xs ≡ checksum ys
checksum-perm {xs} {ys} p =
    checksum-total xs
    ∙ ap (λ (t : ℕ). t % 2 ^ 32) (∥∥₁_elim p (ℕ_set _ _) total-Permᴰ)
    ∙ sym (checksum-total ys)

length-Permᴰ : {xs ys : Bytes} → Permᴰ xs ys → length xs ≡ length ys
length-Permᴰ Permᴰ.nil = refl
length-Permᴰ (Permᴰ.cons e p) = ap suc (length-Permᴰ p)
length-Permᴰ (Permᴰ.swap e f) = refl
length-Permᴰ (Permᴰ.trans p q) = length-Permᴰ p ∙ length-Permᴰ q

pub length-perm : {xs ys : Bytes} → Perm xs ys → length xs ≡ length ys
length-perm p = ∥∥₁_elim p (ℕ_set _ _) length-Permᴰ
