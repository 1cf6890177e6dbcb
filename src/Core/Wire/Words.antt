-- ===== src/Core/Wire/Words.antt =====
-- The words that the readers put together, as sums of their bytes.
use Prim.Native.Nat.{bit_or}
use galculus.Common.{ℕ, suc, ◌+◌, ◌*◌, ◌/◌, ◌%◌, ◌^◌, ◌<◌, ◌≡◌, ap, ◌∙◌, arith, get_or}
use galculus.Common.Bits.{bit_or-shift, bit_and-mask}
use galculus.Core.Wire.{Bytes, byte_at, shl, read_u64_loop}

pub byte_at_lem : (v s : ℕ) → byte_at v s ≡ v / 2 ^ s % 256
byte_at_lem v s = omega (arith, bit_and-mask 8 (v / 2 ^ s))

pub byte_at-lt : (v s : ℕ) → byte_at v s < 256
byte_at-lt v s = omega arith

pub join16 : (a b : ℕ) → a < 256 → b < 256 → bit_or (a * 2 ^ 8) b % 2 ^ 16 ≡ a * 2 ^ 8 + b
join16 a b ha hb = omega (arith, bit_or-shift 8 a b hb)

-- A word whose low `k` bits are clear, and a value of `k` bits.
bit_or-aligned : (k q x r : ℕ) → x ≡ q * 2 ^ k → r < 2 ^ k → bit_or x r ≡ x + r
bit_or-aligned k q x r e h = rw e (bit_or-shift k q r h)

pub join32 :
    (a b c d : ℕ)
    → a < 256
    → b < 256
    → c < 256
    → d < 256
    → bit_or (bit_or (bit_or (shl 32 a 24) (shl 32 b 16)) (shl 32 c 8)) d
      ≡ a * 2 ^ 24 + b * 2 ^ 16 + c * 2 ^ 8 + d
join32 a b c d ha hb hc hd =
    rw
      (
        bit_or-aligned 24 a (shl 32 a 24) (shl 32 b 16) (omega arith) (omega arith),
        bit_or-aligned 16 (a * 2 ^ 8 + b) (shl 32 a 24 + shl 32 b 16) (shl 32 c 8) (omega arith)
            (omega arith),
        bit_or-aligned 8 (a * 2 ^ 16 + b * 2 ^ 8 + c) (shl 32 a 24 + shl 32 b 16 + shl 32 c 8) d
            (omega arith) (omega arith),
      )
      (omega arith)

push_byte : (value b : ℕ) → value < 2 ^ 56 → b < 256 → bit_or (shl 64 value 8) b ≡ value * 256 + b
push_byte value b h hb = bit_or-aligned 8 value (shl 64 value 8) b (omega arith) hb ∙ omega arith

module _ (bytes : Bytes) (at : ℕ) where
  abbrev byte : ℕ → ℕ
  byte i = get_or bytes (at + i) 0

  round :
      (rounds i value : ℕ)
      → value < 2 ^ 56
      → byte i < 256
      → read_u64_loop (suc rounds) bytes (at + i) value
        ≡ read_u64_loop rounds bytes (at + (i + 1)) (value * 256 + byte i)
  unfolding read_u64_loop
  round rounds i value h hb =
      rw (push_byte value (byte i) h hb)
        (ap (λ (t : ℕ). read_u64_loop rounds bytes t (value * 256 + byte i)) (omega arith))

  pub join64 :
      ((i : ℕ) → i < 8 → byte i < 256)
      → read_u64_loop 8 bytes (at + 0) 0
        ≡ byte 0 * 2 ^ 56
          + byte 1 * 2 ^ 48
          + byte 2 * 2 ^ 40
          + byte 3 * 2 ^ 32
          + byte 4 * 2 ^ 24
          + byte 5 * 2 ^ 16
          + byte 6 * 2 ^ 8
          + byte 7
  join64 small =
      let b0 = small 0 (omega arith) in
      let b1 = small 1 (omega arith) in
      let b2 = small 2 (omega arith) in
      let b3 = small 3 (omega arith) in
      let b4 = small 4 (omega arith) in
      let b5 = small 5 (omega arith) in
      let b6 = small 6 (omega arith) in
      let b7 = small 7 (omega arith) in
      round 7 0 _ (omega arith) b0
      ∙ round 6 1 _ (omega arith) b1
      ∙ round 5 2 _ (omega arith) b2
      ∙ round 4 3 _ (omega arith) b3
      ∙ round 3 4 _ (omega arith) b4
      ∙ round 2 5 _ (omega arith) b5
      ∙ round 1 6 _ (omega arith) b6
      ∙ round 0 7 _ (omega arith) b7
      ∙ unfold read_u64_loop in omega arith
