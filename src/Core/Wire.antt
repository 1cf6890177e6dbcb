-- ===== src/Core/Wire.antt =====
-- The big-endian fields of core/src/protocol.cpp and core/src/frame.cpp. Byte strings are lists of
-- numbers below 256. `std::size_t` has 64 bits, so offsets wrap modulo 2 ^ 64.
pub mod Words
pub mod RoundTrip
pub mod Sound
use Prim.Native.Nat.{bit_and, bit_or}
use galculus.Common.{
  ℕ, zero, suc, ◌+◌, ◌*◌, ◌/◌, ◌%◌, ◌^◌, ◌<◌, List, [], ◌∷◌, ◌++◌, Option, none, some, ltb,
  if◌then◌else◌, length, get_or, take, drop, All, ◌≡◌, refl, Bool, true, false, ◌&&◌, arith,
}

abbrev pub Bytes : Type 0
Bytes = List ℕ

abbrev pub IsBytes : Bytes → Type 0
IsBytes = All (λ b. b < 256)

-- The same as a test.
abbrev pub sized : Bytes → Bool
sized [] = true
sized (b ∷ rest) = ltb b 256 && sized rest

pub sized-IsBytes : (xs : Bytes) → sized xs ≡ true → IsBytes xs
sized-IsBytes [] h = tt
sized-IsBytes (b ∷ rest) h = ground (arith, sized-IsBytes rest)

-- A field of bytes whose size fits the 32 bits that are written for it.
abbrev pub IsField : Bytes → Type 0
IsField b = IsBytes b × (length b < 2 ^ 32)

abbrev pub size_t : ℕ → ℕ
size_t n = n % 2 ^ 64

-- `static_cast<std::uint8_t>((value >> shift) & 0xFF)`
abbrev pub byte_at : ℕ → ℕ → ℕ
byte_at value shift = bit_and (value / 2 ^ shift) 0xFF % 256

unfoldable pub write_u16 : Bytes → ℕ → Bytes
write_u16 out value = out ++ (byte_at value 8 ∷ byte_at value 0 ∷ [])

unfoldable pub write_u32 : Bytes → ℕ → Bytes
write_u32 out value =
    out ++ (byte_at value 24 ∷ byte_at value 16 ∷ byte_at value 8 ∷ byte_at value 0 ∷ [])

-- `for (shift = 56; shift >= 0; shift -= 8)`, with `rounds` rounds to go.
pub write_u64_loop : ℕ → Bytes → ℕ → Bytes
write_u64_loop zero out value = out
write_u64_loop (suc rounds) out value =
    write_u64_loop rounds (out ++ (byte_at value (8 * rounds) ∷ [])) value

unfoldable pub write_u64 : Bytes → ℕ → Bytes
unfolding write_u64_loop
write_u64 out value = write_u64_loop 8 out value

-- `write_string` and `write_bytes`: the size is cast to 32 bits.
unfoldable pub write_bytes : Bytes → Bytes → Bytes
write_bytes out value = write_u32 out (length value % 2 ^ 32) ++ value

-- A byte as a word of `w` bits, shifted left.
abbrev pub shl : ℕ → ℕ → ℕ → ℕ
shl w b k = b * 2 ^ k % 2 ^ w

unfoldable pub word_at : Bytes → ℕ → ℕ
word_at bytes offset =
    bit_or
      (bit_or (bit_or (shl 32 (get_or bytes offset 0) 24) (shl 32 (get_or bytes (offset + 1) 0) 16))
        (shl 32 (get_or bytes (offset + 2) 0) 8))
      (get_or bytes (offset + 3) 0)

-- A reader returns the value and the offset behind it; `none` is its `return false`.
unfoldable pub read_u16 : Bytes → ℕ → Option (ℕ × ℕ)
read_u16 bytes offset =
    if ltb (length bytes) (size_t (offset + 2))
    then none
    else some (
      bit_or (get_or bytes offset 0 * 2 ^ 8) (get_or bytes (offset + 1) 0) % 2 ^ 16,
      size_t (offset + 2),
    )

unfoldable pub read_u32 : Bytes → ℕ → Option (ℕ × ℕ)
read_u32 bytes offset =
    if ltb (length bytes) (size_t (offset + 4))
    then none
    else some (word_at bytes offset, size_t (offset + 4))

-- `value = (value << 8) | bytes[offset + i]`, with `rounds` rounds to go.
pub read_u64_loop : ℕ → Bytes → ℕ → ℕ → ℕ
read_u64_loop zero bytes at value = value
read_u64_loop (suc rounds) bytes at value =
    read_u64_loop rounds bytes (at + 1) (bit_or (shl 64 value 8) (get_or bytes at 0))

unfoldable pub read_u64 : Bytes → ℕ → Option (ℕ × ℕ)
unfolding read_u64_loop
read_u64 bytes offset =
    if ltb (length bytes) (size_t (offset + 8))
    then none
    else some (read_u64_loop 8 bytes offset 0, size_t (offset + 8))

-- The second half of `read_string` and `read_bytes`.
unfoldable pub read_content : Bytes → ℕ → ℕ → Option (Bytes × ℕ)
read_content bytes size offset =
    if ltb (length bytes) (size_t (offset + size))
    then none
    else some (take size (drop offset bytes), size_t (offset + size))

unfoldable pub read_bytes : Bytes → ℕ → Option (Bytes × ℕ)
unfolding read_content
read_bytes bytes offset = elim (read_u32 bytes offset) [
  | none ↦ none
  | some (size, offset') ↦ read_content bytes size offset'
]
