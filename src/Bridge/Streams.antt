-- ===== src/Bridge/Streams.antt =====
-- The classes `Writer` and `Reader` of LLMMessageCodec.cpp: little-endian fields. A reader moves an
-- offset over bytes that stay.
use Prim.Native.String.{String}
use Prim.Native.Nat.{bit_or}
use galculus.Common.{
  ℕ, ◌+◌, ◌%◌, ◌^◌, [], ◌∷◌, ◌++◌, ltb, if◌then◌else◌, length, get_or, take, drop,
}
use galculus.Common.Exceptions.{Thrown, ok, throw}
use galculus.Core.Wire.{Bytes, byte_at, shl, size_t}

-- A writer returns its bytes.
unfoldable pub write_u8 : Bytes → ℕ → Bytes
write_u8 out value = out ++ value ∷ []

unfoldable pub write_u32 : Bytes → ℕ → Bytes
write_u32 out value =
    out ++ (byte_at value 0 ∷ byte_at value 8 ∷ byte_at value 16 ∷ byte_at value 24 ∷ [])

unfoldable pub write_str : Bytes → Bytes → Bytes
write_str out value = write_u32 out (length value % 2 ^ 32) ++ value

-- A reader at an offset.
abbrev pub Reader {ℓ} : Type ℓ → Type ℓ
Reader A = Bytes → ℕ → Thrown (A × ℕ)

abbrev pub follow {ℓ} : {A B : Type ℓ} → (A → Reader B) → Bytes → Thrown (A × ℕ) → Thrown (B × ℕ)
follow f bytes (ok (a, next)) = f a bytes next
follow f bytes (throw why) = throw why

infixl 5 ◌>>=◌ ◌>>◌
abbrev pub ◌>>=◌ {ℓ} : {A B : Type ℓ} → Reader A → (A → Reader B) → Reader B
◌>>=◌ m f bytes offset = follow f bytes (m bytes offset)

abbrev pub ◌>>◌ {ℓ} : {A B : Type ℓ} → Reader A → Reader B → Reader B
m >> k = m >>= (λ _. k)

abbrev pub return {ℓ} : {A : Type ℓ} → A → Reader A
return a bytes offset = ok (a, offset)

abbrev pub fail {ℓ} : {A : Type ℓ} → String → Reader A
fail why bytes offset = throw why

abbrev pub truncated : String
truncated = "LLMMessageCodec: truncated payload"

-- `require`, and what is read behind it.
unfoldable pub require {ℓ} : {A : Type ℓ} → ℕ → (Bytes → ℕ → A) → Reader A
require count read bytes offset =
    if ltb (length bytes) (size_t (offset + count))
    then throw truncated
    else ok (read bytes offset, size_t (offset + count))

unfoldable pub read_u8 : Reader ℕ
read_u8 = require 1 (λ bytes offset. get_or bytes offset 0)

-- Each byte is shifted and joined by `|=`, the lowest first.
unfoldable pub word_at : Bytes → ℕ → ℕ
word_at bytes offset =
    bit_or
      (bit_or
        (bit_or (bit_or 0 (shl 32 (get_or bytes (offset + 0) 0) 0))
          (shl 32 (get_or bytes (offset + 1) 0) 8))
        (shl 32 (get_or bytes (offset + 2) 0) 16))
      (shl 32 (get_or bytes (offset + 3) 0) 24)

unfoldable pub read_u32 : Reader ℕ
read_u32 = require 4 word_at

unfoldable pub read_str : Reader Bytes
read_str = do size ← read_u32; require size (λ bytes offset. take size (drop offset bytes))
