-- ===== src/Core/Wire/RoundTrip.antt =====
-- Each reader returns what its writer wrote, and stops behind it.
use Prim.Native.Nat.{bit_or}
use galculus.Common.{
  All-append, ℕ, ◌+◌, ◌*◌, ◌%◌, ◌^◌, ◌<◌, ◌≡◌, ap, ◌∙◌, arith, [], ◌∷◌, ◌++◌, some, get_or, take,
  drop, length, length-append, Extends, get_or-Extends, length-Extends, Extends-append,
  take-append_length, drop-append_length, All-get_or, append_assoc,
}
use galculus.Core.Wire.{
  IsBytes, Bytes, byte_at, word_at, write_u16, write_u32, write_u64, write_bytes, read_u16,
  read_u32, read_u64, read_bytes, read_content, read_u64_loop,
}
use galculus.Core.Wire.Words.{byte_at_lem, join16, join32, join64}

pub length-write_u16 : (out : Bytes) (v : ℕ) → length (write_u16 out v) ≡ length out + 2
unfolding write_u16
length-write_u16 out v = length-append out _

pub length-write_u32 : (out : Bytes) (v : ℕ) → length (write_u32 out v) ≡ length out + 4
unfolding write_u32
length-write_u32 out v = length-append out _

abbrev pub be64 : ℕ → Bytes
be64 v =
    byte_at v 56
    ∷ byte_at v 48
    ∷ byte_at v 40
    ∷ byte_at v 32
    ∷ byte_at v 24
    ∷ byte_at v 16
    ∷ byte_at v 8
    ∷ byte_at v 0
    ∷ []

-- The loop of `write_u64` appends eight bytes.
pub write_u64_lem : (out : Bytes) (v : ℕ) → write_u64 out v ≡ out ++ be64 v
unfolding write_u64
write_u64_lem out v = simp append_assoc

pub length-write_u64 : (out : Bytes) (v : ℕ) → length (write_u64 out v) ≡ length out + 8
length-write_u64 out v = rw write_u64_lem (length-append out (be64 v))

pub length-write_bytes :
    (out value : Bytes) → length (write_bytes out value) ≡ length out + 4 + length value
unfolding write_bytes
length-write_bytes out value = omega (
  arith,
  length-append (write_u32 out (length value % 2 ^ 32)) value,
  length-write_u32 out (length value % 2 ^ 32),
)

-- A writer only appends.
pub write_u16-Extends :
    (out : Bytes) (v : ℕ) {b : Bytes} → Extends (write_u16 out v) b → Extends out b
unfolding write_u16
write_u16-Extends out v x = Extends-append out _ x

pub write_u32-Extends :
    (out : Bytes) (v : ℕ) {b : Bytes} → Extends (write_u32 out v) b → Extends out b
unfolding write_u32
write_u32-Extends out v x = Extends-append out _ x

pub write_u64-Extends :
    (out : Bytes) (v : ℕ) {b : Bytes} → Extends (write_u64 out v) b → Extends out b
write_u64-Extends out v x = Extends-append out (be64 v) (rw write_u64_lem at x)

pub write_bytes-Extends :
    (out v : Bytes) {b : Bytes} → Extends (write_bytes out v) b → Extends out b
unfolding write_bytes
write_bytes-Extends out v x = write_u32-Extends out _ (Extends-append (write_u32 out _) v x)

-- What the writers append are bytes.
pub write_u16-IsBytes : (out : Bytes) (v : ℕ) → IsBytes out → IsBytes (write_u16 out v)
unfolding write_u16
write_u16-IsBytes out v h = All-append _ out _ h (omega arith)

pub write_u32-IsBytes : (out : Bytes) (v : ℕ) → IsBytes out → IsBytes (write_u32 out v)
unfolding write_u32
write_u32-IsBytes out v h = All-append _ out _ h (omega arith)

pub write_u64-IsBytes : (out : Bytes) (v : ℕ) → IsBytes out → IsBytes (write_u64 out v)
write_u64-IsBytes out v h = rw write_u64_lem (All-append _ out (be64 v) h (omega arith))

pub write_bytes-IsBytes :
    (out value : Bytes) → IsBytes out → IsBytes value → IsBytes (write_bytes out value)
unfolding write_bytes
write_bytes-IsBytes out value h k =
    All-append _ (write_u32 out _) value (write_u32-IsBytes out _ h) k

module _ (bytes : Bytes) (small : length bytes < 2 ^ 63) where
  at_end :
      (out more : Bytes) (d : ℕ)
      → Extends (out ++ more) bytes
      → 0 < length more
      → get_or bytes (length out) d ≡ get_or more 0 d
  at_end out more d x h =
      ap (λ (t : ℕ). get_or bytes t d) (omega arith) ∙ get_or-Extends out more bytes 0 d x h

  pair_at-write_u16 :
      (out : Bytes) (v : ℕ)
      → v < 2 ^ 16
      → Extends (write_u16 out v) bytes
      → bit_or (get_or bytes (length out) 0 * 2 ^ 8) (get_or bytes (length out + 1) 0) % 2 ^ 16 ≡ v
  unfolding write_u16
  pair_at-write_u16 out v h x =
      rw (at_end out _ 0 x (omega arith), get_or-Extends out _ bytes 1 0 x (omega arith))
        (join16 (byte_at v 8) (byte_at v 0) (omega arith) (omega arith)
          ∙ omega (arith, byte_at_lem v 8, byte_at_lem v 0))

  pub read_u16-write_u16 :
      (out : Bytes) (v : ℕ)
      → v < 2 ^ 16
      → Extends (write_u16 out v) bytes
      → read_u16 bytes (length out) ≡ some (v, length (write_u16 out v))
  unfolding read_u16
  read_u16-write_u16 out v h x = ground (
    arith,
    pair_at-write_u16 out v h x,
    length-write_u16 out v,
    length-Extends (write_u16 out v) x,
  )

  word_at-write_u32 :
      (out : Bytes) (v : ℕ)
      → v < 2 ^ 32
      → Extends (write_u32 out v) bytes
      → word_at bytes (length out) ≡ v
  unfolding word_at write_u32
  word_at-write_u32 out v h x =
      rw
        (
          at_end out _ 0 x (omega arith),
          get_or-Extends out _ bytes 1 0 x (omega arith),
          get_or-Extends out _ bytes 2 0 x (omega arith),
          get_or-Extends out _ bytes 3 0 x (omega arith),
        )
        (join32 (byte_at v 24) (byte_at v 16) (byte_at v 8) (byte_at v 0) (omega arith)
            (omega arith) (omega arith) (omega arith)
          ∙ omega (arith, byte_at_lem v 24, byte_at_lem v 16, byte_at_lem v 8, byte_at_lem v 0))

  pub read_u32-write_u32 :
      (out : Bytes) (v : ℕ)
      → v < 2 ^ 32
      → Extends (write_u32 out v) bytes
      → read_u32 bytes (length out) ≡ some (v, length (write_u32 out v))
  unfolding read_u32
  read_u32-write_u32 out v h x = ground (
    arith,
    word_at-write_u32 out v h x,
    length-write_u32 out v,
    length-Extends (write_u32 out v) x,
  )

  be64_at :
      (out : Bytes) (v i : ℕ)
      → Extends (out ++ be64 v) bytes
      → i < 8
      → get_or bytes (length out + i) 0 ≡ get_or (be64 v) i 0
  be64_at out v i x h = get_or-Extends out (be64 v) bytes i 0 x h

  be64-IsBytes : (v i : ℕ) → i < 8 → get_or (be64 v) i 0 < 256
  be64-IsBytes v i h = All-get_or (λ b. b < 256) (be64 v) i 0 (omega arith) h

  loop-write_u64 :
      (out : Bytes) (v : ℕ)
      → v < 2 ^ 64
      → Extends (out ++ be64 v) bytes
      → read_u64_loop 8 bytes (length out + 0) 0 ≡ v
  loop-write_u64 out v h x =
      join64 bytes (length out) (λ i k. rw (be64_at out v i x k) (be64-IsBytes v i k))
      ∙ rw
          (
            be64_at out v 0 x (omega arith),
            be64_at out v 1 x (omega arith),
            be64_at out v 2 x (omega arith),
            be64_at out v 3 x (omega arith),
            be64_at out v 4 x (omega arith),
            be64_at out v 5 x (omega arith),
            be64_at out v 6 x (omega arith),
            be64_at out v 7 x (omega arith),
          )
          (omega (
            arith,
            byte_at_lem v 56,
            byte_at_lem v 48,
            byte_at_lem v 40,
            byte_at_lem v 32,
            byte_at_lem v 24,
            byte_at_lem v 16,
            byte_at_lem v 8,
            byte_at_lem v 0,
          ))

  pub read_u64-write_u64 :
      (out : Bytes) (v : ℕ)
      → v < 2 ^ 64
      → Extends (write_u64 out v) bytes
      → read_u64 bytes (length out) ≡ some (v, length (write_u64 out v))
  unfolding read_u64
  read_u64-write_u64 out v h x =
      let loop = loop-write_u64 out v h (rw write_u64_lem at x) in
      let start : length out + 0 ≡ length out = omega arith in
      ground (arith, rw start at loop, length-write_u64 out v, length-Extends (write_u64 out v) x)

  content-write :
      (out value : Bytes)
      → Extends (out ++ value) bytes
      → take (length value) (drop (length out) bytes) ≡ value
  content-write out value (rest, e) =
      rw (e, append_assoc, drop-append_length) (take-append_length value rest)

  read_content-append :
      (out value : Bytes)
      → Extends (out ++ value) bytes
      → read_content bytes (length value) (length out) ≡ some (value, length out + length value)
  unfolding read_content
  read_content-append out value x =
      ground
        (arith, content-write out value x, length-append out value, length-Extends (out ++ value) x)

  pub read_bytes-write_bytes :
      (out value : Bytes)
      → length value < 2 ^ 32
      → Extends (write_bytes out value) bytes
      → read_bytes bytes (length out) ≡ some (value, length (write_bytes out value))
  unfolding write_bytes read_bytes
  read_bytes-write_bytes out value h x =
      let fits : length value % 2 ^ 32 ≡ length value = omega arith in
      let x' = rw fits at x in
      rw (fits, read_u32-write_u32 out (length value) h (Extends-append _ _ x'), read_bytes)
        (read_content-append (write_u32 out (length value)) value x'
          ∙ rw (length-append (write_u32 out (length value)) value))
