-- ===== src/Core/Frame/RoundTrip.antt =====
-- What `decode` makes of a frame with a header that fits.
use galculus.Common.{
  ℕ, ◌+◌, ◌-◌, ◌^◌, ◌<◌, ◌≡◌, refl, sym, ap, arith, true, some, [], ◌++◌, ◌==◌, ==_self, le→leb,
  leb, if◌then◌else◌, Bool-cases, inl, inr, length, length-append, take, drop, Extends,
  Extends-append, length-Extends, append_assoc, take-append_length, drop-append_length,
}
use galculus.Core.Wire.{Bytes, IsBytes, IsField, size_t, write_u32}
use galculus.Core.Wire
use galculus.Core.Wire.RoundTrip.{read_u32-write_u32, write_u32-Extends, length-write_u32}
use galculus.Core.Message.{success}
use galculus.Core.Frame.{encode, decode, read_u32, magic, checksum, failed}
use galculus.Core.Frame.Checksum.{checksum-lt}

-- A header for `size` bytes, some bytes, and a checksum field.
abbrev pub header : ℕ → Bytes
header size = write_u32 (write_u32 [] magic) size

abbrev pub sealed : ℕ → Bytes → ℕ → Bytes
sealed size payload sum = write_u32 (header size ++ payload) sum

pub encode-sealed :
    (payload : Bytes)
    → length payload < 2 ^ 32
    → encode payload ≡ sealed (length payload) payload (checksum payload)
unfolding encode
encode-sealed payload h = ap (λ (t : ℕ). sealed t payload (checksum payload)) (omega arith)

pub length-header : (size : ℕ) → length (header size) ≡ 8
length-header size =
    omega (arith, length-write_u32 [] magic, length-write_u32 (write_u32 [] magic) size)

module _ (frame : Bytes) (small : length frame < 2 ^ 63) where
  read_u32-write :
      (out : Bytes) (o v : ℕ)
      → v < 2 ^ 32
      → length out ≡ o
      → Extends (write_u32 out v) frame
      → read_u32 frame o ≡ some v
  unfolding read_u32 Wire.read_u32
  read_u32-write out o v h at x =
      let read = rw at at (read_u32-write_u32 frame small out v h x) in ground (arith, read)

  payload_at :
      (n : ℕ) (payload : Bytes)
      → Extends (header n ++ payload) frame
      → (fits : length payload < 2 ^ 32)
      → take (size_t (8 + length payload) - 8) (drop 8 frame) ≡ payload
  payload_at n payload (rest, e) fits =
      let skip : 8 ≡ length (header n) = sym (length-header n) in
      let size : size_t (8 + length payload) - 8 ≡ length payload = omega arith in
      rw (size, e, skip, append_assoc, drop-append_length) (take-append_length payload rest)

  pub decode-sealed :
      (payload : Bytes) (sum : ℕ)
      → length payload < 2 ^ 32
      → sum < 2 ^ 32
      → Extends (sealed (length payload) payload sum) frame
      → decode frame ≡ (
          if checksum payload == sum
          then record { result = success; payload = payload }
          else failed payload "frame decode failed: checksum mismatch")
  unfolding decode
  decode-sealed payload sum h hs x =
      let n = length payload in
      let body = write_u32-Extends (header n ++ payload) sum x in
      let head = Extends-append (header n) payload body in
      let front = write_u32-Extends (write_u32 [] magic) n head in
      let size = length-append (header n) payload in
      let fits = length-Extends (sealed n payload sum) x in
      let sealed_size = length-write_u32 (header n ++ payload) sum in
      let start : length (header n ++ payload) ≡ size_t (8 + n) =
        omega (arith, size, length-header n) in
      let complete : leb (size_t (size_t (8 + n) + 4)) (length frame) ≡ true =
        le→leb _ _ (omega (arith, size, fits, sealed_size, length-header n)) in
      elim (Bool-cases (checksum payload == sum)) [
        | inl same ↦
            rw
              (
                read_u32-write [] 0 magic (omega arith) refl front,
                read_u32-write (write_u32 [] magic) 4 n h (length-write_u32 [] magic) head,
                complete,
                payload_at n payload body h,
                read_u32-write (header n ++ payload) (size_t (8 + n)) sum hs start x,
                same,
                decode,
              )
              refl
        | inr other ↦
            rw
              (
                read_u32-write [] 0 magic (omega arith) refl front,
                read_u32-write (write_u32 [] magic) 4 n h (length-write_u32 [] magic) head,
                complete,
                payload_at n payload body h,
                read_u32-write (header n ++ payload) (size_t (8 + n)) sum hs start x,
                other,
                decode,
              )
              refl
      ]

-- Bytes shorter than 2 ^ 63 that begin with the frame of a payload shorter than 2 ^ 32 decode to
-- that payload, with success.
pub decode-encode_frame :
    (payload frame : Bytes)
    → length payload < 2 ^ 32
    → length frame < 2 ^ 63
    → Extends (encode payload) frame
    → decode frame ≡ record { result = success; payload = payload }
decode-encode_frame payload frame h small x =
    let sum = checksum payload in
    rw
      (
        decode-sealed frame small payload sum h (checksum-lt payload)
            (rw (encode-sealed payload h) at x),
        ==_self sum,
      )
      refl

pub length-sealed :
    (size : ℕ) (payload : Bytes) (sum : ℕ) → length (sealed size payload sum) ≡ length payload + 12
length-sealed size payload sum = omega (
  arith,
  length-write_u32 (header size ++ payload) sum,
  length-append (header size) payload,
  length-header size,
)
