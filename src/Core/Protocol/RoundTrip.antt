-- ===== src/Core/Protocol/RoundTrip.antt =====
-- `decode` after `encode`.
use galculus.Common.{
  ℕ, ◌+◌, ◌%◌, ◌^◌, ◌<◌, ◌≡◌, ap, arith, some, [], ◌∷◌, ◌++◌, length, length-append, Extends,
  Extends-append, length-Extends, get_or-Extends,
}
use galculus.Core.Wire.{Bytes, write_u16, write_u32, write_u64, write_bytes}
use galculus.Core.Wire.RoundTrip.{
  write_u16-Extends, write_u64-Extends, write_bytes-Extends, read_u16-write_u16, read_u32-write_u32,
  read_u64-write_u64, read_bytes-write_bytes,
}
use galculus.Core.Message.{success, Message, IsMessage}
use galculus.Core.Protocol.{encode, decode, DecodeResult, read_type, magic, version}

read_type-append :
    (bytes out : Bytes) (t : ℕ)
    → length bytes < 2 ^ 63
    → Extends (out ++ t ∷ []) bytes
    → read_type bytes (length out) ≡ some (t, length (out ++ t ∷ []))
unfolding read_type
read_type-append bytes out t small x =
    let start : length out + 0 ≡ length out = omega arith in
    ground (
      arith,
      rw start at (get_or-Extends out (t ∷ []) bytes 0 0 x (omega arith)),
      length-append out (t ∷ []),
      length-Extends (out ++ t ∷ []) x,
    )

abbrev accepted : Message → ℕ → DecodeResult
accepted m t = record { result = success; message = record m { type = t } }

-- Bytes shorter than 2 ^ 63 that begin with the encoding of a message with fields in range decode
-- to that message, with success.
pub decode-encode :
    (m : Message) (bytes : Bytes)
    → IsMessage m
    → length bytes < 2 ^ 63
    → Extends (encode m) bytes
    → decode bytes ≡ record { result = success; message = m }
unfolding encode decode
decode-encode m bytes valid small x =
    let head = write_u16 (write_u32 [] magic) version in
    let typed = head ++ (m.type % 256 ∷ []) in
    let identified = write_u64 typed m.id in
    let sent = write_bytes identified m.source in
    let addressed = write_bytes sent m.target in
    let named = write_bytes addressed m.event.name in
    let x7 = write_bytes-Extends named m.event.payload x in
    let x6 = write_bytes-Extends addressed m.event.name x7 in
    let x5 = write_bytes-Extends sent m.target x6 in
    let x4 = write_bytes-Extends identified m.source x5 in
    let x3 = write_u64-Extends typed m.id x4 in
    let x2 = Extends-append head (m.type % 256 ∷ []) x3 in
    let x1 = write_u16-Extends (write_u32 [] magic) version x2 in
    let last = read_bytes-write_bytes bytes small named m.event.payload valid.payload_fits.1 x in
    rw
      (
        read_u32-write_u32 bytes small [] magic (omega arith) x1,
        read_u16-write_u16 bytes small (write_u32 [] magic) version (omega arith) x2,
        read_type-append bytes head (m.type % 256) small x3,
        read_u64-write_u64 bytes small typed m.id valid.id_fits x4,
        read_bytes-write_bytes bytes small identified m.source valid.source_fits.1 x5,
        read_bytes-write_bytes bytes small sent m.target valid.target_fits.1 x6,
        read_bytes-write_bytes bytes small addressed m.event.name valid.name_fits.1 x7,
        last,
        decode,
      )
      (ap (λ (t : ℕ). accepted m t) (omega arith))
