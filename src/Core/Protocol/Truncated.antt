-- ===== src/Core/Protocol/Truncated.antt =====
-- The size of an encoding, and that a cut one is refused.
use galculus.Common.{
  ℕ, ◌+◌, ◌%◌, ◌^◌, ◌<◌, ◌≡◌, sym, ap, ◌∙◌, arith, false, [], ◌∷◌, ◌++◌, length, length-append,
  All-append, All-append_left, length-Extends, Extends, Extends-refl, Extends-trans, Bool-cases,
  inl, inr,
}
use galculus.Core.Wire.{Bytes, IsBytes, write_u16, write_u32, write_u64, write_bytes}
use galculus.Core.Wire.RoundTrip.{
  length-write_u16, length-write_u32, length-write_u64, length-write_bytes, write_u16-IsBytes,
  write_u32-IsBytes, write_u64-IsBytes, write_bytes-IsBytes,
}
use galculus.Core.Message.{Message, IsMessage}
use galculus.Core.Protocol.{encode, decode, magic, version, DecodeResult}
use galculus.Core.Protocol.RoundTrip.{decode-encode}
use galculus.Core.Protocol.Sound.{decode_sound}

-- An encoding is 31 bytes longer than its four fields together.
pub length-encode :
    (m : Message)
    → length (encode m)
      ≡ 31 + length m.source + length m.target + length m.event.name + length m.event.payload
unfolding encode
length-encode m =
    let head = write_u16 (write_u32 [] magic) version in
    let typed = head ++ (m.type % 256 ∷ []) in
    let identified = write_u64 typed m.id in
    let sent = write_bytes identified m.source in
    let addressed = write_bytes sent m.target in
    let named = write_bytes addressed m.event.name in
    omega (
      arith,
      length-write_u32 [] magic,
      length-write_u16 (write_u32 [] magic) version,
      length-append head (m.type % 256 ∷ []),
      length-write_u64 typed m.id,
      length-write_bytes identified m.source,
      length-write_bytes sent m.target,
      length-write_bytes addressed m.event.name,
      length-write_bytes named m.event.payload,
    )

pub length-encode-lt : (m : Message) → IsMessage m → length (encode m) < 2 ^ 35
length-encode-lt m v = omega (arith, length-encode m)

pub encode-IsBytes : (m : Message) → IsMessage m → IsBytes (encode m)
unfolding encode
encode-IsBytes m v =
    let head = write_u16-IsBytes _ version (write_u32-IsBytes [] magic tt) in
    let typed = All-append _ _ (m.type % 256 ∷ []) head (omega arith) in
    let sent = write_bytes-IsBytes _ m.source (write_u64-IsBytes _ m.id typed) v.source_fits.0 in
    let addressed = write_bytes-IsBytes _ m.target sent v.target_fits.0 in
    let named = write_bytes-IsBytes _ m.event.name addressed v.name_fits.0 in
    write_bytes-IsBytes _ m.event.payload named v.payload_fits.0

-- Encodings are prefix-free.
pub encode-Extends :
    (m n : Message) → IsMessage m → IsMessage n → Extends (encode m) (encode n) → m ≡ n
encode-Extends m n hm hn x =
    let size = length-encode-lt n hn in
    let same = decode-encode m (encode n) hm (omega arith) x in
    ap (λ (r : DecodeResult). r.message)
      (sym same ∙ decode-encode n (encode n) hn (omega arith) (Extends-refl (encode n)))

-- The encoding of a message with fields in range that lost bytes at its end does not decode.
decode_truncated :
    (m : Message) (front : Bytes) (b : ℕ) (lost : Bytes)
    → IsMessage m
    → encode m ≡ front ++ (b ∷ lost)
    → (decode front).result.ok ≡ false
decode_truncated m front b lost valid e = elim (Bool-cases (decode front).result.ok) [
  | inr bad ↦ bad
  | inl good ↦
      let size = length-encode-lt m valid in
      let cuts = ap length e ∙ length-append front (b ∷ lost) in
      let front_valid =
        All-append_left (λ b. b < 256) front (b ∷ lost) (rw e at (encode-IsBytes m valid)) in
      let (x, found) = decode_sound front front_valid (omega arith) good in
      let longer = Extends-trans (encode (decode front).message) front (encode m) x (b ∷ lost, e) in
      let same = encode-Extends (decode front).message m found valid longer in
      let fits = length-Extends (encode (decode front).message) x in
      absurd (omega (arith, ap (λ (t : Message). length (encode t)) same))
]
