-- ===== src/Core/Frame/Integrity.antt =====
-- Which damage `decode` notices.
use galculus.Common.{
  ℕ, ◌+◌, ◌^◌, ◌<◌, ◌≡◌, ◌≢◌, refl, sym, All-get_or, ◌∙◌, arith, false, ◌==◌, ◌++◌, length,
  length-append, length-set, set, get_or, set-append_left, set-append_right, Extends-refl, ==_self,
}
use galculus.Core.Wire.{Bytes, IsBytes, write_u32}
use galculus.Core.Message.{success}
use galculus.Core.Frame.{encode, decode, checksum, failed}
use galculus.Core.Frame.Checksum.{checksum-lt, checksum-set, checksum-perm, length-perm}
use galculus.Core.Frame.RoundTrip.{
  header, sealed, encode-sealed, decode-sealed, length-header, length-sealed,
}
use mathlib.Core.List.{Perm}

-- Byte `i` of the payload is byte `8 + i` of the frame.
set-sealed :
    (size : ℕ) (payload : Bytes) (sum i b : ℕ)
    → i < length payload
    → set (sealed size payload sum) (8 + i) b ≡ sealed size (set payload i b) sum
unfolding write_u32
set-sealed size payload sum i b h =
    let at : 8 + i ≡ length (header size) + i = omega (arith, length-header size) in
    set-append_left (header size ++ payload) _ (8 + i) b
      (omega (arith, length-append (header size) payload, length-header size))
    ∙ rw (at, set-append_right) refl

differs : (x y : ℕ) → x ≢ y → (x == y) ≡ false
differs x y h = ground arith

-- A frame of a payload shorter than 2 ^ 32 in which one byte of the payload has become another one
-- does not decode; the damaged payload comes back beside the checksum error.
pub decode-set :
    (payload : Bytes) (i b : ℕ)
    → IsBytes payload
    → length payload < 2 ^ 32
    → i < length payload
    → b < 256
    → b ≢ get_or payload i 0
    → decode (set (encode payload) (8 + i) b)
      ≡ failed (set payload i b) "frame decode failed: checksum mismatch"
decode-set payload i b valid h hi hb other =
    let sum = checksum payload in
    let p' = set payload i b in
    let same_size : length payload ≡ length p' = sym (length-set payload i b) in
    let size = length-sealed (length p') p' sum in
    let small : length (sealed (length p') p' sum) < 2 ^ 63 = omega arith in
    let x = All-get_or (λ b. b < 256) payload i 0 valid hi in
    rw
      (
        encode-sealed payload h,
        set-sealed (length payload) payload sum i b hi,
        same_size,
        decode-sealed _ small p' sum (omega arith) (checksum-lt payload) (Extends-refl _),
        differs (checksum p') sum (λ e. other (checksum-set payload i b hi hb x e)),
      )
      refl

-- Under the header and the checksum of a payload shorter than 2 ^ 32, any rearrangement of it
-- decodes with success.
decode-perm :
    (payload shuffled : Bytes)
    → length payload < 2 ^ 32
    → Perm shuffled payload
    → decode (sealed (length payload) shuffled (checksum payload))
      ≡ record { result = success; payload = shuffled }
decode-perm payload shuffled h p =
    let size = length-perm p in
    let total_size = length-sealed (length shuffled) shuffled (checksum payload) in
    rw
      (
        ← size,
        decode-sealed _ (omega arith) shuffled (checksum payload) (omega arith)
            (checksum-lt payload) (Extends-refl _),
        checksum-perm p,
        ==_self (checksum payload),
      )
      refl
