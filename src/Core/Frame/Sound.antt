-- ===== src/Core/Frame/Sound.antt =====
-- What `decode` accepts, and that a frame cut short is refused.
use galculus.Common.{
  ℕ, ◌%◌, ◌+◌, ◌-◌, ◌^◌, ◌≤◌, ◌<◌, ◌≡◌, refl, sym, ap, ◌∙◌, arith, Bool, true, false, some, [], ◌∷◌,
  ◌++◌, ◌==◌, ==_iff, leb, leb→le, length, length-append, take, drop, take-add, take-append-drop,
  length-take, length-drop, Extends, Extends-refl, Bool-cases, All-append, All-append_left,
  All-append_right, length-Extends, Extends-trans, inl, inr,
}
use galculus.Core.Wire.{Bytes, IsBytes, IsField, size_t, write_u32}
use galculus.Core.Wire
use galculus.Core.Wire.Sound.{read_u32_sound}
use galculus.Core.Wire.RoundTrip.{write_u32-IsBytes}
use galculus.Core.Flow.{passing, testing, passed, tested}
use galculus.Core.Frame.{encode, decode, read_u32, magic, checksum, FrameDecodeResult}
use galculus.Core.Frame.RoundTrip.{
  header, sealed, encode-sealed, decode-encode_frame, length-sealed,
}

abbrev is_ok : FrameDecodeResult → Bool
is_ok r = r.result.ok

record Readings (frame payload : Bytes) : Type 0 where
  size : ℕ
  sum : ℕ
  reads_magic : read_u32 frame 0 ≡ some magic
  reads_size : read_u32 frame 4 ≡ some size
  complete : size_t (size_t (8 + size) + 4) ≤ length frame
  reads_sum : read_u32 frame (size_t (8 + size)) ≡ some sum
  content : payload ≡ take (size_t (8 + size) - 8) (drop 8 frame)
  agrees : checksum payload ≡ sum

readings :
    (frame : Bytes) (g : FrameDecodeResult)
    → decode frame ≡ g
    → g.result.ok ≡ true
    → Readings frame g.payload
unfolding decode
readings frame g e good = elim (passed is_ok (read_u32 frame 0) _ _ e good refl) [
  | passing m e1 k1 ↦ elim (tested is_ok (m == magic) _ _ k1 good refl) [
    | testing t1 k2 ↦ elim (passed is_ok (read_u32 frame 4) _ _ k2 good refl) [
      | passing n e2 k3 ↦
          elim (tested is_ok (leb (size_t (size_t (8 + n) + 4)) (length frame)) _ _ k3 good refl) [
            | testing t2 k4 ↦
                elim (passed is_ok (read_u32 frame (size_t (8 + n))) _ _ k4 good refl) [
                  | passing c e3 k5 ↦
                      elim (tested is_ok (checksum (take (size_t (8 + n) - 8) (drop 8 frame)) == c)
                        _ _ k5 good refl) [
                          | testing t3 k6 ↦ record {
                            size = n;
                            sum = c;
                            reads_magic = e1 ∙ ap some ((==_iff m magic).0 t1);
                            reads_size = e2;
                            complete = leb→le _ _ t2;
                            reads_sum = e3;
                            content = ap (λ (r : FrameDecodeResult). r.payload) (sym k6);
                            agrees = rw (← k6) ((==_iff _ c).0 t3);
                          }
                        ]
                ]
          ]
    ]
  ]
]

module _ (frame : Bytes) (valid : IsBytes frame) (small : length frame < 2 ^ 63) where
  read_u32-next :
      (o v : ℕ) → read_u32 frame o ≡ some v → Wire.read_u32 frame o ≡ some (v, size_t (o + 4))
  unfolding read_u32 Wire.read_u32
  read_u32-next o v e = ground arith

  Readings-encode :
      (payload : Bytes)
      → Readings frame payload
      → Extends (encode payload) frame × (length payload < 2 ^ 32)
  Readings-encode payload r =
      let (l1, v1, p1) =
        read_u32_sound frame valid small 0 (size_t (0 + 4)) magic (omega arith)
          (read_u32-next 0 magic r.reads_magic) in
      let (l2, v2, p2) =
        read_u32_sound frame valid small 4 (size_t (4 + 4)) r.size l1
          (read_u32-next 4 r.size r.reads_size) in
      let start : size_t (8 + r.size) ≡ 8 + r.size = omega arith in
      let fits : 8 + r.size + 4 ≤ length frame = omega (arith, r.complete) in
      let (l3, v3, p3) =
        read_u32_sound frame valid small (size_t (8 + r.size)) _ r.sum (omega arith)
          (read_u32-next _ r.sum r.reads_sum) in
      let content : payload ≡ take r.size (drop 8 frame) =
        r.content ∙ ap (λ (t : ℕ). take t (drop 8 frame)) (omega arith) in
      let size : length payload ≡ r.size =
        ap length content ∙ omega (arith, length-take r.size (drop 8 frame), length-drop 8 frame) in
      let body : take (size_t (8 + r.size)) frame ≡ header r.size ++ payload =
        rw (start, take-add 8 r.size frame, p2, p1, ← content) refl in
      let whole : frame
          ≡ sealed r.size payload r.sum ++ drop (size_t (size_t (8 + r.size) + 4)) frame =
        sym (take-append-drop _ frame)
        ∙ ap (λ (t : Bytes). t ++ drop (size_t (size_t (8 + r.size) + 4)) frame)
            (p3 ∙ ap (λ (t : Bytes). write_u32 t r.sum) body) in
      let bound : length payload < 2 ^ 32 = omega arith in
      (
        (
          drop (size_t (size_t (8 + r.size) + 4)) frame,
          whole ∙ rw (encode-sealed payload bound, r.agrees, size) refl,
        ),
        bound,
      )

-- Whatever Frame::decode accepts, of fewer than 2 ^ 63 bytes, begins with the frame of the payload
-- that it returns, which is shorter than 2 ^ 32.
pub decode_sound_frame :
    (frame : Bytes)
    → IsBytes frame
    → length frame < 2 ^ 63
    → (decode frame).result.ok ≡ true
    → Extends (encode (decode frame).payload) frame × (length (decode frame).payload < 2 ^ 32)
decode_sound_frame frame valid small good =
    Readings-encode frame valid small _ (readings frame (decode frame) refl good)

pub encode-IsBytes : (payload : Bytes) → IsBytes payload → IsBytes (encode payload)
unfolding encode
encode-IsBytes payload h =
    let head = write_u32-IsBytes (write_u32 [] magic) _ (write_u32-IsBytes [] magic tt) in
    write_u32-IsBytes _ _ (All-append _ (header _) payload head h)

pub length-encode :
    (payload : Bytes) → length payload < 2 ^ 32 → length (encode payload) ≡ length payload + 12
length-encode payload h =
    ap length (encode-sealed payload h) ∙ length-sealed (length payload) payload (checksum payload)

-- Frames are prefix-free: a frame that begins with another one is that one.
encode-Extends :
    (p q : Bytes) → length p < 2 ^ 32 → length q < 2 ^ 32 → Extends (encode p) (encode q) → p ≡ q
encode-Extends p q hp hq x =
    let size = length-encode q hq in
    let same = decode-encode_frame p (encode q) hp (omega arith) x in
    ap (λ (r : FrameDecodeResult). r.payload)
      (sym same ∙ decode-encode_frame q (encode q) hq (omega arith) (Extends-refl (encode q)))

-- The frame of a payload shorter than 2 ^ 32 that lost bytes at its end does not decode.
pub decode_truncated_frame :
    (payload front : Bytes) (b : ℕ) (lost : Bytes)
    → IsBytes payload
    → length payload < 2 ^ 32
    → encode payload ≡ front ++ (b ∷ lost)
    → (decode front).result.ok ≡ false
decode_truncated_frame payload front b lost valid h e = elim (Bool-cases (decode front).result.ok) [
  | inr bad ↦ bad
  | inl good ↦
      let size = length-encode payload h in
      let cuts = ap length e ∙ length-append front (b ∷ lost) in
      let front_valid =
        All-append_left (λ b. b < 256) front (b ∷ lost) (rw e at (encode-IsBytes payload valid)) in
      let (x, bound) = decode_sound_frame front front_valid (omega arith) good in
      let longer =
        Extends-trans (encode (decode front).payload) front (encode payload) x (b ∷ lost, e) in
      let same = encode-Extends (decode front).payload payload bound h longer in
      let fits = length-Extends (encode (decode front).payload) x in
      let size' = length-encode (decode front).payload bound in
      absurd (omega (arith, ap length same))
]

-- The payload of a frame of bytes is bytes.
pub payload-IsBytes :
    (payload frame : Bytes) → IsBytes frame → Extends (encode payload) frame → IsBytes payload
unfolding encode write_u32
payload-IsBytes payload frame valid (rest, e) =
    let whole = All-append_left (λ b. b < 256) (encode payload) rest (rw e at valid) in
    let front =
      All-append_left (λ b. b < 256) (header (length payload % 2 ^ 32) ++ payload) _ whole in
    All-append_right (λ b. b < 256) (header (length payload % 2 ^ 32)) payload front
