-- ===== src/Core/Protocol/Sound.antt =====
-- What `decode` accepts.
use galculus.Common.{
  ℕ, suc, ◌+◌, ◌%◌, ◌^◌, ◌≤◌, ◌<◌, ◌≡◌, refl, sym, ap, ◌∙◌, arith, Bool, true, some, [], ◌∷◌, ◌++◌,
  ◌==◌, ==_iff, get_or, length, Extends, take, drop, take-append-drop, take-suc, All-get_or,
}
use galculus.Core.Wire.{Bytes, IsBytes, read_u16, read_u32, read_u64, read_bytes}
use galculus.Core.Wire.Sound.{read_u16_sound, read_u32_sound, read_u64_sound, read_bytes_sound}
use galculus.Core.Flow.{passing, testing, passed, tested}
use galculus.Core.Message.{Message, IsMessage}
use galculus.Core.Protocol.{encode, decode, DecodeResult, read_type, magic, version}

-- Whether the decoding succeeded.
abbrev is_ok : DecodeResult → Bool
is_ok r = r.result.ok

-- The readings of a successful decoding, and the offsets between them.
record Readings (bytes : Bytes) (m : Message) : Type 0 where
  o1 : ℕ
  o2 : ℕ
  o3 : ℕ
  o4 : ℕ
  o5 : ℕ
  o6 : ℕ
  o7 : ℕ
  o8 : ℕ
  reads_magic : read_u32 bytes 0 ≡ some (magic, o1)
  reads_version : read_u16 bytes o1 ≡ some (version, o2)
  reads_type : read_type bytes o2 ≡ some (m.type, o3)
  reads_id : read_u64 bytes o3 ≡ some (m.id, o4)
  reads_source : read_bytes bytes o4 ≡ some (m.source, o5)
  reads_target : read_bytes bytes o5 ≡ some (m.target, o6)
  reads_name : read_bytes bytes o6 ≡ some (m.event.name, o7)
  reads_payload : read_bytes bytes o7 ≡ some (m.event.payload, o8)

readings :
    (bytes : Bytes) (g : DecodeResult)
    → decode bytes ≡ g
    → g.result.ok ≡ true
    → Readings bytes g.message
unfolding decode
readings bytes g e good = elim (passed is_ok (read_u32 bytes 0) _ _ e good refl) [
  | passing a e1 k1 ↦ elim (tested is_ok (a.0 == magic) _ _ k1 good refl) [
    | testing t1 k2 ↦ elim (passed is_ok (read_u16 bytes a.1) _ _ k2 good refl) [
      | passing b e2 k3 ↦ elim (tested is_ok (b.0 == version) _ _ k3 good refl) [
        | testing t2 k4 ↦ elim (passed is_ok (read_type bytes b.1) _ _ k4 good refl) [
          | passing c e3 k5 ↦ elim (passed is_ok (read_u64 bytes c.1) _ _ k5 good refl) [
            | passing d e4 k6 ↦ elim (passed is_ok (read_bytes bytes d.1) _ _ k6 good refl) [
              | passing f e5 k7 ↦ elim (passed is_ok (read_bytes bytes f.1) _ _ k7 good refl) [
                | passing h e6 k8 ↦ elim (passed is_ok (read_bytes bytes h.1) _ _ k8 good refl) [
                  | passing i e7 k9 ↦ elim (passed is_ok (read_bytes bytes i.1) _ _ k9 good refl) [
                    | passing j e8 k10 ↦ record {
                      o1 = a.1;
                      o2 = b.1;
                      o3 = c.1;
                      o4 = d.1;
                      o5 = f.1;
                      o6 = h.1;
                      o7 = i.1;
                      o8 = j.1;
                      reads_magic = e1 ∙ ap (λ (t : ℕ). some (t, a.1)) ((==_iff a.0 magic).0 t1);
                      reads_version =
                          e2 ∙ ap (λ (t : ℕ). some (t, b.1)) ((==_iff b.0 version).0 t2);
                      reads_type = e3 ∙ ap (λ (r : DecodeResult). some (r.message.type, c.1)) k10;
                      reads_id = e4 ∙ ap (λ (r : DecodeResult). some (r.message.id, d.1)) k10;
                      reads_source =
                          e5 ∙ ap (λ (r : DecodeResult). some (r.message.source, f.1)) k10;
                      reads_target =
                          e6 ∙ ap (λ (r : DecodeResult). some (r.message.target, h.1)) k10;
                      reads_name =
                          e7 ∙ ap (λ (r : DecodeResult). some (r.message.event.name, i.1)) k10;
                      reads_payload =
                          e8 ∙ ap (λ (r : DecodeResult). some (r.message.event.payload, j.1)) k10;
                    }
                  ]
                ]
              ]
            ]
          ]
        ]
      ]
    ]
  ]
]

module _ (bytes : Bytes) (valid : IsBytes bytes) (small : length bytes < 2 ^ 63) where
  read_type_sound :
      (o o' t : ℕ)
      → o ≤ length bytes
      → read_type bytes o ≡ some (t, o')
      → (o' ≤ length bytes) × (t < 256) × (take o' bytes ≡ take o bytes ++ (t % 256 ∷ []))
  unfolding read_type
  read_type_sound o o' t h e =
      let parts : (o + 1 ≤ length bytes) × (o' ≡ o + 1) × (t ≡ get_or bytes o 0) = ground arith in
      let (fits, step, value) = parts in
      let small_byte = All-get_or (λ b. b < 256) bytes o 0 valid (omega arith) in
      let after : o' ≡ suc o = omega arith in
      (
        omega arith,
        omega arith,
        rw (after, take-suc bytes o 0 (omega arith))
            (ap (λ (t : ℕ). take o bytes ++ t ∷ []) (omega arith)),
      )

  -- The bytes that a successful decoding has read are the encoding of what it returns.
  Readings-encode : (m : Message) → Readings bytes m → Extends (encode m) bytes × IsMessage m
  unfolding encode
  Readings-encode m r =
      let (l1, v1, p1) =
        read_u32_sound bytes valid small 0 r.o1 magic (omega arith) r.reads_magic in
      let (l2, v2, p2) = read_u16_sound bytes valid small r.o1 r.o2 version l1 r.reads_version in
      let (l3, v3, p3) = read_type_sound r.o2 r.o3 m.type l2 r.reads_type in
      let (l4, v4, p4) = read_u64_sound bytes valid small r.o3 r.o4 m.id l3 r.reads_id in
      let (l5, v5, p5) = read_bytes_sound bytes valid small r.o4 r.o5 m.source l4 r.reads_source in
      let (l6, v6, p6) = read_bytes_sound bytes valid small r.o5 r.o6 m.target l5 r.reads_target in
      let (l7, v7, p7) =
        read_bytes_sound bytes valid small r.o6 r.o7 m.event.name l6 r.reads_name in
      let (l8, v8, p8) =
        read_bytes_sound bytes valid small r.o7 r.o8 m.event.payload l7 r.reads_payload in
      (
        (
          drop r.o8 bytes,
          rw (← p1, ← p2, ← p3, ← p4, ← p5, ← p6, ← p7, ← p8) (sym (take-append-drop r.o8 bytes)),
        ),
        record {
          id_fits = v4;
          type_fits = v3;
          source_fits = v5;
          target_fits = v6;
          name_fits = v7;
          payload_fits = v8;
        },
      )

-- Whatever Protocol::decode accepts, of fewer than 2 ^ 63 bytes, begins with the encoding of the
-- message that it returns, and that message has fields in range.
pub decode_sound :
    (bytes : Bytes)
    → IsBytes bytes
    → length bytes < 2 ^ 63
    → (decode bytes).result.ok ≡ true
    → Extends (encode (decode bytes).message) bytes × IsMessage (decode bytes).message
decode_sound bytes valid small good =
    Readings-encode bytes valid small _ (readings bytes (decode bytes) refl good)
