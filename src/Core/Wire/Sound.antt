-- ===== src/Core/Wire/Sound.antt =====
-- The converse of the round trips: what a reader accepts is what its writer would have written.
use Prim.Native.Nat.{bit_or}
use galculus.Common.{
  ℕ, suc, ◌+◌, ◌*◌, ◌%◌, ◌^◌, ◌≤◌, ◌<◌, ◌≡◌, ap, ◌∙◌, arith, [], ◌∷◌, ◌++◌, some, get_or, take,
  drop, length, length-take, length-drop, take-suc, take-add, All-get_or, All-take, All-drop,
  append_assoc, Option-cases, inl, inr,
}
use galculus.Core.Wire.{
  Bytes, IsBytes, word_at, write_u16, write_u32, write_u64, write_bytes, read_u16, read_u32,
  read_u64, read_bytes, read_content, read_u64_loop, IsField,
}
use galculus.Core.Wire.Words.{byte_at_lem, join16, join32, join64}
use galculus.Core.Wire.RoundTrip.{write_u64_lem}

module _ (bytes : Bytes) (valid : IsBytes bytes) (small : length bytes < 2 ^ 63) where
  abbrev at : ℕ → ℕ
  at i = get_or bytes i 0

  byte-lt : (i : ℕ) → i < length bytes → at i < 256
  byte-lt i h = All-get_or (λ b. b < 256) bytes i 0 valid h

  -- One more byte of the prefix.
  grow :
      (o i : ℕ)
      → o + i < length bytes
      → take (o + (i + 1)) bytes ≡ take (o + i) bytes ++ at (o + i) ∷ []
  grow o i h =
      let next : o + (i + 1) ≡ suc (o + i) = omega arith in rw next (take-suc bytes (o + i) 0 h)

  take_two :
      (o : ℕ) → o + 2 ≤ length bytes → take (o + 2) bytes ≡ take o bytes ++ (at o ∷ at (o + 1) ∷ [])
  take_two o h =
      let start : o + 0 ≡ o = omega arith in
      grow o 1 (omega arith) ∙ rw (grow o 0 (omega arith), start, append_assoc)

  take_four :
      (o : ℕ)
      → o + 4 ≤ length bytes
      → take (o + 4) bytes ≡ take o bytes ++ (at o ∷ at (o + 1) ∷ at (o + 2) ∷ at (o + 3) ∷ [])
  take_four o h =
      grow o 3 (omega arith)
      ∙ rw (grow o 2 (omega arith), take_two o (omega arith)) (simp append_assoc)

  read_u16-parts :
      (o o' v : ℕ)
      → o ≤ length bytes
      → read_u16 bytes o ≡ some (v, o')
      → (o + 2 ≤ length bytes) × (o' ≡ o + 2) × (v ≡ bit_or (at o * 2 ^ 8) (at (o + 1)) % 2 ^ 16)
  unfolding read_u16
  read_u16-parts o o' v h e = ground arith

  read_u32-parts :
      (o o' v : ℕ)
      → o ≤ length bytes
      → read_u32 bytes o ≡ some (v, o')
      → (o + 4 ≤ length bytes) × (o' ≡ o + 4) × (v ≡ word_at bytes o)
  unfolding read_u32
  read_u32-parts o o' v h e = ground arith

  read_u64-parts :
      (o o' v : ℕ)
      → o ≤ length bytes
      → read_u64 bytes o ≡ some (v, o')
      → (o + 8 ≤ length bytes) × (o' ≡ o + 8) × (v ≡ read_u64_loop 8 bytes o 0)
  unfolding read_u64
  read_u64-parts o o' v h e = ground arith

  read_content-parts :
      (o o' size : ℕ) (value : Bytes)
      → o ≤ length bytes
      → size < 2 ^ 32
      → read_content bytes size o ≡ some (value, o')
      → (o + size ≤ length bytes) × (o' ≡ o + size) × (value ≡ take size (drop o bytes))
  unfolding read_content
  read_content-parts o o' size value h k e = ground arith

  word_at_lem :
      (o : ℕ)
      → o + 4 ≤ length bytes
      → word_at bytes o ≡ at o * 2 ^ 24 + at (o + 1) * 2 ^ 16 + at (o + 2) * 2 ^ 8 + at (o + 3)
  unfolding word_at
  word_at_lem o h =
      join32 (at o) (at (o + 1)) (at (o + 2)) (at (o + 3)) (byte-lt o (omega arith))
        (byte-lt (o + 1) (omega arith)) (byte-lt (o + 2) (omega arith))
        (byte-lt (o + 3) (omega arith))

  pub read_u16_sound :
      (o o' v : ℕ)
      → o ≤ length bytes
      → read_u16 bytes o ≡ some (v, o')
      → (o' ≤ length bytes) × (v < 2 ^ 16) × (take o' bytes ≡ write_u16 (take o bytes) v)
  unfolding write_u16
  read_u16_sound o o' v h e =
      let (fits, next, value) = read_u16-parts o o' v h e in
      let b0 = byte-lt o (omega arith) in
      let b1 = byte-lt (o + 1) (omega arith) in
      let sum = value ∙ join16 (at o) (at (o + 1)) b0 b1 in
      (
        omega arith,
        omega arith,
        rw (next, take_two o fits) (ground (arith, byte_at_lem v 8, byte_at_lem v 0)),
      )

  pub read_u32_sound :
      (o o' v : ℕ)
      → o ≤ length bytes
      → read_u32 bytes o ≡ some (v, o')
      → (o' ≤ length bytes) × (v < 2 ^ 32) × (take o' bytes ≡ write_u32 (take o bytes) v)
  unfolding write_u32
  read_u32_sound o o' v h e =
      let (fits, next, value) = read_u32-parts o o' v h e in
      let b0 = byte-lt o (omega arith) in
      let b1 = byte-lt (o + 1) (omega arith) in
      let b2 = byte-lt (o + 2) (omega arith) in
      let b3 = byte-lt (o + 3) (omega arith) in
      let sum = value ∙ word_at_lem o fits in
      (
        omega arith,
        omega arith,
        rw (next, take_four o fits)
            (ground (arith, byte_at_lem v 24, byte_at_lem v 16, byte_at_lem v 8, byte_at_lem v 0)),
      )

  take_eight :
      (o : ℕ)
      → o + 8 ≤ length bytes
      → take (o + 8) bytes
        ≡ take o bytes
          ++ (at (o + 0)
              ∷ at (o + 1)
              ∷ at (o + 2)
              ∷ at (o + 3)
              ∷ at (o + 4)
              ∷ at (o + 5)
              ∷ at (o + 6)
              ∷ at (o + 7)
              ∷ [])
  take_eight o h =
      let start : o + 0 ≡ o = omega arith in
      grow o 7 (omega arith)
      ∙ rw
          (
            grow o 6 (omega arith),
            grow o 5 (omega arith),
            grow o 4 (omega arith),
            take_four o (omega arith),
            start,
          )
          (simp append_assoc)

  pub read_u64_sound :
      (o o' v : ℕ)
      → o ≤ length bytes
      → read_u64 bytes o ≡ some (v, o')
      → (o' ≤ length bytes) × (v < 2 ^ 64) × (take o' bytes ≡ write_u64 (take o bytes) v)
  read_u64_sound o o' v h e =
      let (fits, next, value) = read_u64-parts o o' v h e in
      let start : o ≡ o + 0 = omega arith in
      let b = λ (i : ℕ) (k : i < 8). byte-lt (o + i) (omega arith) in
      let sum = value ∙ ap (λ (t : ℕ). read_u64_loop 8 bytes t 0) start ∙ join64 bytes o b in
      let b0 = b 0 (omega arith) in
      let b1 = b 1 (omega arith) in
      let b2 = b 2 (omega arith) in
      let b3 = b 3 (omega arith) in
      let b4 = b 4 (omega arith) in
      let b5 = b 5 (omega arith) in
      let b6 = b 6 (omega arith) in
      let b7 = b 7 (omega arith) in
      (
        omega arith,
        omega arith,
        rw (next, take_eight o fits, write_u64_lem)
            (ap (◌++◌ (take o bytes)) (
              ground (
                arith,
                byte_at_lem v 56,
                byte_at_lem v 48,
                byte_at_lem v 40,
                byte_at_lem v 32,
                byte_at_lem v 24,
                byte_at_lem v 16,
                byte_at_lem v 8,
                byte_at_lem v 0,
              ))),
      )

  pub read_bytes_sound :
      (o o' : ℕ) (value : Bytes)
      → o ≤ length bytes
      → read_bytes bytes o ≡ some (value, o')
      → (o' ≤ length bytes) × IsField value × (take o' bytes ≡ write_bytes (take o bytes) value)
  unfolding read_bytes write_bytes
  read_bytes_sound o o' value h e = elim (Option-cases (read_u32 bytes o)) [
    | inl bad ↦ absurd (ground (arith, bad))
    | inr ((size, p), good) ↦
        let (k, lt, prefix) = read_u32_sound o p size h good in
        let (fits, next, content) =
          read_content-parts p o' size value k lt (rw (good, read_bytes) at e) in
        let size_eq : length value ≡ size =
          rw content (omega (arith, length-take size (drop p bytes), length-drop p bytes)) in
        (
          omega arith,
          (
            rw content (All-take (λ b. b < 256) size _ (All-drop (λ b. b < 256) p bytes valid)),
            omega arith,
          ),
          rw (next, take-add p size bytes, ← content, prefix)
              (ap (λ (t : ℕ). write_u32 (take o bytes) t ++ value) (omega arith)),
        )
  ]
