-- ===== src/Bridge/Reads.antt =====
-- What a reader makes of the bytes that a writer wrote, whole and cut off, step by step.
use Prim.Native.Nat.{bit_or}
use galculus.Common.{
  ℕ, ◌+◌, ◌*◌, ◌%◌, ◌^◌, ◌≤◌, ◌<◌, ◌≡◌, refl, sym, ap, ap₂, ◌∙◌, arith, ◌⊎◌, inl, inr, [], ◌∷◌,
  ◌++◌, length, length-append, get_or, take, drop, append_assoc, append-nil, take-append_length,
  drop-append_length, get_or-Extends,
}
use galculus.Common.Bits.{bit_or-shift, bit_or_comm}
use galculus.Core.Wire.{Bytes, byte_at, shl}
use galculus.Core.Wire.Words.{byte_at_lem}
use galculus.Common.Exceptions.{ok, throw}
use galculus.Bridge.Streams.{
  Reader, follow, ◌>>=◌, return, truncated, require, write_u32, write_str, read_u8, word_at,
  read_u32, read_str,
}

-- The reader takes `w` for `v`, wherever it stands, and does not do with less.
pub record Reads {A : Type 0} (p : Reader A) (w : Bytes) (v : A) : Type 0 where
  pub reads :
      (pre rest : Bytes)
      → length (pre ++ w ++ rest) < 2 ^ 63
      → p (pre ++ w ++ rest) (length pre) ≡ ok (v, length (pre ++ w))
  pub cuts :
      (pre front : Bytes) (b : ℕ) (lost : Bytes)
      → w ≡ front ++ (b ∷ lost)
      → length (pre ++ front) < 2 ^ 63
      → p (pre ++ front) (length pre) ≡ throw truncated

not_nil : (front : Bytes) (b : ℕ) (lost : Bytes) → [] ≡ front ++ (b ∷ lost) → ⊥
not_nil front b lost e = omega (arith, ap length e, length-append front (b ∷ lost))

pub return-Reads : {A : Type 0} (v : A) → Reads (return v) [] v
return-Reads v = record {
  reads = λ pre rest small. ap (λ (t : Bytes). ok (v, length t)) (sym (append-nil pre));
  cuts = λ pre front b lost e small. absurd (not_nil front b lost e);
}

-- Where a cut falls into two parts.
cut_cases :
    (x y front : Bytes) (b : ℕ) (lost : Bytes)
    → x ++ y ≡ front ++ (b ∷ lost)
    → ((more : Bytes) × (x ≡ front ++ (b ∷ more)))
      ⊎ ((behind : Bytes) × (front ≡ x ++ behind) × (y ≡ behind ++ (b ∷ lost)))
cut_cases [] y front b lost e = inr (front, refl, e)
cut_cases (c ∷ x) y [] b lost e = inl (x, cc)
cut_cases (c ∷ x) y (d ∷ front) b lost e = elim (cut_cases x y front b lost cc) [
  | inl (more, h) ↦ inl (more, cc)
  | inr (behind, h, k) ↦ inr (behind, cc, k)
]

pub bind-Reads :
    {A B : Type 0} {m : Reader A} (f : A → Reader B) {w w' : Bytes} {v : A} {v' : B}
    → Reads m w v
    → Reads (f v) w' v'
    → Reads (m >>= f) (w ++ w') v'
bind-Reads {m} f {w} {w'} {v} {v'} r s = record {
  reads = λ pre rest small.
      let once : pre ++ (w ++ w') ++ rest ≡ pre ++ w ++ (w' ++ rest) = simp append_assoc in
      let twice : pre ++ (w ++ w') ++ rest ≡ pre ++ w ++ w' ++ rest = simp append_assoc in
      let sizes = ap length once in
      let same = ap length twice in
      ap (λ (t : Bytes). follow f t (m t (length pre))) once
      ∙ ap (follow f (pre ++ w ++ (w' ++ rest))) (r.reads pre (w' ++ rest) (omega arith))
      ∙ ap (λ (t : Bytes). f v t (length (pre ++ w))) (sym once ∙ twice)
      ∙ s.reads (pre ++ w) rest (omega arith)
      ∙ ap (λ (t : Bytes). ok (v', length t)) (append_assoc pre w w');
  cuts = λ pre front b lost e small. elim (cut_cases w w' front b lost e) [
    | inl (more, h) ↦ ap (follow f (pre ++ front)) (r.cuts pre front b more h small)
    | inr (behind, h, k) ↦
        let once : pre ++ front ≡ pre ++ w ++ behind =
          ap (◌++◌ pre) h ∙ sym (append_assoc pre w behind) in
        let sizes = ap length once in
        ap (λ (t : Bytes). follow f t (m t (length pre))) once
        ∙ ap (follow f (pre ++ w ++ behind)) (r.reads pre behind (omega arith))
        ∙ s.cuts (pre ++ w) behind b lost k (omega arith)
  ];
}

-- What `require` lets through.
enough :
    {A : Type 0} (count : ℕ) (read : Bytes → ℕ → A) (bytes : Bytes) (offset : ℕ)
    → count ≤ 2 ^ 32
    → length bytes < 2 ^ 63
    → offset + count ≤ length bytes
    → require count read bytes offset ≡ ok (read bytes offset, offset + count)
unfolding require
enough count read bytes offset small fits room = ground arith

too_few :
    {A : Type 0} (count : ℕ) (read : Bytes → ℕ → A) (bytes : Bytes) (offset : ℕ)
    → count ≤ 2 ^ 32
    → offset ≤ length bytes
    → length bytes < 2 ^ 63
    → length bytes < offset + count
    → require count read bytes offset ≡ throw truncated
unfolding require
too_few count read bytes offset small here fits short = ground arith

pub require-Reads :
    {A : Type 0} (count : ℕ) (read : Bytes → ℕ → A) (w : Bytes) (v : A)
    → count ≤ 2 ^ 32
    → length w ≡ count
    → ((pre rest : Bytes) → read (pre ++ w ++ rest) (length pre) ≡ v)
    → Reads (require count read) w v
require-Reads {A} count read w v small size value = record {
  reads = λ pre rest fits.
      enough count read (pre ++ w ++ rest) (length pre) small fits
        (omega (arith, length-append (pre ++ w) rest, length-append pre w))
      ∙ ap₂ (λ (a : A) (o : ℕ). ok (a, o)) (value pre rest) (omega (arith, length-append pre w));
  cuts = λ pre front b lost e fits.
      too_few count read (pre ++ front) (length pre) small (omega (arith, length-append pre front))
        fits (omega (arith, ap length e, length-append front (b ∷ lost), length-append pre front));
}

read_from :
    (pre w rest : Bytes) (i : ℕ)
    → i < length w
    → get_or (pre ++ w ++ rest) (length pre + i) 0 ≡ get_or w i 0
read_from pre w rest i h = get_or-Extends pre w (pre ++ w ++ rest) i 0 (rest, refl) h

pub u8-Reads : (v : ℕ) → Reads read_u8 (v ∷ []) v
unfolding read_u8
u8-Reads v = require-Reads 1 _ (v ∷ []) v (omega arith) refl (λ pre rest.
    let start : length pre ≡ length pre + 0 = omega arith in
    ap (λ (o : ℕ). get_or (pre ++ v ∷ [] ++ rest) o 0) start
    ∙ read_from pre (v ∷ []) rest 0 (omega arith))

-- A value of `k` bits below a word whose low `k` bits are clear.
bit_or-below : (k q r x : ℕ) → x ≡ q * 2 ^ k → r < 2 ^ k → bit_or r x ≡ r + x
bit_or-below k q r x e h =
    bit_or_comm r x ∙ ap (λ (t : ℕ). bit_or t r) e ∙ bit_or-shift k q r h ∙ omega (arith, e)

join_low :
    (a b c d : ℕ)
    → a < 256
    → b < 256
    → c < 256
    → d < 256
    → bit_or (bit_or (bit_or (bit_or 0 (shl 32 a 0)) (shl 32 b 8)) (shl 32 c 16)) (shl 32 d 24)
      ≡ a + b * 2 ^ 8 + c * 2 ^ 16 + d * 2 ^ 24
join_low a b c d ha hb hc hd =
    rw
      (
        bit_or-below 0 a 0 (shl 32 a 0) (omega arith) (omega arith),
        bit_or-below 8 b (0 + shl 32 a 0) (shl 32 b 8) (omega arith) (omega arith),
        bit_or-below 16 c (0 + shl 32 a 0 + shl 32 b 8) (shl 32 c 16) (omega arith) (omega arith),
        bit_or-below 24 d (0 + shl 32 a 0 + shl 32 b 8 + shl 32 c 16) (shl 32 d 24) (omega arith)
            (omega arith),
      )
      (omega arith)

pub u32-Reads : (v : ℕ) → v < 2 ^ 32 → Reads read_u32 (write_u32 [] v) v
unfolding read_u32 word_at write_u32
u32-Reads v h =
    let w = write_u32 [] v in
    require-Reads 4 word_at w v (omega arith) refl (λ pre rest.
      rw
        (
          read_from pre w rest 0 (omega arith),
          read_from pre w rest 1 (omega arith),
          read_from pre w rest 2 (omega arith),
          read_from pre w rest 3 (omega arith),
        )
        (join_low (byte_at v 0) (byte_at v 8) (byte_at v 16) (byte_at v 24) (omega arith)
            (omega arith) (omega arith) (omega arith)
          ∙ omega (arith, byte_at_lem v 24, byte_at_lem v 16, byte_at_lem v 8, byte_at_lem v 0)))

pub str-Reads : (s : Bytes) → length s < 2 ^ 32 → Reads read_str (write_str [] s) s
unfolding read_str write_str
str-Reads s h =
    let fits : length s % 2 ^ 32 ≡ length s = omega arith in
    rw fits (
      bind-Reads (λ (size : ℕ). require size (λ bytes offset. take size (drop offset bytes)))
        (u32-Reads (length s) h)
        (require-Reads (length s) _ s s (omega arith) refl
          (λ pre rest. rw (append_assoc, drop-append_length) (take-append_length s rest))))
