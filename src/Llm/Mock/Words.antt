-- ===== src/Llm/Mock/Words.antt =====
-- The loops against the words of a text.
use galculus.Common.{
  ℕ, zero, suc, ◌+◌, ◌%◌, ◌^◌, ◌≤◌, ◌<◌, ◌≡◌, refl, sym, ap, ◌∙◌, arith, true, false, Bool-cases,
  inl, inr, ◌⊎◌, if◌then◌else◌, none, some, [], ◌∷◌, length, take, List, ◌++◌, append-nil,
  append_assoc, lt→ltb, ltb-false, ◌==◌,
}
use galculus.Core.Wire.{Bytes}
use galculus.Llm.Mock.{
  is_space, skip_space, take_word, extract_word, next_word, limit_loop, limit_words, count_loop,
  count_words,
}

-- The words of a text: what stands in front of the first white space, and the words behind.
abbrev pub put : Bytes → List Bytes → List Bytes
put [] rest = rest
put (c ∷ word) rest = (c ∷ word) ∷ rest

abbrev pub pieces : Bytes → Bytes × List Bytes
pieces [] = ([], [])
pieces (c ∷ text) =
    let (front, rest) = pieces text in
    if is_space c then ([], put front rest) else (c ∷ front, rest)

abbrev pub words : Bytes → List Bytes
words text = let (front, rest) = pieces text in put front rest

-- White space at the front.
words_space : (c : ℕ) (text : Bytes) → is_space c ≡ true → pieces (c ∷ text) ≡ ([], words text)
words_space c text e = rw e refl

skip_space-words : (text : Bytes) → words (skip_space text) ≡ words text
unfolding skip_space
skip_space-words [] = refl
skip_space-words (c ∷ text) = elim (Bool-cases (is_space c)) [
  | inl e ↦
      let skipped : skip_space (c ∷ text) ≡ skip_space text = rw (skip_space, e) refl in
      ap words skipped
      ∙ skip_space-words text
      ∙ sym (ap (λ (p : Bytes × List Bytes). put p.0 p.1) (words_space c text e))
  | inr e ↦ let kept : skip_space (c ∷ text) ≡ c ∷ text = rw (skip_space, e) refl in ap words kept
]

take_word-pieces :
    (text : Bytes)
    → ((take_word text).0 ≡ (pieces text).0) × (words (take_word text).1 ≡ (pieces text).1)
unfolding take_word
take_word-pieces [] = (refl, refl)
take_word-pieces (c ∷ text) = elim (Bool-cases (is_space c)) [
  | inl e ↦
      let taken : take_word (c ∷ text) ≡ ([], c ∷ text) = rw (take_word, e) refl in
      let split = words_space c text e in
      (
        ap (λ (p : Bytes × Bytes). p.0) taken ∙ sym (ap (λ (p : Bytes × List Bytes). p.0) split),
        ap (λ (p : Bytes × Bytes). words p.1) taken
            ∙ ap (λ (p : Bytes × List Bytes). put p.0 p.1) split
            ∙ sym (ap (λ (p : Bytes × List Bytes). p.1) split),
      )
  | inr e ↦ let (word, rest) = take_word-pieces text in rw e (ap (◌∷◌ c) word, rest)
]

length-skip_space : (text : Bytes) → length (skip_space text) ≤ length text
unfolding skip_space
length-skip_space [] = omega arith
length-skip_space (c ∷ text) = ground (arith, length-skip_space text)

length-take_word : (text : Bytes) → length (take_word text).1 ≤ length text
unfolding take_word
length-take_word [] = omega arith
length-take_word (c ∷ text) = ground (arith, length-take_word text)

-- What is left behind the white space is nothing or begins with a word.
skip_space-cases :
    (text : Bytes)
    → (skip_space text ≡ [])
      ⊎ ((c : ℕ) × ((rest : Bytes) × ((is_space c ≡ false) × (skip_space text ≡ c ∷ rest))))
unfolding skip_space
skip_space-cases [] = inl refl
skip_space-cases (c ∷ text) = elim (Bool-cases (is_space c)) [
  | inl e ↦ rw e (skip_space-cases text)
  | inr e ↦ rw e (inr (c, (text, (e, refl))))
]

-- An extraction takes the first word.
next_word-cases :
    (text : Bytes)
    → ((next_word text ≡ none) × (words text ≡ []))
      ⊎ ((word after : Bytes) × (next_word text ≡ some (word, after))
          × (words text ≡ word ∷ words after)
          × (length after < length text))
unfolding next_word extract_word take_word
next_word-cases text = elim (skip_space-cases text) [
  | inl e ↦ inl (rw e refl, sym (skip_space-words text) ∙ ap words e)
  | inr (c, (rest, (word, e))) ↦
      let (front, behind) = take_word-pieces rest in
      let first : words (c ∷ rest) ≡ (c ∷ (take_word rest).0) ∷ words (take_word rest).1 =
        rw (word, front, behind) refl in
      inr (
        c ∷ (take_word rest).0,
        (take_word rest).1,
        rw (e, word) refl,
        sym (skip_space-words text) ∙ ap words e ∙ first,
        omega (arith, length-take_word rest, length-skip_space text, ap length e),
      )
]

count_loop_lem :
    (rounds : ℕ) (text : Bytes) (count : ℕ)
    → count < 2 ^ 32
    → length text ≤ rounds
    → count_loop rounds text count ≡ (count + length (words text)) % 2 ^ 32
unfolding count_loop
count_loop_lem zero [] count h enough = omega arith
count_loop_lem zero (c ∷ text) count h enough = elim enough [ ]
count_loop_lem (suc rounds) text count h enough = elim (next_word-cases text) [
  | inl (e, none_left) ↦ rw e (omega (arith, ap length none_left))
  | inr (word, after, e, split, shorter) ↦ rw e (
      count_loop_lem rounds after ((count + 1) % 2 ^ 32) (omega arith) (omega arith)
      ∙ omega (arith, ap length split))
]

-- The loop of the mock counts, modulo 2 ^ 32, the pieces of a text that white space leaves.
pub count_words_lem : (text : Bytes) → count_words text ≡ length (words text) % 2 ^ 32
unfolding count_words
count_words_lem text = count_loop_lem (length text) text 0 (omega arith) (omega arith) ∙ omega arith

-- Words with a space in front of each, and a space between two.
abbrev pub spaced : List Bytes → Bytes
spaced [] = []
spaced (word ∷ rest) = 32 ∷ word ++ spaced rest

abbrev pub joined : List Bytes → Bytes
joined [] = []
joined (word ∷ rest) = word ++ spaced rest

-- What the loop adds behind its first word.
limit_loop-spaced :
    (rounds : ℕ) (text : Bytes) (left count : ℕ) (out : Bytes)
    → length text ≤ rounds
    → limit_loop rounds text (suc count + left) (suc count) out
      ≡ out ++ spaced (take left (words text))
unfolding limit_loop
limit_loop-spaced zero [] zero count out enough = sym (append-nil out)
limit_loop-spaced zero [] (suc left) count out enough = sym (append-nil out)
limit_loop-spaced zero (c ∷ text) left count out enough = elim enough [ ]
limit_loop-spaced (suc rounds) text zero count out enough =
    rw (ltb-false (suc count) (suc count + 0) (omega arith)) (sym (append-nil out))
limit_loop-spaced (suc rounds) text (suc left) count out enough = elim (next_word-cases text) [
  | inl (e, none_left) ↦
      rw (lt→ltb (suc count) (suc count + suc left) (omega arith), e, none_left)
        (sym (append-nil out))
  | inr (word, after, e, split, shorter) ↦
      let next : suc count + suc left ≡ suc (suc count) + left = omega arith in
      let counted : suc count + 1 ≡ suc (suc count) = omega arith in
      rw
        (
          lt→ltb (suc count) (suc count + suc left) (omega arith),
          e,
          split,
          lt→ltb 0 (suc count) (omega arith),
          next,
          counted,
        )
        (limit_loop-spaced rounds after left (suc count) (out ++ 32 ∷ [] ++ word) (omega arith)
          ∙ simp append_assoc)
]

limit_loop-joined :
    (rounds : ℕ) (text : Bytes) (left : ℕ)
    → length text ≤ rounds
    → limit_loop rounds text (suc left) 0 [] ≡ joined (take (suc left) (words text))
unfolding limit_loop
limit_loop-joined zero [] left enough = refl
limit_loop-joined zero (c ∷ text) left enough = elim enough [ ]
limit_loop-joined (suc rounds) text left enough = elim (next_word-cases text) [
  | inl (e, none_left) ↦ rw (lt→ltb 0 (suc left) (omega arith), e, none_left) refl
  | inr (word, after, e, split, shorter) ↦
      let next : suc left ≡ suc 0 + left = omega arith in
      rw (lt→ltb 0 (suc left) (omega arith), e, split)
        (ap (λ (most : ℕ). limit_loop rounds after most 1 word) next
          ∙ limit_loop-spaced rounds after left 0 word (omega arith))
]

not_zero : (left : ℕ) → (suc left == 0) ≡ false
not_zero left = ground arith

-- The text is cut down to its first words, with one space between two.
limit_words_lem :
    (text : Bytes) (max_words : ℕ)
    → limit_words text max_words ≡ joined (take max_words (words text))
unfolding limit_words
limit_words_lem text zero = refl
limit_words_lem text (suc left) =
    rw (not_zero left) (limit_loop-joined (length text) text left (omega arith))
