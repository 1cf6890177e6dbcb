-- ===== src/Tools/Parsing.antt =====
-- What the parser takes from a text, against three separate scans of its lines, and from the format
-- that the demo's prompt asks for.
use galculus.Common.{
  ℕ, Bool, true, false, not, ◌&&◌, ◌==◌, ==_iff, ◌==ᵇ◌, ==ᵇ_ne, Bool-cases, inl, inr, ◌≡◌, refl, ap,
  ◌∙◌, ◌≢◌, arith, List, [], ◌∷◌, ◌++◌, Option, none, some, codes, if◌then◌else◌, length, drop, All,
}
use galculus.Common.Exceptions.{Thrown, ok, throw, caught}
use galculus.Core.Wire.{Bytes}
use galculus.Tools.{
  ToolCall, lines, first_byte, starts_with, value_after_equals, parse_line, parse_lines, named,
  parse,
}

-- The rests of the lines that begin with `key`.
abbrev pub values : Bytes → List Bytes → List Bytes
values key [] = []
values key (line ∷ rest) =
    let more = values key rest in
    if starts_with key line then drop (length key) line ∷ more else more

abbrev pub last_of : Bytes → List Bytes → Bytes
last_of x [] = x
last_of x (y ∷ rest) = last_of y rest

abbrev pub convert :
    {Double : Type 0} → (Bytes → Thrown Double) → Double → List Bytes → Thrown Double
convert stod number [] = ok number
convert stod number (text ∷ rest) = caught (λ next. convert stod next rest) (stod text)

plain_value :
    (word line : Bytes)
    → All (λ c. (c == 61) ≡ false) word
    → starts_with (word ++ 61 ∷ []) line ≡ true
    → value_after_equals line ≡ drop (length (word ++ 61 ∷ [])) line
unfolding starts_with value_after_equals
plain_value [] [] h e = refl
plain_value [] (c ∷ line) h e = ground (arith, ==_iff 61 c)
plain_value (w ∷ word) [] h e = refl
plain_value (w ∷ word) (c ∷ line) h e = ground (arith, plain_value word line h.1, h.0)

-- No line begins with two of the keys.
other_key :
    (a b : ℕ) (xs ys line : Bytes)
    → (a == b) ≡ false
    → starts_with (a ∷ xs) line ≡ true
    → starts_with (b ∷ ys) line ≡ false
unfolding starts_with
other_key a b xs ys [] n e = refl
other_key a b xs ys (c ∷ line) n e = ground (arith, ==_iff a c)

module _ {Double : Type 0} (stod : Bytes → Thrown Double) where
  -- A call out of three scans.
  abbrev pub described : List Bytes → ToolCall Double → Thrown (ToolCall Double)
  described ls call =
      caught
        (λ number. ok (record {
          name = last_of call.name (values (codes "tool=") ls);
          reason = last_of call.reason (values (codes "reason=") ls);
          confidence = number;
        }))
        (convert stod call.confidence (values (codes "confidence=") ls))

  parse_number :
      (rest numbers : List Bytes) (call : ToolCall Double) (f : Double → ToolCall Double)
      (result : Thrown Double)
      → ((n : Double)
          → parse_lines stod rest (record call { confidence = n })
            ≡ caught (λ x. ok (f x)) (convert stod n numbers))
      → caught (parse_lines stod rest) (caught (λ n. ok (record call { confidence = n })) result)
        ≡ caught (λ x. ok (f x)) (caught (λ n. convert stod n numbers) result)
  parse_number rest numbers call f (ok n) h = h n
  parse_number rest numbers call f (throw why) h = refl

  parse_lines_lem :
      (ls : List Bytes) (call : ToolCall Double) → parse_lines stod ls call ≡ described ls call
  unfolding parse_lines parse_line
  parse_lines_lem [] call = refl
  parse_lines_lem (line ∷ rest) call = elim (Bool-cases (starts_with (codes "tool=") line)) [
    | inl t ↦
        rw
          (
            t,
            other_key 116 114 _ (codes "eason=") line refl t,
            other_key 116 99 _ (codes "onfidence=") line refl t,
            plain_value (codes "tool") line (refl, (refl, (refl, (refl, tt)))) t,
          )
          (parse_lines_lem rest _)
    | inr t ↦ elim (Bool-cases (starts_with (codes "reason=") line)) [
      | inl r ↦
          rw
            (
              t,
              r,
              other_key 114 99 _ (codes "onfidence=") line refl r,
              plain_value (codes "reason") line (refl, (refl, (refl, (refl, (refl, (refl, tt))))))
                  r,
            )
            (parse_lines_lem rest _)
      | inr r ↦ elim (Bool-cases (starts_with (codes "confidence=") line)) [
        | inl c ↦
            rw
              (
                t,
                r,
                c,
                plain_value (codes "confidence") line
                    (
                      refl,
                      (refl, (refl, (refl, (refl, (refl, (refl, (refl, (refl, (refl, tt))))))))),
                    )
                    c,
              )
              (parse_number rest (values (codes "confidence=") rest) call _ (stod (drop 11 line))
                (λ n. parse_lines_lem rest (record call { confidence = n })))
        | inr c ↦ rw (t, r, c) (parse_lines_lem rest _)
      ]
    ]
  ]

  -- The three scans of a text, with the default values of a call.
  abbrev pub described_text : Double → Bytes → Thrown (Option (ToolCall Double))
  described_text start text =
      let name = last_of [] (values (codes "tool=") (lines text)) in
      caught
        (λ number. ok (
          if name ==ᵇ []
          then none
          else some (record {
            name = name;
            reason = last_of [] (values (codes "reason=") (lines text));
            confidence = number;
          })))
        (convert stod start (values (codes "confidence=") (lines text)))

  chain :
      {A B C : Type 0} (f : A → Thrown B) (g : B → Thrown C) (o : Thrown A)
      → caught g (caught f o) ≡ caught (λ a. caught g (f a)) o
  chain f g (ok a) = refl
  chain f g (throw why) = refl

  -- The parser's one pass gives what three separate scans of the lines give: the last value of
  -- each key, and no call without a name; the first number that does not convert throws.
  pub parse_lem :
      (start : Double) (text : Bytes) → parse stod start text ≡ described_text start text
  unfolding parse named
  parse_lem start text =
      ap (caught (λ call. ok (named call)))
        (parse_lines_lem (lines text) (record { name = []; reason = []; confidence = start }))
      ∙ chain _ _ (convert stod start (values (codes "confidence=") (lines text)))

abbrev pub one_line : Bytes → Bool
one_line [] = true
one_line (c ∷ text) = not (c == 10) && one_line text

lines-line :
    (line rest : Bytes) → one_line line ≡ true → lines (line ++ 10 ∷ rest) ≡ line ∷ lines rest
unfolding lines first_byte
lines-line [] rest h = refl
lines-line (c ∷ line) rest h = ground (arith, lines-line line rest)

-- The format that the demo's prompt asks for.
abbrev pub written : Bytes → Bytes → Bytes → Bytes
written name reason number =
    (codes "tool=" ++ name)
    ++ 10 ∷ ((codes "reason=" ++ reason) ++ 10 ∷ ((codes "confidence=" ++ number) ++ 10 ∷ []))

module _ {Double : Type 0} (stod : Bytes → Thrown Double) where
  -- A text in the demo's format, with fields of one line each, a name that is not empty and a number
  -- that std::stod converts, is parsed to the call with those fields.
  pub parse-written :
      (start value : Double) (name reason number : Bytes)
      → name ≢ []
      → one_line name ≡ true
      → one_line reason ≡ true
      → one_line number ≡ true
      → stod number ≡ ok value
      → parse stod start (written name reason number)
        ≡ ok (some (record { name = name; reason = reason; confidence = value }))
  unfolding starts_with lines
  parse-written start value name reason number some_name n r c accepted =
      parse_lem stod start (written name reason number)
      ∙ rw
          (
            lines-line (codes "tool=" ++ name) _ n,
            lines-line (codes "reason=" ++ reason) _ r,
            lines-line (codes "confidence=" ++ number) [] c,
          )
          (ap
              (λ (o : Thrown Double).
                caught
                  (λ x. ok (
                    if name ==ᵇ []
                    then none
                    else some (record { name = name; reason = reason; confidence = x })))
                  (caught (λ x. ok x) o))
              accepted
            ∙ ap
                (λ (b : Bool). ok (
                  if b
                  then none
                  else some (record { name = name; reason = reason; confidence = value })))
                (==ᵇ_ne name [] some_name))
