-- ===== src/Llm/Mock.antt =====
-- llm/src/MockLLM.cpp: a model with a fixed answer, that counts words. `stream >> word` skips white
-- space and takes what stands up to the next.
pub mod Words
use Prim.Native.String.{String}
use galculus.Common.{
  ℕ, zero, suc, ◌+◌, ◌%◌, ◌^◌, Bool, true, false, ◌&&◌, ◌||◌, ◌==◌, leb, if◌then◌else◌, Option,
  none, some, List, [], ◌∷◌, ◌++◌, codes, length, ltb,
}
use galculus.Common.Exceptions.{Thrown}
use galculus.Core.Wire.{Bytes}
use galculus.Llm.{
  LlmRuntime, Prompt, to_string, invalid_prompt, ok, LlmResult, blank_result, GenerationConfig,
  Clock, elapsed,
}

-- `isspace` in the classic locale.
unfoldable pub is_space : ℕ → Bool
is_space c = (c == 32) || (leb 9 c && leb c 13)

unfoldable pub skip_space : Bytes → Bytes
skip_space [] = []
skip_space (c ∷ text) = let rest = skip_space text in if is_space c then rest else c ∷ text

-- A word, and what stands behind it.
unfoldable pub take_word : Bytes → Bytes × Bytes
take_word [] = ([], [])
take_word (c ∷ text) =
    let (word, rest) = take_word text in if is_space c then ([], c ∷ text) else (c ∷ word, rest)

unfoldable pub extract_word : Bytes → Option (Bytes × Bytes)
unfolding take_word
extract_word [] = none
extract_word (c ∷ text) = some (take_word (c ∷ text))

-- `stream >> word` on what is left of the stream.
unfoldable pub next_word : Bytes → Option (Bytes × Bytes)
unfolding skip_space extract_word
next_word text = extract_word (skip_space text)

-- `while (stream >> word)`: what follows an extraction.
abbrev pub while_word : Option (Bytes × Bytes) → ℕ → (Bytes → ℕ) → ℕ
while_word none count body = count
while_word (some (word, rest)) count body = body rest

-- A word takes a byte at least, so there are no more rounds than bytes.
unfoldable pub count_loop : ℕ → Bytes → ℕ → ℕ
count_loop zero stream count = count
count_loop (suc rounds) stream count =
    while_word (next_word stream) count (λ rest. count_loop rounds rest ((count + 1) % 2 ^ 32))

unfoldable pub count_words : Bytes → ℕ
unfolding count_loop
count_words text = count_loop (length text) text 0

abbrev pub limited_word : Option (Bytes × Bytes) → Bytes → (Bytes → Bytes → Bytes) → Bytes
limited_word none out body = out
limited_word (some (word, rest)) out body = body word rest

-- `while (count < max_words && stream >> word)`: `count` stays below 2 ^ 32; with the words that were written to `out`.
unfoldable pub limit_loop : ℕ → Bytes → ℕ → ℕ → Bytes → Bytes
limit_loop zero stream max_words count out = out
limit_loop (suc rounds) stream max_words count out =
    if ltb count max_words
    then limited_word (next_word stream) out (λ word rest.
      limit_loop rounds rest max_words (count + 1)
        (out ++ (if ltb 0 count then 32 ∷ [] else []) ++ word))
    else out

unfoldable pub limit_words : Bytes → ℕ → Bytes
limit_words text max_words =
    if max_words == 0 then [] else limit_loop (length text) text max_words 0 []

module _ (clock : Clock) (fixed_response : Bytes) where
  -- What follows the first reading of the clock.
  unfoldable pub answered : clock.State × ℕ → Prompt → clock.State × LlmResult
  unfolding blank_result
  answered (s, start) [] =
      (s, record blank_result { status = invalid_prompt; error_message = codes "Prompt is empty" })
  answered (s, start) (message ∷ rest) =
      let (s', end) = clock.now s in
      (
        s',
        record blank_result {
          status = ok;
          text = fixed_response;
          prompt_tokens = count_words (to_string (message ∷ rest));
          completion_tokens = count_words fixed_response;
          elapsed_ms = elapsed start end;
        },
      )

  unfoldable pub generate : clock.State → Prompt → GenerationConfig → clock.State × LlmResult
  unfolding answered
  generate s prompt config = answered (clock.now s) prompt

  abbrev pub mock_llm : LlmRuntime
  mock_llm = record {
    State = clock.State;
    generate =
        λ s prompt config. let (s', result) = generate s prompt config in (s', Thrown.ok result);
    name = λ s. codes "MockLLM";
  }
