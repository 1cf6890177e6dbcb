-- ===== src/Nodes/Replies.antt =====
-- What the server's model answers, whatever the request, can be carried back.
use galculus.Common.{ℕ, ◌+◌, ◌^◌, ◌<◌, ◌≤◌, refl, arith, [], ◌∷◌, length, codes}
use galculus.Core.Wire.{Bytes, IsBytes, sized-IsBytes}
use galculus.Core.Message.{Message}
use galculus.Core.Tcp.Messages.{IsCarried}
use galculus.Llm.{Prompt, GenerationConfig, LlmResult, Clock, blank_result, elapsed}
use galculus.Llm.Mock
use galculus.Llm.Mock.Words.{count_words_lem}
use galculus.Bridge.{LlmRequest, LlmResponse, encode_response}
use galculus.Bridge.Fields.{IsResponse}
use galculus.Bridge.Carried.{encode_response-IsCarried}
use galculus.Nodes.{fixed_response}

-- The response to a request.
abbrev pub response_to : (clock : Clock) → clock.State → LlmRequest → LlmResponse
response_to clock time request = record {
  request_id = request.request_id;
  result = (Mock.generate clock fixed_response time request.prompt request.config).1;
}

abbrev pub reply_to : (clock : Clock) → clock.State → LlmRequest → Bytes → Message
reply_to clock time request source =
    encode_response (response_to clock time request) (codes "llm.server") source

-- Short texts of bytes, and numbers of 32 bits.
record IsShort (r : LlmResult) : Type 0 where
  text : IsBytes r.text × (length r.text ≤ 68)
  why : IsBytes r.error_message × (length r.error_message ≤ 15)
  prompt_tokens : r.prompt_tokens < 2 ^ 32
  completion_tokens : r.completion_tokens < 2 ^ 32
  elapsed_ms : r.elapsed_ms < 2 ^ 32

count_words-lt : (text : Bytes) → Mock.count_words text < 2 ^ 32
count_words-lt text = rw (count_words_lem text) (omega arith)

module _ (clock : Clock) where
  answered-IsShort :
      (o : clock.State × ℕ) (prompt : Prompt)
      → IsShort (Mock.answered clock fixed_response o prompt).1
  unfolding Mock.answered blank_result elapsed
  answered-IsShort (s, start) [] = record {
    text = (tt, omega arith);
    why = (sized-IsBytes (codes "Prompt is empty") refl, omega arith);
    prompt_tokens = omega arith;
    completion_tokens = omega arith;
    elapsed_ms = omega arith;
  }
  answered-IsShort (s, start) (message ∷ rest) = record {
    text = (sized-IsBytes fixed_response refl, omega arith);
    why = (tt, omega arith);
    prompt_tokens = count_words-lt _;
    completion_tokens = count_words-lt _;
    elapsed_ms = omega arith;
  }

  generate-IsShort :
      (time : clock.State) (prompt : Prompt) (config : GenerationConfig)
      → IsShort (Mock.generate clock fixed_response time prompt config).1
  unfolding Mock.generate
  generate-IsShort time prompt config = answered-IsShort (clock.now time) prompt

  pub response_to-IsResponse :
      (time : clock.State) (request : LlmRequest)
      → length request.request_id < 2 ^ 32
      → IsResponse (response_to clock time request)
  response_to-IsResponse time request id =
      let v = generate-IsShort time request.prompt request.config in
      record {
        request_id_fits = id;
        text_fits = omega (arith, v.text.1);
        prompt_tokens_fits = v.prompt_tokens;
        completion_tokens_fits = v.completion_tokens;
        elapsed_ms_fits = v.elapsed_ms;
        error_message_fits = omega (arith, v.why.1);
      }

  pub reply_to-IsCarried :
      (time : clock.State) (request : LlmRequest) (source : Bytes)
      → IsBytes request.request_id
      → IsBytes source
      → length source + length request.request_id + 187 < 2 ^ 31
      → IsCarried (reply_to clock time request source)
  reply_to-IsCarried time request source id from fits =
      let v = generate-IsShort time request.prompt request.config in
      encode_response-IsCarried (response_to clock time request) (codes "llm.server") source id
        v.text.0 v.why.0 (sized-IsBytes (codes "llm.server") refl) from
        (omega (arith, v.text.1, v.why.1))
