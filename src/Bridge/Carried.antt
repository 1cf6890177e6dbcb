-- ===== src/Bridge/Carried.antt =====
-- The messages of requests and responses consist of bytes, are as long as their strings and numbers
-- say, and so can be carried where they are short enough.
use galculus.Common.{
  ℕ, ◌+◌, ◌^◌, ◌<◌, ◌≤◌, ◌&&◌, ◌≡◌, refl, ◌∙◌, arith, Bool, true, false, [], ◌∷◌, ◌++◌, length,
  length-append, All, All-append, codes, if◌then◌else◌,
}
use galculus.Core.Wire.{Bytes, IsBytes, sized, sized-IsBytes}
use galculus.Core.Tcp.Messages.{IsCarried, short-IsCarried}
use galculus.Llm.{
  PromptRole, system, user, assistant, tool, PromptMessage, Prompt, LlmStatus, GenerationConfig,
}
use galculus.Bridge.{
  LlmRequest, LlmResponse, role_to_u8, status_to_u8, write_request, write_response, encode_request,
  encode_response,
}
use galculus.Bridge.Streams.{write_u32, write_str}
use galculus.Bridge.Fields.{
  IsRequest, messages_wire, config_wire, write_request_lem, write_response_lem,
}

-- Bytes, `n` of them.
abbrev pub HasSize : Bytes → ℕ → Type 0
HasSize b n = IsBytes b × (length b ≡ n)

-- As much, and the rest.
append-HasSize : (a b : Bytes) (m n : ℕ) → HasSize a m → HasSize b n → HasSize (a ++ b) (m + n)
append-HasSize a b m n (x, e) (y, d) = (All-append _ a b x y, omega (arith, length-append a b))

write_u32-HasSize : (value : ℕ) → HasSize (write_u32 [] value) 4
unfolding write_u32
write_u32-HasSize value = (omega arith, refl)

write_str-HasSize : (value : Bytes) (n : ℕ) → HasSize value n → HasSize (write_str [] value) (4 + n)
unfolding write_str
write_str-HasSize value n h = append-HasSize _ value 4 n (write_u32-HasSize _) h

role_to_u8-HasSize : (r : PromptRole) → HasSize (role_to_u8 r ∷ []) 1
unfolding role_to_u8
role_to_u8-HasSize system = (omega arith, refl)
role_to_u8-HasSize user = (omega arith, refl)
role_to_u8-HasSize assistant = (omega arith, refl)
role_to_u8-HasSize tool = (omega arith, refl)

status_to_u8-HasSize : (s : LlmStatus) → HasSize (status_to_u8 s ∷ []) 1
unfolding status_to_u8
status_to_u8-HasSize LlmStatus.ok = (omega arith, refl)
status_to_u8-HasSize LlmStatus.timeout = (omega arith, refl)
status_to_u8-HasSize LlmStatus.cancelled = (omega arith, refl)
status_to_u8-HasSize LlmStatus.invalid_prompt = (omega arith, refl)
status_to_u8-HasSize LlmStatus.backend_error = (omega arith, refl)

-- The contents, with a role and a size each.
abbrev pub prompt_size : Prompt → ℕ
prompt_size [] = 0
prompt_size (msg ∷ rest) = 1 + (4 + length msg.content + prompt_size rest)

pub length-le-prompt_size : (ms : Prompt) → length ms ≤ prompt_size ms
length-le-prompt_size [] = omega arith
length-le-prompt_size (msg ∷ rest) = omega (arith, length-le-prompt_size rest)

pub contents_fit_prompt_size :
    (ms : Prompt)
    → prompt_size ms < 2 ^ 32
    → All (λ (m : PromptMessage). length m.content < 2 ^ 32) ms
contents_fit_prompt_size [] h = tt
contents_fit_prompt_size (msg ∷ rest) h = (omega arith, contents_fit_prompt_size rest (omega arith))

abbrev pub IsText : Prompt → Type 0
IsText = All (λ (m : PromptMessage). IsBytes m.content)

-- The same as a test.
abbrev pub sized_text : Prompt → Bool
sized_text [] = true
sized_text (msg ∷ rest) = sized msg.content && sized_text rest

pub sized_text-IsText : (ms : Prompt) → sized_text ms ≡ true → IsText ms
sized_text-IsText [] h = tt
sized_text-IsText (msg ∷ rest) h =
    (sized-IsBytes msg.content (ground arith), sized_text-IsText rest (ground arith))

messages_wire-HasSize : (ms : Prompt) → IsText ms → HasSize (messages_wire ms) (prompt_size ms)
messages_wire-HasSize [] h = (tt, refl)
messages_wire-HasSize (msg ∷ rest) (here, more) =
    append-HasSize (role_to_u8 msg.role ∷ []) _ 1 _ (role_to_u8-HasSize msg.role) (
      append-HasSize (write_str [] msg.content) _ _ _ (write_str-HasSize msg.content _ (here, refl))
        (messages_wire-HasSize rest more))

flag-HasSize : (b : Bool) → HasSize (((if b then 1 else 0) ∷ []) ++ []) 1
flag-HasSize true = (omega arith, refl)
flag-HasSize false = (omega arith, refl)

config_wire-HasSize : (c : GenerationConfig) → HasSize (config_wire c) 21
config_wire-HasSize c = append-HasSize _ _ 4 17 (write_u32-HasSize c.max_tokens) (
    append-HasSize _ _ 4 13 (write_u32-HasSize c.temperature) (
      append-HasSize _ _ 4 9 (write_u32-HasSize c.top_p) (
        append-HasSize _ _ 4 5 (write_u32-HasSize c.seed)
          (append-HasSize _ _ 4 1 (write_u32-HasSize c.timeout_ms) (flag-HasSize c.stream)))))

nothing-HasSize : HasSize [] 0
nothing-HasSize = (tt, refl)

counted : (b : Bytes) (m n : ℕ) → HasSize b m → m ≡ n → HasSize b n
counted b m n (bytes, size) e = (bytes, size ∙ e)

pub write_request-HasSize :
    (r : LlmRequest)
    → IsRequest r
    → IsBytes r.request_id
    → IsText r.prompt
    → HasSize (write_request r) (43 + length r.request_id + prompt_size r.prompt)
write_request-HasSize r v id text = rw (write_request_lem r v) (
    counted _ _ _
      (append-HasSize _ _ 14 _
        (write_str-HasSize (codes "GLM_REQ_V1") 10 (sized-IsBytes (codes "GLM_REQ_V1") refl, refl))
        (append-HasSize _ _ _ _ (write_str-HasSize r.request_id _ (id, refl)) (
          append-HasSize _ _ 21 _ (config_wire-HasSize r.config) (
            append-HasSize _ _ 4 _ (write_u32-HasSize (length r.prompt))
              (append-HasSize _ [] _ 0 (messages_wire-HasSize r.prompt text) nothing-HasSize)))))
      (omega arith))

write_response-HasSize :
    (r : LlmResponse)
    → IsBytes r.request_id
    → IsBytes r.result.text
    → IsBytes r.result.error_message
    → HasSize
        (write_response r)
        (39 + length r.request_id + length r.result.text + length r.result.error_message)
write_response-HasSize r id text why = rw (write_response_lem r) (
    counted _ _ _
      (append-HasSize _ _ 14 _
        (write_str-HasSize (codes "GLM_RES_V1") 10 (sized-IsBytes (codes "GLM_RES_V1") refl, refl))
        (append-HasSize _ _ _ _ (write_str-HasSize r.request_id _ (id, refl)) (
          append-HasSize (status_to_u8 r.result.status ∷ []) _ 1 _
            (status_to_u8-HasSize r.result.status)
            (append-HasSize _ _ _ _ (write_str-HasSize r.result.text _ (text, refl)) (
              append-HasSize _ _ 4 _ (write_u32-HasSize r.result.prompt_tokens) (
                append-HasSize _ _ 4 _ (write_u32-HasSize r.result.completion_tokens) (
                  append-HasSize _ _ 4 _ (write_u32-HasSize r.result.elapsed_ms) (
                    append-HasSize _ [] _ 0 (write_str-HasSize r.result.error_message _ (why, refl))
                      nothing-HasSize))))))))
      (omega arith))

-- The message of a request with fields in range, whose strings and addresses consist of bytes and
-- are short enough together, has fields in range, consists of bytes, and fits one frame below 2 ^
-- 31.
pub encode_request-IsCarried :
    (r : LlmRequest) (source target : Bytes)
    → IsRequest r
    → IsBytes r.request_id
    → IsText r.prompt
    → IsBytes source
    → IsBytes target
    → length source + length target + length r.request_id + prompt_size r.prompt + 97 < 2 ^ 31
    → IsCarried (encode_request r source target)
unfolding encode_request
encode_request-IsCarried r source target v id text from to fits =
    let (bytes, size) = write_request-HasSize r v id text in
    short-IsCarried (encode_request r source target) (omega arith) (omega arith) from to
      (sized-IsBytes (codes "LLM_REQUEST") refl) bytes (omega arith)

-- The message of a response whose strings and addresses consist of bytes and are short enough
-- together has fields in range, consists of bytes, and fits one frame below 2 ^ 31.
pub encode_response-IsCarried :
    (r : LlmResponse) (source target : Bytes)
    → IsBytes r.request_id
    → IsBytes r.result.text
    → IsBytes r.result.error_message
    → IsBytes source
    → IsBytes target
    → length source
        + length target
        + length r.request_id
        + length r.result.text
        + length r.result.error_message
        + 94
      < 2 ^ 31
    → IsCarried (encode_response r source target)
unfolding encode_response
encode_response-IsCarried r source target id text why from to fits =
    let (bytes, size) = write_response-HasSize r id text why in
    short-IsCarried (encode_response r source target) (omega arith) (omega arith) from to
      (sized-IsBytes (codes "LLM_RESPONSE") refl) bytes (omega arith)
