-- ===== src/Bridge.antt =====
-- llm_bridge/: requests to a model and its answers as messages, LLMMessageCodec.cpp,
-- LLMRequest.hpp and LLMResponse.hpp. The bits of a `float` go over as they are.
pub mod Framed
pub mod Streams
pub mod Reads
pub mod Fields
pub mod RoundTrip
pub mod Carried
use Prim.Native.String.{String}
use galculus.Common.{
  ℕ, zero, suc, ◌%◌, ◌^◌, Bool, true, false, not, ◌==◌, ◌==ᵇ◌, List, [], ◌∷◌, length, codes,
  if◌then◌else◌,
}
use galculus.Core.Wire.{Bytes}
use galculus.Core.Message.{Message, blank}
use galculus.Llm.{
  PromptRole, system, user, assistant, tool, PromptMessage, Prompt, add, LlmStatus, LlmResult,
  GenerationConfig,
}
use galculus.Common.Exceptions.{Thrown, ok, throw}
use galculus.Bridge.Streams.{
  Reader, ◌>>=◌, ◌>>◌, return, fail, write_u8, write_u32, write_str, read_u8, read_u32, read_str,
}

pub record LlmRequest : Type 0 where
  pub request_id : Bytes
  pub prompt : Prompt
  pub config : GenerationConfig

pub record LlmResponse : Type 0 where
  pub request_id : Bytes
  pub result : LlmResult

unfoldable pub role_to_u8 : PromptRole → ℕ
role_to_u8 system = 0
role_to_u8 user = 1
role_to_u8 assistant = 2
role_to_u8 tool = 3

unfoldable pub u8_to_role : ℕ → Reader PromptRole
u8_to_role value =
    if value == 0
    then return system
    else if value == 1
    then return user
    else if value == 2
    then return assistant
    else if value == 3
    then return tool
    else fail "LLMMessageCodec: invalid prompt role"

unfoldable pub status_to_u8 : LlmStatus → ℕ
status_to_u8 LlmStatus.ok = 0
status_to_u8 LlmStatus.timeout = 1
status_to_u8 LlmStatus.cancelled = 2
status_to_u8 LlmStatus.invalid_prompt = 3
status_to_u8 LlmStatus.backend_error = 4

unfoldable pub u8_to_status : ℕ → LlmStatus
u8_to_status value =
    if value == 0
    then LlmStatus.ok
    else if value == 1
    then LlmStatus.timeout
    else if value == 2
    then LlmStatus.cancelled
    else if value == 3
    then LlmStatus.invalid_prompt
    else LlmStatus.backend_error

-- The four cases of the switch differ in the role alone.
unfoldable pub add_prompt_message : Prompt → PromptRole → Bytes → Prompt
add_prompt_message prompt role content = add role content prompt

unfoldable pub write_messages : Bytes → Prompt → Bytes
write_messages out [] = out
write_messages out (msg ∷ rest) =
    write_messages (write_str (write_u8 out (role_to_u8 msg.role)) msg.content) rest

unfoldable pub write_config : Bytes → GenerationConfig → Bytes
write_config out config =
    let limited = write_u32 out config.max_tokens in
    let warmed = write_u32 limited config.temperature in
    let cut = write_u32 warmed config.top_p in
    let seeded = write_u32 cut config.seed in
    let timed = write_u32 seeded config.timeout_ms in
    write_u8 timed (if config.stream then 1 else 0)

unfoldable pub write_request : LlmRequest → Bytes
write_request request =
    let named = write_str (write_str [] (codes "GLM_REQ_V1")) request.request_id in
    let configured = write_config named request.config in
    write_messages (write_u32 configured (length request.prompt % 2 ^ 32)) request.prompt

unfoldable pub encode_request : LlmRequest → Bytes → Bytes → Message
encode_request request source target = record blank {
  source = source;
  target = target;
  event = record { name = codes "LLM_REQUEST"; payload = write_request request };
}

-- The loop over the messages, with `left` to go.
unfoldable pub read_messages : ℕ → Prompt → Reader Prompt
read_messages zero prompt = return prompt
read_messages (suc left) prompt = do
  value ← read_u8
  role ← u8_to_role value
  content ← read_str
  read_messages left (add_prompt_message prompt role content)

unfoldable pub read_config : Reader GenerationConfig
read_config = do
  max_tokens ← read_u32
  temperature ← read_u32
  top_p ← read_u32
  seed ← read_u32
  timeout_ms ← read_u32
  stream ← read_u8
  return (record {
    max_tokens = max_tokens;
    temperature = temperature;
    top_p = top_p;
    seed = seed;
    timeout_ms = timeout_ms;
    stream = not (stream == 0);
  })

abbrev pub expect : Bool → String → Reader (Unit {0})
expect true why = return tt
expect false why = fail why

unfoldable pub read_request : Reader LlmRequest
read_request = do
  magic ← read_str
  expect (magic ==ᵇ codes "GLM_REQ_V1") "Invalid LLM request payload"
  request_id ← read_str
  config ← read_config
  message_count ← read_u32
  prompt ← read_messages message_count []
  return (record { request_id = request_id; prompt = prompt; config = config })

-- The value that a reader of the whole payload ends with.
abbrev pub result_of {ℓ} : {A : Type ℓ} → Thrown (A × ℕ) → Thrown A
result_of (ok (a, offset)) = ok a
result_of (throw why) = throw why

unfoldable pub decode_request : Message → Thrown LlmRequest
decode_request message =
    if not (message.event.name ==ᵇ codes "LLM_REQUEST")
    then throw "Message is not LLM_REQUEST"
    else result_of (read_request message.event.payload 0)

unfoldable pub write_response : LlmResponse → Bytes
write_response response =
    let named = write_str (write_str [] (codes "GLM_RES_V1")) response.request_id in
    let judged = write_u8 named (status_to_u8 response.result.status) in
    let said = write_str judged response.result.text in
    let prompted = write_u32 said response.result.prompt_tokens in
    let completed = write_u32 prompted response.result.completion_tokens in
    let timed = write_u32 completed response.result.elapsed_ms in
    write_str timed response.result.error_message

unfoldable pub encode_response : LlmResponse → Bytes → Bytes → Message
encode_response response source target = record blank {
  source = source;
  target = target;
  event = record { name = codes "LLM_RESPONSE"; payload = write_response response };
}

unfoldable pub read_response : Reader LlmResponse
read_response = do
  magic ← read_str
  expect (magic ==ᵇ codes "GLM_RES_V1") "Invalid LLM response payload"
  request_id ← read_str
  status ← read_u8
  text ← read_str
  prompt_tokens ← read_u32
  completion_tokens ← read_u32
  elapsed_ms ← read_u32
  error_message ← read_str
  return (record {
    request_id = request_id;
    result = record {
      status = u8_to_status status;
      text = text;
      prompt_tokens = prompt_tokens;
      completion_tokens = completion_tokens;
      elapsed_ms = elapsed_ms;
      error_message = error_message;
    };
  })

unfoldable pub decode_response : Message → Thrown LlmResponse
decode_response message =
    if not (message.event.name ==ᵇ codes "LLM_RESPONSE")
    then throw "Message is not LLM_RESPONSE"
    else result_of (read_response message.event.payload 0)
