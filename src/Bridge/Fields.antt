-- ===== src/Bridge/Fields.antt =====
-- The bytes of requests and responses, field by field, and what the readers make of them.
use Prim.Native.String.{String}
use mathlib.Core.Path.{subst}
use galculus.Common.{
  ◌%◌, ◌^◌, ◌<◌, ◌≡◌, refl, sym, ap, ◌∙◌, arith, Bool, true, false, not, ◌==◌, ==ᵇ_self, [], ◌∷◌,
  ◌++◌, length, append_assoc, append-nil, All, codes, if◌then◌else◌,
}
use galculus.Core.Wire.{Bytes}
use galculus.Llm.{
  PromptRole, system, user, assistant, tool, PromptMessage, Prompt, add, LlmStatus,
  GenerationConfig,
}
use galculus.Bridge.{
  LlmRequest, LlmResponse, role_to_u8, u8_to_role, status_to_u8, u8_to_status, add_prompt_message,
  write_messages, write_config, write_request, read_messages, read_config, expect, read_request,
  write_response, read_response,
}
use galculus.Bridge.Streams.{return, write_u8, write_u32, write_str}
use galculus.Bridge.Reads.{Reads, return-Reads, bind-Reads, u8-Reads, u32-Reads, str-Reads}

-- What the C++ types admit, with each string and the list short enough for its size field.
pub record IsConfig (c : GenerationConfig) : Type 0 where
  pub max_tokens_fits : c.max_tokens < 2 ^ 32
  pub temperature_fits : c.temperature < 2 ^ 32
  pub top_p_fits : c.top_p < 2 ^ 32
  pub seed_fits : c.seed < 2 ^ 32
  pub timeout_ms_fits : c.timeout_ms < 2 ^ 32

pub record IsRequest (r : LlmRequest) : Type 0 where
  pub request_id_fits : length r.request_id < 2 ^ 32
  pub config_fits : IsConfig r.config
  pub count_fits : length r.prompt < 2 ^ 32
  pub contents_fit : All (λ (m : PromptMessage). length m.content < 2 ^ 32) r.prompt

pub record IsResponse (r : LlmResponse) : Type 0 where
  pub request_id_fits : length r.request_id < 2 ^ 32
  pub text_fits : length r.result.text < 2 ^ 32
  pub prompt_tokens_fits : r.result.prompt_tokens < 2 ^ 32
  pub completion_tokens_fits : r.result.completion_tokens < 2 ^ 32
  pub elapsed_ms_fits : r.result.elapsed_ms < 2 ^ 32
  pub error_message_fits : length r.result.error_message < 2 ^ 32

role-Reads : (r : PromptRole) → Reads (u8_to_role (role_to_u8 r)) [] r
unfolding u8_to_role role_to_u8
role-Reads system = return-Reads system
role-Reads user = return-Reads user
role-Reads assistant = return-Reads assistant
role-Reads tool = return-Reads tool

u8_to_status-status_to_u8 : (s : LlmStatus) → u8_to_status (status_to_u8 s) ≡ s
unfolding u8_to_status status_to_u8
u8_to_status-status_to_u8 LlmStatus.ok = refl
u8_to_status-status_to_u8 LlmStatus.timeout = refl
u8_to_status-status_to_u8 LlmStatus.cancelled = refl
u8_to_status-status_to_u8 LlmStatus.invalid_prompt = refl
u8_to_status-status_to_u8 LlmStatus.backend_error = refl

-- The bytes of the fields, bracketed to the right.
abbrev pub messages_wire : Prompt → Bytes
messages_wire [] = []
messages_wire (msg ∷ rest) =
    (role_to_u8 msg.role ∷ []) ++ ([] ++ (write_str [] msg.content ++ messages_wire rest))

write_messages_lem : (out : Bytes) (ms : Prompt) → write_messages out ms ≡ out ++ messages_wire ms
unfolding write_messages write_u8 write_str write_u32
write_messages_lem out [] = sym (append-nil out)
write_messages_lem out (msg ∷ rest) =
    write_messages_lem (write_str (write_u8 out (role_to_u8 msg.role)) msg.content) rest
    ∙ simp append_assoc

read_messages-Reads :
    (ms acc : Prompt)
    → All (λ (m : PromptMessage). length m.content < 2 ^ 32) ms
    → Reads (read_messages (length ms) acc) (messages_wire ms) (acc ++ ms)
unfolding read_messages add_prompt_message add
read_messages-Reads [] acc h =
    subst (Reads (return acc) []) (sym (append-nil acc)) (return-Reads acc)
read_messages-Reads (msg ∷ rest) acc h = bind-Reads _ (u8-Reads (role_to_u8 msg.role)) (
    bind-Reads _ (role-Reads msg.role) (
      bind-Reads _ (str-Reads msg.content h.0) (
        subst (Reads (read_messages (length rest) (acc ++ msg ∷ [])) (messages_wire rest))
          (append_assoc acc (msg ∷ []) rest) (read_messages-Reads rest (acc ++ msg ∷ []) h.1))))

abbrev pub config_wire : GenerationConfig → Bytes
config_wire c =
    write_u32 [] c.max_tokens
    ++ (write_u32 [] c.temperature
        ++ (write_u32 [] c.top_p
            ++ (write_u32 [] c.seed
                ++ (write_u32 [] c.timeout_ms ++ (((if c.stream then 1 else 0) ∷ []) ++ [])))))

write_config_lem : (out : Bytes) (c : GenerationConfig) → write_config out c ≡ out ++ config_wire c
unfolding write_config write_u8 write_u32
write_config_lem out c = simp append_assoc

stream_flag : (b : Bool) → not ((if b then 1 else 0) == 0) ≡ b
stream_flag true = refl
stream_flag false = refl

read_config-Reads : (c : GenerationConfig) → IsConfig c → Reads read_config (config_wire c) c
unfolding read_config
read_config-Reads c v = bind-Reads _ (u32-Reads c.max_tokens v.max_tokens_fits) (
    bind-Reads _ (u32-Reads c.temperature v.temperature_fits) (
      bind-Reads _ (u32-Reads c.top_p v.top_p_fits) (
        bind-Reads _ (u32-Reads c.seed v.seed_fits) (
          bind-Reads _ (u32-Reads c.timeout_ms v.timeout_ms_fits) (
            bind-Reads _ (u8-Reads (if c.stream then 1 else 0)) (
              subst
                (Reads (return (record c { stream = not ((if c.stream then 1 else 0) == 0) })) [])
                (ap (λ (b : Bool). record c { stream = b }) (stream_flag c.stream))
                (return-Reads _)))))))

abbrev pub request_wire : LlmRequest → Bytes
request_wire r =
    write_str [] (codes "GLM_REQ_V1")
    ++ ([]
        ++ (write_str [] r.request_id
            ++ (config_wire r.config
                ++ (write_u32 [] (length r.prompt) ++ (messages_wire r.prompt ++ [])))))

abbrev pub response_wire : LlmResponse → Bytes
response_wire r =
    write_str [] (codes "GLM_RES_V1")
    ++ ([]
        ++ (write_str [] r.request_id
            ++ ((status_to_u8 r.result.status ∷ [])
                ++ (write_str [] r.result.text
                    ++ (write_u32 [] r.result.prompt_tokens
                        ++ (write_u32 [] r.result.completion_tokens
                            ++ (write_u32 [] r.result.elapsed_ms
                                ++ (write_str [] r.result.error_message ++ []))))))))

pub write_request_lem : (r : LlmRequest) → IsRequest r → write_request r ≡ request_wire r
unfolding write_request write_u32 write_str
write_request_lem r v =
    let count : length r.prompt % 2 ^ 32 ≡ length r.prompt = omega (arith, v.count_fits) in
    rw (count, write_messages_lem, write_config_lem) (simp (append_assoc, append-nil))

pub write_response_lem : (r : LlmResponse) → write_response r ≡ response_wire r
unfolding write_response write_u32 write_str write_u8
write_response_lem r = simp (append_assoc, append-nil)

expect-Reads : (b : Bool) (why : String) → b ≡ true → Reads (expect b why) [] tt
expect-Reads true why h = return-Reads tt
expect-Reads false why h = cc

pub read_request-Reads : (r : LlmRequest) → IsRequest r → Reads read_request (request_wire r) r
unfolding read_request
read_request-Reads r v = bind-Reads _ (str-Reads (codes "GLM_REQ_V1") (omega arith)) (
    bind-Reads _ (expect-Reads _ _ (==ᵇ_self (codes "GLM_REQ_V1"))) (
      bind-Reads _ (str-Reads r.request_id v.request_id_fits) (
        bind-Reads _ (read_config-Reads r.config v.config_fits) (
          bind-Reads _ (u32-Reads (length r.prompt) v.count_fits)
            (bind-Reads _ (read_messages-Reads r.prompt [] v.contents_fit) (return-Reads r))))))

pub read_response-Reads : (r : LlmResponse) → IsResponse r → Reads read_response (response_wire r) r
unfolding read_response
read_response-Reads r v = bind-Reads _ (str-Reads (codes "GLM_RES_V1") (omega arith)) (
    bind-Reads _ (expect-Reads _ _ (==ᵇ_self (codes "GLM_RES_V1"))) (
      bind-Reads _ (str-Reads r.request_id v.request_id_fits) (
        bind-Reads _ (u8-Reads (status_to_u8 r.result.status)) (
          bind-Reads _ (str-Reads r.result.text v.text_fits) (
            bind-Reads _ (u32-Reads r.result.prompt_tokens v.prompt_tokens_fits) (
              bind-Reads _ (u32-Reads r.result.completion_tokens v.completion_tokens_fits) (
                bind-Reads _ (u32-Reads r.result.elapsed_ms v.elapsed_ms_fits) (
                  bind-Reads _ (str-Reads r.result.error_message v.error_message_fits) (
                    subst
                      (Reads
                        (return (record r {
                          result = record r.result {
                            status = u8_to_status (status_to_u8 r.result.status);
                          };
                        }))
                        [])
                      (ap (λ (t : LlmStatus). record r { result = record r.result { status = t } })
                        (u8_to_status-status_to_u8 r.result.status))
                      (return-Reads _))))))))))
