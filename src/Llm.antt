-- ===== src/Llm.antt =====
-- llm/: prompts, results and the interface of a model, llm/include/galculus/llm/ and
-- llm/src/Prompt.cpp. A `float` of the configuration is the number of its bits.
pub mod Scheduled
pub mod Budgeted
pub mod Mock
pub mod Remote
use Prim.Native.String.{String}
use galculus.Common.{ℕ, ◌-◌, ◌/◌, ◌%◌, ◌^◌, Bool, true, false, List, [], ◌∷◌, ◌++◌, codes}
use galculus.Common.Exceptions.{Thrown}
use galculus.Core.Wire.{Bytes}

pub data PromptRole : Type 0 where
  system : PromptRole
  user : PromptRole
  assistant : PromptRole
  tool : PromptRole

pub record PromptMessage : Type 0 where
  pub role : PromptRole
  pub content : Bytes

abbrev pub Prompt : Type 0
Prompt = List PromptMessage

unfoldable pub role_to_string : PromptRole → Bytes
role_to_string system = codes "system"
role_to_string user = codes "user"
role_to_string assistant = codes "assistant"
role_to_string tool = codes "tool"

-- `add_system`, `add_user`, `add_assistant` and `add_tool`, by the role.
unfoldable pub add : PromptRole → Bytes → Prompt → Prompt
add role text prompt = prompt ++ record { role = role; content = text } ∷ []

unfoldable pub to_string : Prompt → Bytes
to_string [] = []
to_string (msg ∷ rest) = role_to_string msg.role ++ codes ": " ++ msg.content ++ 10 ∷ to_string rest

pub data LlmStatus : Type 0 where
  ok : LlmStatus
  timeout : LlmStatus
  cancelled : LlmStatus
  invalid_prompt : LlmStatus
  backend_error : LlmStatus

pub record LlmResult : Type 0 where
  pub status : LlmStatus
  pub text : Bytes
  pub prompt_tokens : ℕ
  pub completion_tokens : ℕ
  pub elapsed_ms : ℕ
  pub error_message : Bytes

-- `LLMResult result;`
unfoldable pub blank_result : LlmResult
blank_result = record {
  status = ok;
  text = [];
  prompt_tokens = 0;
  completion_tokens = 0;
  elapsed_ms = 0;
  error_message = [];
}

unfoldable pub is_ok : LlmResult → Bool
is_ok r = elim r.status [ ok ↦ true | _ ↦ false ]

pub record GenerationConfig : Type 0 where
  pub max_tokens : ℕ
  pub temperature : ℕ
  pub top_p : ℕ
  pub seed : ℕ
  pub timeout_ms : ℕ
  pub stream : Bool

-- The interface `LLMRuntime`: a call may change the model's state, and may throw.
pub record LlmRuntime : Type 1 where
  pub State : Type 0
  pub generate : State → Prompt → GenerationConfig → State × Thrown LlmResult
  pub name : State → Bytes

-- `std::chrono::steady_clock`, in nanoseconds: a reading may move it on.
pub record Clock : Type 1 where
  pub State : Type 0
  pub now : State → State × ℕ

-- `duration_cast<milliseconds>(end - start).count()`, cast to 32 bits. The clock is steady, so `end`
-- is not before `start`.
unfoldable pub elapsed : ℕ → ℕ → ℕ
elapsed start end = (end - start) / 1000000 % 2 ^ 32
