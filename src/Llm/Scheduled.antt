-- ===== src/Llm/Scheduled.antt =====
-- llm_scheduled/src/ScheduledLLMRuntime.cpp: a model behind the token scheduler. The scheduler is a
-- reference that the runtime shares; its state goes with the model's.
pub mod Serving
use galculus.Common.{
  ℕ, ◌+◌, ◌/◌, max, Bool, true, false, ◌||◌, ltb, if◌then◌else◌, List, [], ◌∷◌, ◌++◌, codes, length,
}
use galculus.Common.Exceptions.{Thrown, ok, throw}
use galculus.Core.Wire.{Bytes}
use galculus.Scheduler.{
  u32, TokenBudget, ScheduledLlmTask, ScheduleDecisionType, allow, reduce_tokens, reject,
  use_fallback, ScheduleDecision, schedule, release,
}
use galculus.Llm.{LlmRuntime, Prompt, PromptMessage, LlmResult, blank_result, GenerationConfig}

unfoldable pub count_chars : Prompt → ℕ → ℕ
count_chars [] chars = chars
count_chars (message ∷ rest) chars = count_chars rest (u32 (chars + u32 (length message.content)))

unfoldable pub estimate_prompt_tokens : Prompt → ℕ
estimate_prompt_tokens prompt = max 1 (count_chars prompt 0 / 4)

unfoldable pub to_task : Prompt → GenerationConfig → ScheduledLlmTask
to_task prompt config = record {
  task_id = codes "scheduled_llm_task";
  estimated_prompt_tokens = estimate_prompt_tokens prompt;
  requested_completion_tokens = config.max_tokens;
  deadline_ms = config.timeout_ms;
  priority = 0;
  allow_truncation = true;
  allow_fallback = true;
}

unfoldable pub fallback_result : LlmResult
unfolding blank_result
fallback_result = record blank_result {
  text =
      codes
        "tool=send_alert\nreason=LLM request used fallback because token budget was unavailable\nconfidence=0.50\n";
}

unfoldable pub used_tokens : LlmResult → ℕ
used_tokens r =
    if ltb 0 r.prompt_tokens || ltb 0 r.completion_tokens
    then u32 (r.prompt_tokens + r.completion_tokens)
    else 0

module _ (inner : LlmRuntime) where
  -- What follows the call of the inner runtime: after an exception nothing does.
  unfoldable pub released :
      inner.State × Thrown LlmResult → TokenBudget → (inner.State × TokenBudget) × Thrown LlmResult
  released (after, ok result) b = ((after, release b (used_tokens result)), ok result)
  released (after, throw why) b = ((after, b), throw why)

  unfoldable pub served :
      inner.State
      → TokenBudget
      → Prompt
      → GenerationConfig
      → (inner.State × TokenBudget) × Thrown LlmResult
  unfolding released
  served s b prompt config = released (inner.generate s prompt config) b

  unfoldable pub act_on :
      inner.State
      → TokenBudget
      → Prompt
      → GenerationConfig
      → ScheduleDecision
      → ScheduleDecisionType
      → (inner.State × TokenBudget) × Thrown LlmResult
  act_on s b prompt config decision allow = served s b prompt config
  act_on s b prompt config decision reduce_tokens =
      served s b prompt (record config { max_tokens = decision.allowed_completion_tokens })
  act_on s b prompt config decision reject =
      ((s, b), ok (record blank_result { error_message = decision.reason }))
  act_on s b prompt config decision use_fallback = ((s, b), ok fallback_result)

  unfoldable pub generate :
      inner.State
      → TokenBudget
      → Prompt
      → GenerationConfig
      → (inner.State × TokenBudget) × Thrown LlmResult
  generate s b prompt config =
      let (after, decision) = schedule b (to_task prompt config) in
      act_on s after prompt config decision decision.type

  unfoldable pub name : inner.State → Bytes
  name s = codes "ScheduledLLMRuntime(" ++ inner.name s ++ codes ")"

-- The model that the scheduled runtime is: the budget goes with the inner model's state.
abbrev pub scheduled_llm : LlmRuntime → LlmRuntime
scheduled_llm inner = record {
  State = inner.State × TokenBudget;
  generate = λ s prompt config. generate inner s.0 s.1 prompt config;
  name = λ s. name inner s.0;
}
