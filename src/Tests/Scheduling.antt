-- ===== src/Tests/Scheduling.antt =====
-- A small token budget and a model that answers with its own tokens, for scheduler/ and llm*/.
use galculus.Common.{
  ℕ, ◌+◌, ◌-◌, ◌^◌, ◌≡◌, refl, arith, inl, inr, ◌⊎◌, true, false, some, [], ◌∷◌, codes,
}
use galculus.Common.Exceptions.{ok, throw}
use galculus.Memory.Budget.{AgentMemoryBudget}
use galculus.Memory.Manager.{agent_budget}
use galculus.Tests.Memory.{manager, rich, manager_knows_rich}
use galculus.Scheduler.{TokenBudget, ScheduledLlmTask, schedule, admission}
use galculus.Scheduler.Admission.{Fits, grantable, Outcome, schedule-Outcome}
use galculus.Scheduler.Accounting.{schedule_all, schedule_all_balance, schedule_wraps}
use galculus.Llm.{PromptRole, Prompt, LlmStatus, LlmResult, GenerationConfig, LlmRuntime}
use galculus.Llm.Scheduled.{count_chars, estimate_prompt_tokens, to_task, used_tokens}
use galculus.Llm.Scheduled
use galculus.Llm.Scheduled.Serving.{fallback_answer, generate_cases, generate_thrown}
use galculus.Llm.Budgeted
use galculus.Llm.Budgeted.{generate-agent_budget, count_bytes, estimate_memory_bytes}

abbrev tokens : TokenBudget
tokens = record { max_prompt_tokens = 50; max_completion_tokens = 40; remaining_tokens = 30 }

abbrev task : ScheduledLlmTask
task = record {
  task_id = codes "t";
  estimated_prompt_tokens = 10;
  requested_completion_tokens = 60;
  deadline_ms = 0;
  priority = 0;
  allow_truncation = true;
  allow_fallback = true;
}

schedule-Outcome_example : Outcome tokens task (schedule tokens task)
schedule-Outcome_example = schedule-Outcome tokens task (omega arith)

schedule_all_balance_example :
    (schedule_all tokens (task ∷ task ∷ [])).1
      + (schedule_all tokens (task ∷ task ∷ [])).0.remaining_tokens
    ≡ 30
schedule_all_balance_example =
    schedule_all_balance tokens (task ∷ task ∷ []) (omega arith, (omega arith, tt))

abbrev vast : TokenBudget
vast = record {
  max_prompt_tokens = 2 ^ 32 - 1;
  max_completion_tokens = 2 ^ 32 - 1;
  remaining_tokens = 9;
}

abbrev vast_task : ScheduledLlmTask
vast_task = record task { estimated_prompt_tokens = 2 ^ 32 - 1; requested_completion_tokens = 5 }

schedule_wraps_example :
    schedule vast vast_task ≡ (record vast { remaining_tokens = 9 - 4 }, admission vast_task 5)
schedule_wraps_example =
    schedule_wraps vast vast_task 4 (omega arith) (omega arith) (omega arith) (omega arith)
      (omega arith)

-- The answer of a model that reports as many completion tokens as it may use.
abbrev reported : ℕ → LlmResult
reported max_tokens = record {
  status = LlmStatus.ok;
  text = codes "yes";
  prompt_tokens = 0;
  completion_tokens = max_tokens;
  elapsed_ms = 1;
  error_message = [];
}

-- A model that counts its calls.
abbrev pub model : LlmRuntime
model = record {
  State = ℕ;
  generate = λ s prompt config. (s + 1, ok (reported config.max_tokens));
  name = λ s. codes "model";
}

-- A model that throws.
abbrev broken : LlmRuntime
broken = record {
  State = ℕ;
  generate = λ s prompt config. (s + 1, throw "broken");
  name = λ s. codes "broken";
}

abbrev prompt : Prompt
prompt = record { role = PromptRole.user; content = codes "twelve bytes" } ∷ []

abbrev config : GenerationConfig
config = record {
  max_tokens = 60;
  temperature = 0;
  top_p = 0;
  seed = 0;
  timeout_ms = 100;
  stream = false;
}

prompt_estimate : estimate_prompt_tokens prompt ≡ 3
unfolding estimate_prompt_tokens count_chars
prompt_estimate = refl

prompt-Fits : Fits tokens (to_task prompt config)
unfolding to_task
prompt-Fits = record {
  prompt = omega (arith, prompt_estimate);
  completion = λ e. cc;
  room = inr (refl, omega (arith, prompt_estimate));
}

abbrev empty_tokens : TokenBudget
empty_tokens = record tokens { remaining_tokens = 0 }

prompt_too_long : ¬ Fits empty_tokens (to_task prompt config)
unfolding to_task
prompt_too_long f = elim f.room [
  | inl r ↦ omega (arith, prompt_estimate)
  | inr r ↦ omega (arith, r.1)
]

generate_thrown_example :
    ((Scheduled.generate broken 0 tokens prompt config).1 ≡ throw "broken")
    × ((Scheduled.generate broken 0 tokens prompt config).0.1.remaining_tokens
          + (estimate_prompt_tokens prompt + grantable tokens (to_task prompt config))
        ≡ 30)
generate_thrown_example =
    generate_thrown broken 0 tokens prompt config "broken" (omega (arith, prompt_estimate))
      prompt-Fits refl

memory_estimate : estimate_memory_bytes prompt config ≡ 1516
unfolding estimate_memory_bytes count_bytes
memory_estimate = refl

generate-agent_budget_example :
    (c : AgentMemoryBudget) × (agent_budget
        (Budgeted.generate model (codes "b") manager 0 prompt config).0
        (codes "b")
      ≡ some c)
    × (c.used_bytes ≡ 40)
    × (c.limit_bytes ≡ 5000)
generate-agent_budget_example =
    generate-agent_budget model (codes "b") manager 0 prompt config rich manager_knows_rich
      (omega (arith, memory_estimate))

generate_cases_example :
    (Fits tokens (to_task prompt config)
      × (Scheduled.generate model 0 tokens prompt config
          ≡ ((1, record tokens { remaining_tokens = 27 }), ok (reported 27))))
    ⊎ ((¬ Fits tokens (to_task prompt config))
        × (Scheduled.generate model 0 tokens prompt config ≡ ((0, tokens), ok fallback_answer)))
unfolding estimate_prompt_tokens to_task count_chars
generate_cases_example =
    generate_cases model 0 tokens prompt config (omega (arith, prompt_estimate))
