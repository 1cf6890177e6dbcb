-- ===== src/Llm/Budgeted.antt =====
-- llm_memory/src/MemoryAwareLLMRuntime.cpp: a model under an agent's memory budget.
use galculus.Common.{
  ℕ, ◌+◌, ◌*◌, ◌^◌, ◌<◌, ◌≡◌, refl, Bool, true, false, some, [], ◌∷◌, ◌++◌, codes, length,
}
use galculus.Common.Exceptions.{Thrown, ok, throw}
use galculus.Core.Wire.{Bytes}
use galculus.Memory.Words.{u64}
use galculus.Memory.Budget.{AgentMemoryBudget}
use galculus.Memory.Manager.{
  MemoryManager, reset_scratch, reserve_agent_memory, agent_budget, scoped,
}
use galculus.Memory.Manager.Agents.{scoped-agent_budget}
use galculus.Llm.{LlmRuntime, Prompt, LlmResult, blank_result, GenerationConfig}

unfoldable pub count_bytes : Prompt → ℕ → ℕ
count_bytes [] prompt_bytes = prompt_bytes
count_bytes (message ∷ rest) prompt_bytes =
    count_bytes rest (u64 (prompt_bytes + length message.content))

unfoldable pub estimate_memory_bytes : Prompt → GenerationConfig → ℕ
estimate_memory_bytes prompt config =
    u64 (u64 (count_bytes prompt 0 + u64 (config.max_tokens * 8)) + 1024)

module _ (inner : LlmRuntime) where
  -- What follows the call of the inner runtime: after an exception nothing does.
  unfoldable pub scratch_reset :
      MemoryManager
      → inner.State × Thrown LlmResult
      → MemoryManager × (inner.State × Thrown LlmResult)
  scratch_reset m (after, ok result) = (reset_scratch m, (after, ok result))
  scratch_reset m (after, throw why) = (m, (after, throw why))

  -- The code under the reservation, which reads `ok()`.
  unfoldable pub reserved_generate :
      Bytes
      → inner.State
      → Prompt
      → GenerationConfig
      → MemoryManager
      → Bool
      → MemoryManager × (inner.State × Thrown LlmResult)
  reserved_generate agent_id s prompt config m false = (
    m,
    (
      s,
      ok (record blank_result {
        error_message = codes "memory budget exceeded for agent: " ++ agent_id;
      }),
    ),
  )
  reserved_generate agent_id s prompt config m true =
      scratch_reset m (inner.generate s prompt config)

  unfoldable pub generate :
      Bytes
      → MemoryManager
      → inner.State
      → Prompt
      → GenerationConfig
      → MemoryManager × (inner.State × Thrown LlmResult)
  generate agent_id m s prompt config =
      scoped m agent_id (estimate_memory_bytes prompt config)
        (reserved_generate agent_id s prompt config)

  unfoldable pub name : inner.State → Bytes
  name s = codes "MemoryAwareLLMRuntime(" ++ inner.name s ++ codes ")"

  scratch_reset-result :
      (m : MemoryManager) (o : inner.State × Thrown LlmResult) → (scratch_reset m o).1 ≡ o
  unfolding scratch_reset
  scratch_reset-result m (after, ok result) = refl
  scratch_reset-result m (after, throw why) = refl

  -- Under a granted reservation the call is the inner model's.
  pub generate_granted :
      (agent_id : Bytes) (m : MemoryManager) (s : inner.State) (prompt : Prompt)
      (config : GenerationConfig)
      → (reserve_agent_memory m agent_id (estimate_memory_bytes prompt config)).1 ≡ true
      → (generate agent_id m s prompt config).1 ≡ inner.generate s prompt config
  unfolding generate scoped reserved_generate
  generate_granted agent_id m s prompt config granted =
      rw granted (scratch_reset-result _ (inner.generate s prompt config))

  -- A refused reservation keeps the prompt from the model.
  pub generate_refused :
      (agent_id : Bytes) (m : MemoryManager) (s : inner.State) (prompt : Prompt)
      (config : GenerationConfig)
      → (reserve_agent_memory m agent_id (estimate_memory_bytes prompt config)).1 ≡ false
      → (generate agent_id m s prompt config).1 ≡ (
        s,
        ok (record blank_result {
          error_message = codes "memory budget exceeded for agent: " ++ agent_id;
        }),
      )
  unfolding generate scoped reserved_generate
  generate_refused agent_id m s prompt config refused = rw refused refl

  scratch_reset-agent_budget :
      (agent_id : Bytes) (m : MemoryManager) (o : inner.State × Thrown LlmResult)
      → agent_budget (scratch_reset m o).0 agent_id ≡ agent_budget m agent_id
  unfolding scratch_reset agent_budget reset_scratch
  scratch_reset-agent_budget agent_id m (after, ok result) = refl
  scratch_reset-agent_budget agent_id m (after, throw why) = refl

  reserved_generate-agent_budget :
      (agent_id : Bytes) (s : inner.State) (prompt : Prompt) (config : GenerationConfig)
      (m : MemoryManager) (flag : Bool)
      → agent_budget (reserved_generate agent_id s prompt config m flag).0 agent_id
        ≡ agent_budget m agent_id
  unfolding reserved_generate agent_budget reset_scratch
  reserved_generate-agent_budget agent_id s prompt config m false = refl
  reserved_generate-agent_budget agent_id s prompt config m true =
      scratch_reset-agent_budget agent_id m (inner.generate s prompt config)

  -- Whether the model answers or throws, an agent with a budget has after the call the bytes in
  -- use and the limit it had before, if the reservation does not wrap.
  pub generate-agent_budget :
      (agent_id : Bytes) (m : MemoryManager) (s : inner.State) (prompt : Prompt)
      (config : GenerationConfig) (b : AgentMemoryBudget)
      → agent_budget m agent_id ≡ some b
      → b.used_bytes + estimate_memory_bytes prompt config < 2 ^ 64
      → (c : AgentMemoryBudget) × (agent_budget (generate agent_id m s prompt config).0 agent_id
          ≡ some c)
        × (c.used_bytes ≡ b.used_bytes)
        × (c.limit_bytes ≡ b.limit_bytes)
  unfolding generate
  generate-agent_budget agent_id m s prompt config b e fits =
      scoped-agent_budget m agent_id b (estimate_memory_bytes prompt config)
        (reserved_generate agent_id s prompt config) e fits
        (reserved_generate-agent_budget agent_id s prompt config)
