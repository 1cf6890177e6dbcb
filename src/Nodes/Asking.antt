-- ===== src/Nodes/Asking.antt =====
-- What the agent's main asks its model for, and that its budgets let the prompt through.
use galculus.Common.{◌==ᵇ◌, ◌*◌, ◌≡◌, refl, ap, ◌∙◌, arith, true, inr, codes}
use galculus.Common.Dict.{lookup, insert}
use galculus.Common.Exceptions.{Thrown}
use galculus.Core.Wire.{Bytes, sized-IsBytes}
use galculus.Llm.{LlmResult, LlmRuntime, GenerationConfig}
use galculus.Llm.Scheduled.{scheduled_llm, estimate_prompt_tokens, count_chars, to_task}
use galculus.Llm.Scheduled.Serving.{generate_served-result}
use galculus.Llm.Budgeted.{count_bytes, estimate_memory_bytes, generate_granted}
use galculus.Llm.Budgeted
use galculus.Llm.Remote.Ids.{IsAsked}
use galculus.Bridge.Carried.{sized_text-IsText}
use galculus.Memory.Budget
use galculus.Memory.Manager
use galculus.Memory.Manager.{MemoryManager, Storage}
use galculus.Scheduler.{TokenBudget}
use galculus.Scheduler.Admission.{Fits}
use galculus.Nodes.{agent_id, agent_address, agent_prompt, agent_config, decided, agent_main}

-- The budgets that `main` sets.
abbrev pub agent_tokens : TokenBudget
agent_tokens = record {
  max_prompt_tokens = 128;
  max_completion_tokens = 32;
  remaining_tokens = 160;
}

-- What the scheduler leaves of the configuration.
abbrev pub sent_config : GenerationConfig
sent_config = record agent_config { max_tokens = 32 }

prompt_estimate : estimate_prompt_tokens agent_prompt ≡ 57
unfolding estimate_prompt_tokens count_chars
prompt_estimate = refl

agent_prompt-Fits : Fits agent_tokens (to_task agent_prompt agent_config)
unfolding to_task
agent_prompt-Fits = record {
  prompt = omega (arith, prompt_estimate);
  completion = λ e. cc;
  room = inr (refl, omega (arith, prompt_estimate));
}

module _ (remote : LlmRuntime) (s : remote.State) (storage : Storage) where
  abbrev pub memory : MemoryManager
  memory =
      Manager.set_agent_budget
        (Manager.new storage (record {
          global_arena_size = 64 * 1024;
          scratch_arena_size = 16 * 1024;
          message_block_size = 512;
          message_block_count = 32;
        }))
        agent_id (8 * 1024)

  enough_memory :
      (Manager.reserve_agent_memory memory agent_id
        (estimate_memory_bytes agent_prompt agent_config)).1
      ≡ true
  unfolding Manager.reserve_agent_memory Manager.reserve_in Manager.set_agent_budget Manager.new
      Budget.reserve Budget.can_reserve Budget.new lookup insert estimate_memory_bytes count_bytes
      ◌==ᵇ◌
  enough_memory = refl

  -- The model behind the wrappers is asked once, for what the scheduler allows: its state and its
  -- answer are what the agent is left with.
  pub agent_answer :
      let asked =
        (Budgeted.generate
          (scheduled_llm remote)
          agent_id
          memory
          (s, agent_tokens)
          agent_prompt
          agent_config).1 in
      (asked.0.0, asked.1) ≡ remote.generate s agent_prompt sent_config
  unfolding to_task estimate_prompt_tokens count_chars
  agent_answer =
      ap (λ (o : (remote.State × TokenBudget) × Thrown LlmResult). (o.0.0, o.1))
        (generate_granted (scheduled_llm remote) agent_id memory (s, agent_tokens) agent_prompt
          agent_config enough_memory)
      ∙ generate_served-result remote s agent_tokens agent_prompt agent_config
          (omega (arith, prompt_estimate)) agent_prompt-Fits

module _ {Double : Type 0} (stod : Bytes → Thrown Double) (start : Double) (remote : LlmRuntime)
    (s : remote.State) (storage : Storage) where
  -- The agent asks its model once, for what the scheduler allows, and decides on the answer.
  pub agent_main_lem : agent_main stod start remote s storage ≡ (
    (remote.generate s agent_prompt sent_config).0,
    decided stod start (remote.generate s agent_prompt sent_config).1,
  )
  unfolding agent_main
  agent_main_lem =
      ap (λ (o : remote.State × Thrown LlmResult). (o.0, decided stod start o.1))
        (agent_answer remote s storage)

pub agent_prompt-IsAsked : IsAsked agent_address agent_prompt sent_config
agent_prompt-IsAsked = record {
  config_fits = record {
    max_tokens_fits = omega arith;
    temperature_fits = omega arith;
    top_p_fits = omega arith;
    seed_fits = omega arith;
    timeout_ms_fits = omega arith;
  };
  text = sized_text-IsText agent_prompt refl;
  source = sized-IsBytes agent_id refl;
  target = sized-IsBytes (codes "llm.server") refl;
  short = omega arith;
}
