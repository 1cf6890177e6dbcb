-- ===== src/Nodes/Demos.antt =====
-- examples/hello_agent/main.cpp, remote_llm_client/remote_llm_client.cpp and
-- scheduled_llm_demo/scheduled_llm_demo.cpp. Of the output only what the agent logs and the result
-- that is printed are kept.
pub mod Runs
use galculus.Common.{
  ℕ, Bool, true, false, not, ◌==ᵇ◌, if◌then◌else◌, Option, none, some, List, [], ◌∷◌, ◌++◌, codes,
}
use galculus.Common.Dict.{lookup}
use galculus.Common.Exceptions.{Thrown, ok, throw}
use galculus.Core.Message.{Message, text}
use galculus.Core.Transport.{in_memory_transport}
use galculus.Core.Tcp.{Winsock}
use galculus.Core.Runtime.{
  AgentClass, AgentRuntime, fresh, register_agent, start, publish_event, drain, stop,
}
use galculus.Llm.{system, user, Prompt, LlmResult, is_ok, GenerationConfig, Clock}
use galculus.Llm.Mock.{mock_llm}
use galculus.Llm.Scheduled
use galculus.Llm.Remote.{Address, RemoteLlm}
use galculus.Llm.Remote
use galculus.Scheduler.{TokenBudget}
use galculus.Nodes.Client.{client_prompt}

-- A line that the logger prints.
pub data Line : Type 0 where
  started : Line
  received : Message → Line
  stopped : Line

abbrev pub logger_agent : AgentClass
logger_agent = record {
  Agent = List Line;
  name = λ log. codes "logger";
  on_start = λ log. log ++ started ∷ [];
  on_message = λ log message. log ++ received message ∷ [];
  on_stop = λ log. log ++ stopped ∷ [];
}

-- The exit code, and what the logger printed.
abbrev pub Logged : Type 0
Logged = ℕ × Option (List Line)

finished : Option (AgentRuntime in_memory_transport logger_agent) → Option Logged
finished none = none
finished (some r) =
    some (0, lookup (codes "logger") (stop in_memory_transport logger_agent r).agents)

-- `drain` has the given fuel; `none` is a run that was cut off.
unfoldable pub hello_main : ℕ → Option Logged
unfolding finished
hello_main fuel =
    let (runtime, result) =
      register_agent in_memory_transport logger_agent (fresh in_memory_transport logger_agent [])
        (some []) in
    let running = start in_memory_transport logger_agent runtime in
    let (published, sent) =
      publish_event in_memory_transport logger_agent running (codes "system") (codes "logger")
        (text (codes "hello") (codes "Galculus core runtime v0.1 online")) in
    if not result.ok
    then some (1, none)
    else finished (drain in_memory_transport logger_agent fuel published)

abbrev pub remote_address : Address
remote_address = record {
  host = codes "127.0.0.1";
  port = 39200;
  source = codes "remote_llm.example_client";
  target = codes "llm.server";
}

-- 0.1f and 1.0f by their bits.
abbrev pub remote_config : GenerationConfig
remote_config = record {
  max_tokens = 32;
  temperature = 0x3DCCCCCD;
  top_p = 0x3F800000;
  seed = 0;
  timeout_ms = 1000;
  stream = false;
}

-- The exit code, and the result that was printed before it.
abbrev pub Printed : Type 0
Printed = Thrown (ℕ × Option LlmResult)

module _ (w : Winsock) (clock : Clock) where
  remote_end : RemoteLlm w clock × Thrown LlmResult → RemoteLlm w clock × Printed
  remote_end (r, throw why) = (r, throw why)
  remote_end (r, ok result) = (r, ok (if not (is_ok result) then (1, none) else (0, some result)))

  unfoldable pub remote_main : RemoteLlm w clock → RemoteLlm w clock × Printed
  unfolding remote_end
  remote_main r = remote_end (Remote.generate w clock remote_address r client_prompt remote_config)

abbrev pub demo_budget : TokenBudget
demo_budget = record { max_prompt_tokens = 128; max_completion_tokens = 16; remaining_tokens = 144 }

abbrev pub demo_prompt : Prompt
demo_prompt =
    record { role = system; content = codes "You are a safe embedded planner." }
    ∷ record {
      role = user;
      content = codes "Motion detected near the door. Decide what tool to call.";
    }
    ∷ []

abbrev pub demo_config : GenerationConfig
demo_config = record {
  max_tokens = 64;
  temperature = 0x3DCCCCCD;
  top_p = 0x3F666666;
  seed = 0;
  timeout_ms = 1000;
  stream = false;
}

demo_end : Thrown LlmResult → Printed
demo_end (throw why) = throw why
demo_end (ok result) = ok (if result.error_message ==ᵇ [] then 0 else 1, some result)

-- With the budget that is left.
unfoldable pub demo_main : (clock : Clock) → clock.State → TokenBudget × Printed
unfolding demo_end
demo_main clock time =
    let ((time', budget), result) =
      Scheduled.generate (mock_llm clock (codes "mock response")) time demo_budget demo_prompt
        demo_config in
    (budget, demo_end result)
