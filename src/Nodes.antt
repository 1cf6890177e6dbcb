-- ===== src/Nodes.antt =====
-- examples/: the server of llm_nodes/llm_server.cpp, and the agent of
-- tool_agent_demo/tool_agent_client.cpp from the model's answer on. A program ends with its exit
-- code or by an exception; of its output only what the tools say is kept.
pub mod Replies
pub mod Serving
pub mod Acting
pub mod Asking
pub mod Deciding
pub mod Pair
pub mod Demos
pub mod Client
use Prim.Native.String.{String}
use galculus.Common.{
  ℕ, ◌*◌, Bool, true, false, not, ◌||◌, ◌==ᵇ◌, if◌then◌else◌, Option, none, some, List, [], ◌∷◌,
  ◌++◌, codes,
}
use galculus.Common.Dict.{Dict}
use galculus.Common.Exceptions.{Thrown, ok, throw}
use galculus.Core.Wire.{Bytes}
use galculus.Core.Message.{Message}
use galculus.Core.Transport.{framed_send, framed_receive}
use galculus.Core.Tcp.{Winsock, TcpByteTransport, tcp_byte_transport, listen_once, close}
use galculus.Llm.{system, user, Prompt, LlmRuntime, LlmResult, is_ok, GenerationConfig, Clock}
use galculus.Llm.Scheduled.{scheduled_llm}
use galculus.Llm.Budgeted
use galculus.Llm.Remote.{Address}
use galculus.Memory.Manager
use galculus.Memory.Manager.{Storage, set_agent_budget}
use galculus.Scheduler.{TokenBudget}
use galculus.Llm.Mock
use galculus.Bridge.{LlmRequest, encode_response, decode_request}
use galculus.Tools.{
  ToolCall, ToolResult, SafetyPolicy, no_policy, allow_tool, block_tool, ToolHandler, register_tool,
  execute, parse,
}

abbrev pub fixed_response : Bytes
fixed_response = codes "tool=turn_on_light\nreason=motion detected near door\nconfidence=0.82\n"

module _ (w : Winsock) (clock : Clock) where
  -- The transport, the clock, and how `main` ends.
  abbrev pub Ended : Type 0
  Ended = TcpByteTransport w × (clock.State × Thrown ℕ)

  replied : TcpByteTransport w → clock.State → Bytes → Thrown LlmRequest → Ended
  replied t time source (throw why) = (t, (time, throw why))
  replied t time source (ok request) =
      let (time', result) = Mock.generate clock fixed_response time request.prompt request.config in
      let (t', sent) = framed_send (tcp_byte_transport w) t (
        encode_response (record { request_id = request.request_id; result = result })
          (codes "llm.server") source) in
      (t', (time', ok (if sent then 0 else 1)))

  served : TcpByteTransport w × Option Message → clock.State → Ended
  unfolding replied
  served (t, none) time = (t, (time, ok 1))
  served (t, some received) time =
      if not (received.event.name ==ᵇ codes "LLM_REQUEST")
      then (t, (time, ok 1))
      else replied t time received.source (decode_request received)

  unfoldable pub serve : TcpByteTransport w → clock.State → Ended
  unfolding served
  serve t time = served (framed_receive (tcp_byte_transport w) t) time

  listened : w.State × Option ℕ → clock.State → w.State × (clock.State × Thrown ℕ)
  listened (s, none) time = (s, (time, ok 1))
  listened (s, some handle) time =
      let (t, ending) = serve (record { sockets = s; socket_handle = handle }) time in
      (close w t, ending)

  unfoldable pub server_main : w.State → clock.State → w.State × (clock.State × Thrown ℕ)
  unfolding listened
  server_main s time = listened (listen_once w s 39200) time

-- What a tool of the agent did.
pub data Act : Type 0 where
  turned_on_light : Bytes → Act
  sent_alert : Bytes → Act
  unlocked_door : Act

module _ {Double : Type 0} where
  turn_on_light : ToolHandler Double (List Act)
  turn_on_light call acts = (
    acts ++ turned_on_light call.reason ∷ [],
    record { success = true; message = codes "light turned on" },
  )

  send_alert : ToolHandler Double (List Act)
  send_alert call acts =
      (acts ++ sent_alert call.reason ∷ [], record { success = true; message = codes "alert sent" })

  unlock_door : ToolHandler Double (List Act)
  unlock_door call acts =
      (acts ++ unlocked_door ∷ [], record { success = true; message = codes "door unlocked" })

  unfoldable pub registry : Dict (ToolHandler Double (List Act))
  unfolding turn_on_light send_alert unlock_door
  registry =
      let light = register_tool [] (codes "turn_on_light") turn_on_light in
      let alert = register_tool light (codes "send_alert") send_alert in
      register_tool alert (codes "unlock_door") unlock_door

unfoldable pub safety : SafetyPolicy
safety =
    let light = allow_tool no_policy (codes "turn_on_light") in
    block_tool (allow_tool light (codes "send_alert")) (codes "unlock_door")

module _ {Double : Type 0} (stod : Bytes → Thrown Double) (start : Double) where
  -- The end of `main` for a call that was parsed.
  called : List Act → Thrown (Option (ToolCall Double)) → List Act × Thrown ℕ
  called acts (throw why) = (acts, throw why)
  called acts (ok none) = (acts, ok 1)
  called acts (ok (some call)) =
      let (acts', result) = execute registry call safety acts in
      (acts', ok (if result.success then 0 else 1))

  -- From the model's answer on.
  unfoldable pub act_on : LlmResult → List Act → List Act × Thrown ℕ
  unfolding called
  act_on result acts =
      if not (is_ok result) || not (result.error_message ==ᵇ [])
      then (acts, ok 1)
      else called acts (parse stod start result.text)

abbrev pub agent_id : Bytes
agent_id = codes "tool_agent.client"

abbrev pub agent_address : Address
agent_address = record {
  host = codes "127.0.0.1";
  port = 39200;
  source = agent_id;
  target = codes "llm.server";
}

abbrev pub agent_prompt : Prompt
agent_prompt =
    record {
      role = system;
      content =
          codes
            "You are a safe embedded device planner. Respond only using this format:\ntool=<tool_name>\nreason=<short_reason>\nconfidence=<0_to_1>\n";
    }
    ∷ record {
      role = user;
      content =
          codes
            "Motion detected near the front door. Door is locked. It is night. Choose the safest allowed action.";
    }
    ∷ []

-- 0.1f and 0.9f by their bits.
abbrev pub agent_config : GenerationConfig
agent_config = record {
  max_tokens = 64;
  temperature = 0x3DCCCCCD;
  top_p = 0x3F666666;
  seed = 0;
  timeout_ms = 1000;
  stream = false;
}

module _ {Double : Type 0} (stod : Bytes → Thrown Double) (start : Double) where
  -- The end of `main` for what the model returned.
  pub decided : Thrown LlmResult → List Act × Thrown ℕ
  decided (throw why) = ([], throw why)
  decided (ok result) = act_on stod start result []

  -- `main`, by what is left of the remote model, what the tools did and how it ends.
  module _ (remote : LlmRuntime) where
    unfoldable pub agent_main : remote.State → Storage → remote.State × (List Act × Thrown ℕ)
    unfolding decided
    agent_main s storage =
        let token_budget : TokenBudget = record {
          max_prompt_tokens = 128;
          max_completion_tokens = 32;
          remaining_tokens = 160;
        } in
        let memory = Manager.new storage (record {
          global_arena_size = 64 * 1024;
          scratch_arena_size = 16 * 1024;
          message_block_size = 512;
          message_block_count = 32;
        }) in
        let budgeted = set_agent_budget memory agent_id (8 * 1024) in
        let (m, (s', result)) =
          Budgeted.generate (scheduled_llm remote) agent_id budgeted (s, token_budget) agent_prompt
            agent_config in
        (s'.0, decided result)
