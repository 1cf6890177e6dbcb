-- ===== src/Nodes/Deciding.antt =====
-- The agent's main over the remote model, and the server that it asks, each run to its end.
pub mod Cut
use galculus.Common.{
  ◌==ᵇ◌, ℕ, ◌*◌, ◌≡◌, refl, ap, ◌∙◌, arith, true, inr, some, List, [], ◌∷◌, codes, if◌then◌else◌,
}
use galculus.Common.Dict.{lookup, insert}
use galculus.Common.Exceptions.{Thrown, ok}
use galculus.Core.Wire.{Bytes, sized-IsBytes}
use galculus.Core.Message.{Message}
use galculus.Core.Transport.Framed.{to_frame}
use galculus.Core.Tcp.Messages.{Closes}
use galculus.Core.Tcp.{Winsock, TcpByteTransport, connect_to, listen_once}
use galculus.Core.Tcp.Streams.{IsStream}
use galculus.Core.Tcp.Frames.{IsOpen}
use galculus.Llm.{LlmResult, LlmRuntime, Clock, GenerationConfig, blank_result, is_ok}
use galculus.Llm.Mock
use galculus.Llm.Scheduled.{scheduled_llm, estimate_prompt_tokens, count_chars, to_task}
use galculus.Llm.Scheduled.Serving.{generate_served-result}
use galculus.Llm.Budgeted.{count_bytes, estimate_memory_bytes, generate_granted}
use galculus.Llm.Budgeted
use galculus.Llm.Remote.{RemoteLlm, next_request_id, remote_llm, exchange}
use galculus.Llm.Remote.Ids.{IsAsked}
use galculus.Bridge.{LlmRequest, encode_request}
use galculus.Bridge.Carried.{sized_text-IsText}
use galculus.Memory.Budget
use galculus.Memory.Manager
use galculus.Memory.Manager.{MemoryManager, Storage}
use galculus.Scheduler.{TokenBudget}
use galculus.Scheduler.Admission.{Fits}
use galculus.Tools.{
  ToolResult, register_tool, execute, execute_entry, is_allowed, is_none, contains, include,
  allow_tool, block_tool, parse,
}
use galculus.Tools.Parsing.{parse-written}
use galculus.Nodes.{
  Act, turned_on_light, turn_on_light, send_alert, unlock_door, registry, safety, called, act_on,
  decided, fixed_response, agent_id, agent_address, agent_prompt, agent_config, agent_main, serve,
  listened, server_main,
}
use galculus.Nodes.Asking.{sent_config, agent_main_lem, agent_prompt-IsAsked}
use galculus.Nodes.Replies.{reply_to}
use galculus.Nodes.Serving.{generate-serve}

abbrev motion : Bytes
motion = codes "motion detected near door"

-- The agent's question, and the server's answer to it at a time.
module _ (w : Winsock) (clock : Clock) (r : RemoteLlm w clock) where
  abbrev pub agent_request : LlmRequest
  agent_request = record {
    request_id = (next_request_id w clock r).1;
    prompt = agent_prompt;
    config = sent_config;
  }

  abbrev pub agent_question : Message
  agent_question = encode_request agent_request agent_id (codes "llm.server")

  abbrev pub agent_reply : (clock' : Clock) → clock'.State → Message
  agent_reply clock' time = reply_to clock' time agent_request agent_id

module _ {Double : Type 0} (stod : Bytes → Thrown Double) (start : Double) where
  lit :
      (reason : Bytes) (confidence : Double)
      → execute registry
          (record { name = codes "turn_on_light"; reason = reason; confidence = confidence })
          safety
          []
        ≡ (
          turned_on_light reason ∷ [],
          record { success = true; message = codes "light turned on" },
        )
  unfolding execute execute_entry registry safety register_tool lookup insert is_allowed is_none
      contains include allow_tool block_tool turn_on_light send_alert unlock_door ◌==ᵇ◌
  lit reason confidence = refl

  fixed_response-parsed :
      (value : Double)
      → stod (codes "0.82") ≡ ok value
      → parse stod start fixed_response
        ≡ ok (some (record { name = codes "turn_on_light"; reason = motion; confidence = value }))
  fixed_response-parsed value e =
      parse-written stod start value (codes "turn_on_light") motion (codes "0.82") (λ same. cc) refl
        refl refl e

  -- The answer of the server's model, whatever the times measured, turns on the light.
  decided_lem :
      (clock : Clock) (o : clock.State × ℕ) (elapsed_ms : ℕ) (value : Double)
      → stod (codes "0.82") ≡ ok value
      → decided stod start (
          ok (record (Mock.answered clock fixed_response o agent_prompt).1 {
            elapsed_ms = elapsed_ms;
          }))
        ≡ (turned_on_light motion ∷ [], ok 0)
  unfolding decided act_on called Mock.answered blank_result is_ok ◌==ᵇ◌
  decided_lem clock (time, at) elapsed_ms value e = rw (fixed_response-parsed value e) (
      ap (λ (p : List Act × ToolResult). (p.0, ok (if p.1.success then 0 else 1)))
        (lit motion value))

  module _ (w w' : Winsock) (c : IsStream w) (c' : IsStream w') (clock clock' : Clock)
      (r : RemoteLlm w clock) (time : clock'.State) where
    abbrev question : Message
    question = agent_question w clock r

    abbrev answer : Message
    answer = agent_reply w clock r clock' time

    -- Where the agent connects and the server accepts, each over an open connection that carries
    -- bytes in parts of any size and on which the peer's message comes, and where 0.82 is read as
    -- a number: the agent closes its connection when exactly the frame of its request, for the
    -- completion that its scheduler allows, has gone out, turns on the light, with the reason that
    -- the server's model gives, does nothing else and ends with 0; the server closes its
    -- connection when exactly the frame of its model's answer has gone out, and ends with 0.
    pub agent_main-server_main :
        (storage : Storage) (here : w.State) (s' there : w'.State) (handle handle' : ℕ)
        (value : Double)
        → connect_to w r.sockets (codes "127.0.0.1") 39200 ≡ (here, some handle)
        → listen_once w' s' 39200 ≡ (there, some handle')
        → IsOpen w c (record { sockets = here; socket_handle = handle }) [] (to_frame answer)
        → IsOpen w' c' (record { sockets = there; socket_handle = handle' }) [] (to_frame question)
        → stod (codes "0.82") ≡ ok value
        → Closes w c
            (agent_main stod start (remote_llm w clock agent_address) r storage).0.sockets
            (to_frame question)
            []
          × (((agent_main stod start (remote_llm w clock agent_address) r storage).1
                ≡ (turned_on_light motion ∷ [], ok 0))
              × (((server_main w' clock' s' time).1.1 ≡ ok 0)
                  × Closes w' c' (server_main w' clock' s' time).0 (to_frame answer) []))
    unfolding server_main listened Mock.generate
    agent_main-server_main storage here s' there handle handle' value e e' (h, v) asking read =
        let (sent, (ended, (replied_on, answered))) =
          generate-serve w w' c c' clock clock' agent_address r agent_prompt sent_config time here
            handle (record { sockets = there; socket_handle = handle' }) e h v asking
            agent_prompt-IsAsked in
        let t' : TcpByteTransport w' = record { sockets = there; socket_handle = handle' } in
        rw (agent_main_lem stod start (remote_llm w clock agent_address) r storage, e')
          (
            sent,
            (
              ap (decided stod start) answered ∙ decided_lem clock' (clock'.now time) _ value read,
              (ended, ((serve w' clock' t' time).0, refl, replied_on)),
            ),
          )
