-- ===== src/Nodes/Deciding/Cut.antt =====
-- The agent whose server fails.
use galculus.Common.{ℕ, ◌<◌, ◌≡◌, refl, ap, ◌∙◌, false, some, [], length, take, codes}
use galculus.Common.Exceptions.{Thrown, ok}
use galculus.Core.Wire.{Bytes}
use galculus.Core.Message.{Message}
use galculus.Core.Transport.Framed.{to_frame}
use galculus.Core.Tcp.{Winsock, connect_to}
use galculus.Core.Tcp.Streams.{IsStream}
use galculus.Core.Tcp.Frames.{IsOpen}
use galculus.Core.Tcp.Messages.{IsCarried}
use galculus.Llm.{LlmRuntime, LlmResult, Clock, blank_result, is_ok}
use galculus.Llm.Remote.{RemoteLlm, remote_llm}
use galculus.Llm.Remote.Cut.{generate_cut}
use galculus.Memory.Manager.{Storage}
use galculus.Nodes.{act_on, decided, agent_address, agent_prompt, agent_main}
use galculus.Nodes.Asking.{sent_config, agent_main_lem, agent_prompt-IsAsked}

module _ {Double : Type 0} (stod : Bytes → Thrown Double) (start : Double) where
  decided_failed :
      (result : LlmResult) → is_ok result ≡ false → decided stod start (ok result) ≡ ([], ok 1)
  unfolding decided act_on
  decided_failed result e = rw e refl

  -- When the model that the scheduler asks reports a failure, the agent does nothing and ends with 1.
  agent_main_failed :
      (remote : LlmRuntime) (s : remote.State) (storage : Storage) (result : LlmResult)
      → (remote.generate s agent_prompt sent_config).1 ≡ ok result
      → is_ok result ≡ false
      → (agent_main stod start remote s storage).1 ≡ ([], ok 1)
  agent_main_failed remote s storage result answered e =
      rw (agent_main_lem stod start remote s storage)
        (ap (decided stod start) answered ∙ decided_failed result e)

  -- When the agent connects and its peer closes the connection in the middle of a message, whose
  -- fields are in range and whose frame is shorter than 2 ^ 31, the agent does nothing and ends
  -- with 1.
  pub agent_main_cut :
      (w : Winsock) (c : IsStream w) (clock : Clock) (r : RemoteLlm w clock) (storage : Storage)
      (here : w.State) (handle n : ℕ) (reply : Message)
      → connect_to w r.sockets (codes "127.0.0.1") 39200 ≡ (here, some handle)
      → IsCarried reply
      → n < length (to_frame reply)
      → IsOpen w c (record { sockets = here; socket_handle = handle }) [] (take n (to_frame reply))
      → (agent_main stod start (remote_llm w clock agent_address) r storage).1 ≡ ([], ok 1)
  unfolding blank_result is_ok
  agent_main_cut w c clock r storage here handle n reply e carried short v =
      agent_main_failed (remote_llm w clock agent_address) r storage _
        (generate_cut w c clock agent_address r agent_prompt sent_config here handle n reply
          agent_prompt-IsAsked carried short e v)
        refl
