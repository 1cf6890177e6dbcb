-- ===== src/Tests/Network/Agent.antt =====
-- The agent of examples/tool_agent_demo/ and the server at the two ends of a slow connection.
use galculus.Common.{length, take, arith, ◌<◌, ◌≡◌, refl, some, [], ◌∷◌, codes}
use galculus.Common.Exceptions.{ok}
use galculus.Core.Message.{Message}
use galculus.Core.Transport.Framed.{to_frame}
use galculus.Core.Tcp.{connect_to, listen_once}
use galculus.Core.Wire.{Bytes}
use galculus.Llm.Remote.{RemoteLlm, remote_llm, next_request_id}
use galculus.Nodes.{turned_on_light, agent_address, agent_main, server_main}
use galculus.Nodes.Client.{client_main, client_message}
use galculus.Nodes.Client.Conversing.{answer, answer_message, client_main-server_main}
use galculus.Nodes.Deciding.{agent_question, agent_reply, agent_main-server_main}
use galculus.Core.Wire.{sized-IsBytes}
use galculus.Core.Protocol
use galculus.Core.Protocol.Truncated
use galculus.Core.Frame.Sound.{length-encode}
use galculus.Core.Tcp.Messages.{IsCarried, Closes, short-IsCarried}
use galculus.Nodes.Deciding.Cut.{agent_main_cut}
use galculus.Tests.Network.{slow, slow-IsStream}
use galculus.Tests.Network.Remote.{ticks}
use galculus.Tests.Tools.{stod, storage}

abbrev caller : Bytes → RemoteLlm slow ticks
caller inp = record { sockets = ([], inp); time = 0; request_counter = 0 }

-- Neither message depends on what will come in.
abbrev question : Message
question = agent_question slow ticks (caller [])

abbrev reply : Message
reply = agent_reply slow ticks (caller []) ticks 7

agent_main-server_main_example :
    Closes slow slow-IsStream
      (agent_main stod 0
        (remote_llm slow ticks agent_address)
        (caller (to_frame reply))
        storage).0.sockets
      (to_frame question)
      []
    × (((agent_main stod 0
            (remote_llm slow ticks agent_address)
            (caller (to_frame reply))
            storage).1
          ≡ (turned_on_light (codes "motion detected near door") ∷ [], ok 0))
        × (((server_main slow ticks ([], to_frame question) 7).1.1 ≡ ok 0)
            × Closes slow slow-IsStream
                (server_main slow ticks ([], to_frame question) 7).0
                (to_frame reply)
                []))
unfolding connect_to listen_once next_request_id
agent_main-server_main_example =
    agent_main-server_main stod 0 slow slow slow-IsStream slow-IsStream ticks ticks
      (caller (to_frame reply)) 7 storage ([], to_frame reply) ([], to_frame question)
      ([], to_frame question) 5 6 4 refl refl ((λ e. cc), refl) ((λ e. cc), refl) refl

abbrev lost : Message
lost = record {
  id = 0;
  type = 0;
  source = [];
  target = [];
  event = record { name = codes "LLM_RESPONSE"; payload = [] };
}

lost-IsCarried : IsCarried lost
lost-IsCarried =
    short-IsCarried lost (omega arith) (omega arith) tt tt
      (sized-IsBytes (codes "LLM_RESPONSE") refl) tt (omega arith)

lost_late : 9 < length (to_frame lost)
lost_late = omega (
  arith,
  Truncated.length-encode lost,
  length-encode (Protocol.encode lost) (omega (arith, Truncated.length-encode lost)),
)

agent_main_cut_example :
    (agent_main stod 0
      (remote_llm slow ticks agent_address)
      (caller (take 9 (to_frame lost)))
      storage).1
    ≡ ([], ok 1)
unfolding connect_to
agent_main_cut_example =
    agent_main_cut stod 0 slow slow-IsStream ticks (caller (take 9 (to_frame lost))) storage
      ([], take 9 (to_frame lost)) 5 9 lost refl lost-IsCarried lost_late ((λ e. cc), refl)

client_main-server_main_example :
    Closes slow slow-IsStream
      (client_main slow ([], to_frame (answer_message ticks 7))).0
      (to_frame client_message)
      []
    × (Closes slow slow-IsStream
          (server_main slow ticks ([], to_frame client_message) 7).0
          (to_frame (answer_message ticks 7))
          []
        × (((server_main slow ticks ([], to_frame client_message) 7).1.1 ≡ ok 0)
            × ((client_main slow ([], to_frame (answer_message ticks 7))).1
                ≡ ok (0, some (answer ticks 7)))))
unfolding connect_to listen_once
client_main-server_main_example =
    client_main-server_main slow slow slow-IsStream slow-IsStream ticks
      ([], to_frame (answer_message ticks 7)) ([], to_frame (answer_message ticks 7))
      ([], to_frame client_message) ([], to_frame client_message) 5 6 7 refl refl ((λ e. cc), refl)
      ((λ e. cc), refl)
