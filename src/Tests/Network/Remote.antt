-- ===== src/Tests/Network/Remote.antt =====
-- The remote model and the demo's server at the two ends of a slow connection.
use galculus.Common.{ℕ, suc, ◌*◌, ◌≡◌, [], ◌∷◌, codes, false}
use galculus.Core.Wire.{Bytes}
use galculus.Core.Message.{Message}
use galculus.Core.Transport.Framed.{to_frame}
use galculus.Core.Tcp.{TcpByteTransport, connect_to}
use galculus.Llm.{user, GenerationConfig, Prompt, Clock}
use galculus.Llm.Remote.{Address, RemoteLlm, generate}
use galculus.Llm.Remote.Calls.{asked}
use galculus.Llm.Remote.Handles.{generate-in_use}
use galculus.Nodes.Serving.{reply}
use galculus.Tests.Network.{slow, slow-IsStream, process, process-IsTable}

-- A clock that a reading moves on by a millisecond.
abbrev pub ticks : Clock
ticks = record { State = ℕ; now = λ n. (suc n, n * 1000000) }

abbrev address : Address
address = record {
  host = codes "h";
  port = 39200;
  source = codes "me";
  target = codes "llm.server";
}

abbrev prompt : Prompt
prompt = record { role = user; content = codes "hi" } ∷ []

abbrev config : GenerationConfig
config = record {
  max_tokens = 60;
  temperature = 0;
  top_p = 0;
  seed = 7;
  timeout_ms = 1000;
  stream = false;
}

abbrev caller : RemoteLlm process ticks
caller = record { sockets = 3 ∷ []; time = 0; request_counter = 0 }

generate-in_use_example : (generate process ticks address caller prompt config).0.sockets ≡ 3 ∷ []
unfolding connect_to
generate-in_use_example = generate-in_use process process-IsTable ticks address caller prompt config

abbrev remote : Bytes → RemoteLlm slow ticks
remote inp = record { sockets = ([], inp); time = 0; request_counter = 0 }

-- The server's answer does not depend on what the caller will read.
abbrev answer : Message
answer = reply slow slow slow-IsStream slow-IsStream ticks ticks address (remote []) prompt config 7

abbrev question : Message
question = asked slow slow-IsStream ticks address (remote []) prompt config

abbrev listening : TcpByteTransport slow
listening = record { sockets = ([], to_frame question); socket_handle = 6 }
