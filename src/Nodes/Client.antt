-- ===== src/Nodes/Client.antt =====
-- examples/llm_nodes/llm_client.cpp: the client of the server's example. Of its output only the
-- response that it prints is kept.
pub mod Conversing
use galculus.Common.{
  ℕ, Bool, true, false, not, ◌==ᵇ◌, if◌then◌else◌, Option, none, some, [], ◌∷◌, codes,
}
use galculus.Common.Exceptions.{Thrown, ok, throw}
use galculus.Core.Message.{Message}
use galculus.Core.Transport.{framed_send, framed_receive}
use galculus.Core.Tcp.{Winsock, TcpByteTransport, tcp_byte_transport, connect_to, close}
use galculus.Llm.{system, user, Prompt, GenerationConfig}
use galculus.Bridge.{LlmRequest, LlmResponse, encode_request, decode_response}

abbrev pub client_prompt : Prompt
client_prompt =
    record { role = system; content = codes "You are a safe embedded device planner." }
    ∷ record { role = user; content = codes "Motion detected at the front door. Decide action." }
    ∷ []

-- 0.1f and 0.9f by their bits.
abbrev pub client_config : GenerationConfig
client_config = record {
  max_tokens = 32;
  temperature = 0x3DCCCCCD;
  top_p = 0x3F666666;
  seed = 0;
  timeout_ms = 1000;
  stream = false;
}

abbrev pub client_request : LlmRequest
client_request = record {
  request_id = codes "req-llm-1";
  prompt = client_prompt;
  config = client_config;
}

abbrev pub client_message : Message
client_message = encode_request client_request (codes "llm.client") (codes "llm.server")

-- The exit code, and the response that was printed before it.
abbrev pub Shown : Type 0
Shown = Thrown (ℕ × Option LlmResponse)

shown : Thrown LlmResponse → Shown
shown (ok response) = ok (0, some response)
shown (throw why) = throw why

printed : Option Message → Shown
unfolding shown
printed none = ok (1, none)
printed (some received) =
    if not (received.event.name ==ᵇ codes "LLM_RESPONSE")
    then ok (1, none)
    else shown (decode_response received)

module _ (w : Winsock) where
  got : TcpByteTransport w × Option Message → TcpByteTransport w × Shown
  unfolding printed
  got (t, received) = (t, printed received)

  asking : TcpByteTransport w × Bool → TcpByteTransport w × Shown
  unfolding got
  asking (t, false) = (t, ok (1, none))
  asking (t, true) = got (framed_receive (tcp_byte_transport w) t)

  pub ask : TcpByteTransport w → TcpByteTransport w × Shown
  unfolding asking
  ask t = asking (framed_send (tcp_byte_transport w) t client_message)

  -- The destructor of the transport runs at the end.
  connected : w.State × Option ℕ → w.State × Shown
  unfolding ask
  connected (s, none) = (s, ok (1, none))
  connected (s, some handle) =
      let (t, ending) = ask (record { sockets = s; socket_handle = handle }) in (close w t, ending)

  pub client_main : w.State → w.State × Shown
  unfolding connected
  client_main s = connected (connect_to w s (codes "127.0.0.1") 39200)
