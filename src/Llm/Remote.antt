-- ===== src/Llm/Remote.antt =====
-- llm_remote/src/RemoteLLM.cpp: a model behind a connection, opened for each call and closed when
-- the call ends, by an exception too. Winsock and the clock are parameters.
pub mod Calls
pub mod Handles
pub mod Ids
pub mod Cut
use Prim.Native.String.{String}
use galculus.Common.{
  ℕ, zero, suc, ◌+◌, ◌/◌, ◌%◌, ◌^◌, Bool, true, false, not, ◌==ᵇ◌, ltb, if◌then◌else◌, Option, none,
  some, List, [], ◌∷◌, ◌++◌, codes,
}
use galculus.Common.Exceptions.{Thrown, ok, throw}
use galculus.Core.Wire.{Bytes}
use galculus.Core.Message.{Message}
use galculus.Core.Transport.{framed_send, framed_receive}
use galculus.Core.Tcp.{Winsock, TcpByteTransport, tcp_byte_transport, connect_to, close}
use galculus.Llm.{
  LlmRuntime, Prompt, LlmStatus, backend_error, timeout, LlmResult, blank_result, GenerationConfig,
  Clock, elapsed,
}
use galculus.Bridge.{LlmRequest, LlmResponse, encode_request, decode_response}

-- `out << n` for 64 bits, which have twenty digits at most.
unfoldable pub decimal_loop : ℕ → ℕ → Bytes
decimal_loop zero n = []
decimal_loop (suc rounds) n =
    let front = decimal_loop rounds (n / 10) in
    (if ltb n 10 then [] else front) ++ (48 + n % 10) ∷ []

unfoldable pub decimal : ℕ → Bytes
unfolding decimal_loop
decimal n = decimal_loop 20 n

-- What the constructor sets.
pub record Address : Type 0 where
  pub host : Bytes
  pub port : ℕ
  pub source : Bytes
  pub target : Bytes

abbrev pub failed : LlmStatus → Bytes → LlmResult
unfolding blank_result
failed status error_message = record blank_result { status = status; error_message = error_message }

module _ (w : Winsock) (clock : Clock) where
  pub record RemoteLlm : Type 0 where
    pub sockets : w.State
    pub time : clock.State
    pub request_counter : ℕ

  unfoldable pub next_request_id : RemoteLlm → RemoteLlm × Bytes
  next_request_id r =
      let count = (r.request_counter + 1) % 2 ^ 64 in
      (record r { request_counter = count }, codes "remote-llm-req-" ++ decimal count)

  -- From the decoded response on; an exception leaves the clock alone.
  unfoldable pub measured : clock.State → ℕ → Thrown LlmResponse → clock.State × Thrown LlmResult
  measured time start (throw why) = (time, throw why)
  measured time start (ok response) =
      let (time', end) = clock.now time in
      (time', ok (record response.result { elapsed_ms = elapsed start end }))

  unfoldable pub answered : clock.State → ℕ → Option Message → clock.State × Thrown LlmResult
  answered time start none = (time, ok (failed timeout (codes "Failed to receive LLM_RESPONSE")))
  answered time start (some received) =
      if not (received.event.name ==ᵇ codes "LLM_RESPONSE")
      then (
        time,
        ok (failed backend_error (codes "Received unexpected event: " ++ received.event.name)),
      )
      else measured time start (decode_response received)

  -- The transport of the call, open, and what the call returns.
  abbrev pub Exchanged : Type 0
  Exchanged = TcpByteTransport w × (clock.State × Thrown LlmResult)

  receiving : TcpByteTransport w × Option Message → clock.State → ℕ → Exchanged
  receiving (t, received) time start = (t, answered time start received)

  sending : TcpByteTransport w × Bool → clock.State → ℕ → Exchanged
  unfolding receiving
  sending (t, true) time start = receiving (framed_receive (tcp_byte_transport w) t) time start
  sending (t, false) time start =
      (t, (time, ok (failed backend_error (codes "Failed to send LLM_REQUEST"))))

  unfoldable pub exchange : TcpByteTransport w → Message → clock.State → ℕ → Exchanged
  unfolding sending
  exchange t message time start = sending (framed_send (tcp_byte_transport w) t message) time start

  abbrev pub request_message : Address → Bytes → Prompt → GenerationConfig → Message
  request_message a request_id prompt config =
      encode_request (record { request_id = request_id; prompt = prompt; config = config }) a.source
        a.target

  -- The destructor of the transport runs at the end.
  over :
      RemoteLlm
      → Address
      → w.State × Option ℕ
      → ℕ
      → Prompt
      → GenerationConfig
      → RemoteLlm × Thrown LlmResult
  over r a (s, none) start prompt config = (
    record r { sockets = s },
    ok (failed backend_error (codes "Failed to connect to remote LLM server")),
  )
  over r a (s, some handle) start prompt config =
      let (r', request_id) = next_request_id r in
      let (t, (time, result)) =
        exchange (record { sockets = s; socket_handle = handle })
          (request_message a request_id prompt config) r.time start in
      (record r' { sockets = close w t; time = time }, result)

  unfoldable pub generate :
      Address → RemoteLlm → Prompt → GenerationConfig → RemoteLlm × Thrown LlmResult
  unfolding over
  generate a r prompt config =
      let (time, start) = clock.now r.time in
      over (record r { time = time }) a (connect_to w r.sockets a.host a.port) start prompt config

  abbrev pub remote_llm : Address → LlmRuntime
  remote_llm a = record { State = RemoteLlm; generate = generate a; name = λ r. codes "RemoteLLM" }
