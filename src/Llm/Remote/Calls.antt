-- ===== src/Llm/Remote/Calls.antt =====
-- What a call returns when the server answers.
use galculus.Common.{
  ℕ, ◌^◌, ◌<◌, ◌≡◌, ◌≢◌, refl, ap, ◌∙◌, arith, ==ᵇ_self, some, [], ◌++◌, length, codes,
}
use galculus.Common.Exceptions.{Thrown, ok}
use galculus.Core.Wire.{Bytes}
use galculus.Core.Message.{Message}
use galculus.Core.Transport.Framed.{to_frame}
use galculus.Core.Tcp.{Winsock, TcpByteTransport, connect_to}
use galculus.Core.Tcp.Streams.{IsStream}
use galculus.Core.Tcp.Frames.{IsOpen}
use galculus.Core.Tcp.Messages.{IsCarried, Closes, framed_sends, framed_receives}
use galculus.Llm.{Prompt, GenerationConfig, Clock, LlmResult, elapsed}
use galculus.Bridge.{LlmResponse, encode_response, write_response}
use galculus.Bridge.Fields.{IsResponse}
use galculus.Bridge.RoundTrip.{decode_response-encode_response}
use galculus.Llm.Remote.{
  Address, RemoteLlm, next_request_id, measured, answered, receiving, sending, exchange,
  request_message, over, generate,
}

module _ (w : Winsock) (c : IsStream w) (clock : Clock) where
  pub exchange_lem :
      (t : TcpByteTransport w) (m reply : Message) (time : clock.State) (start : ℕ)
      (out rest : Bytes)
      → IsCarried m
      → IsCarried reply
      → IsOpen w c t out (to_frame reply ++ rest)
      → ((exchange w clock t m time start).1 ≡ answered w clock time start (some reply))
        × IsOpen w c (exchange w clock t m time start).0 (out ++ to_frame m) rest
  unfolding exchange sending receiving
  exchange_lem t m reply time start out rest carried back v =
      let (t', went, v') = framed_sends w c t m out (to_frame reply ++ rest) carried v in
      let (t'', came, v'') = framed_receives w c t' reply rest (out ++ to_frame m) back v' in
      rw (went, came) (refl, v'')

  -- The message of the next request.
  abbrev pub asked : Address → RemoteLlm w clock → Prompt → GenerationConfig → Message
  asked a r prompt config = request_message w clock a (next_request_id w clock r).1 prompt config

  -- What the call returns for a response, by the two readings of the clock.
  abbrev pub timed : clock.State → LlmResponse → LlmResult
  timed time response =
      let (time', start) = clock.now time in
      record response.result { elapsed_ms = elapsed start (clock.now time').1 }

  answered_lem :
      (time : clock.State) (start : ℕ) (response : LlmResponse) (source target : Bytes)
      → IsResponse response
      → length (write_response response) < 2 ^ 63
      → (answered w clock time start (some (encode_response response source target))).1
        ≡ ok (record response.result { elapsed_ms = elapsed start (clock.now time).1 })
  unfolding answered measured encode_response
  answered_lem time start response source target valid small =
      rw
        (
          ==ᵇ_self (codes "LLM_RESPONSE"),
          decode_response-encode_response response source target valid small,
        )
        refl

  -- A call that connects, and to which a response message arrives first on its new connection,
  -- returns that response's result with the measured time, whatever identifier the response has,
  -- where the request and the response can be carried and the response's fields are in range.
  pub generate_answered :
      (a : Address) (r : RemoteLlm w clock) (prompt : Prompt) (config : GenerationConfig)
      (s : w.State) (handle : ℕ) (response : LlmResponse) (source target rest : Bytes)
      → connect_to w r.sockets a.host a.port ≡ (s, some handle)
      → handle ≢ 0
      → c.Holds s handle [] (to_frame (encode_response response source target) ++ rest)
      → IsCarried (asked a r prompt config)
      → IsCarried (encode_response response source target)
      → IsResponse response
      → (generate w clock a r prompt config).1 ≡ ok (timed r.time response)
  unfolding generate over next_request_id encode_response
  generate_answered a r prompt config s handle response source target rest e h v carried back
        valid =
      let reply = encode_response response source target in
      let (time, start) = clock.now r.time in
      rw e (
        ap (λ (x : clock.State × Thrown LlmResult). x.1)
          (exchange_lem (record { sockets = s; socket_handle = handle }) (asked a r prompt config)
            reply time start [] rest carried back (h, v)).0
        ∙ answered_lem time start response source target valid
            (omega (arith, back.valid.payload_fits.1)))

  -- A call that connects, and to which a message arrives on its new connection, closes it after
  -- exactly the frame of its request has gone out, where both messages can be carried.
  pub generate_sent :
      (a : Address) (r : RemoteLlm w clock) (prompt : Prompt) (config : GenerationConfig)
      (s : w.State) (handle : ℕ) (reply : Message) (rest : Bytes)
      → connect_to w r.sockets a.host a.port ≡ (s, some handle)
      → handle ≢ 0
      → c.Holds s handle [] (to_frame reply ++ rest)
      → IsCarried (asked a r prompt config)
      → IsCarried reply
      → Closes w c
          (generate w clock a r prompt config).0.sockets
          (to_frame (asked a r prompt config))
          rest
  unfolding generate over next_request_id
  generate_sent a r prompt config s handle reply rest e h v carried back =
      let (time, start) = clock.now r.time in
      let t : TcpByteTransport w = record { sockets = s; socket_handle = handle } in
      let question = asked a r prompt config in
      let sent = (exchange_lem t question reply time start [] rest carried back (h, v)).1 in
      rw e ((exchange w clock t question time start).0, refl, sent)
