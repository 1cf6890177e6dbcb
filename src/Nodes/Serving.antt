-- ===== src/Nodes/Serving.antt =====
-- The server answers the request that the remote model sends, and the model returns its answer.
use mathlib.Core.Path.{subst}
use galculus.Common.{append-nil, ℕ, ◌≡◌, ◌≢◌, refl, sym, arith, ==ᵇ_self, some, [], ◌++◌, codes}
use galculus.Common.Exceptions.{ok}
use galculus.Core.Wire.{Bytes}
use galculus.Core.Message.{Message}
use galculus.Core.Transport.Framed.{to_frame}
use galculus.Core.Tcp.{Winsock, TcpByteTransport, connect_to}
use galculus.Core.Tcp.Streams.{IsStream}
use galculus.Core.Tcp.Frames.{IsOpen}
use galculus.Core.Tcp.Messages.{IsCarried, Closes, framed_sends, framed_receives}
use galculus.Llm.{Prompt, GenerationConfig, Clock}
use galculus.Llm.Remote.{exchange, Address, RemoteLlm, next_request_id, request_message}
use galculus.Llm.Remote
use galculus.Llm.Remote.Ids.{
  IsAsked, next_request_id-IsBytes, length-next_request_id, asked-IsRequest, asked-IsCarried,
}
use galculus.Llm.Remote.Calls.{asked, timed, generate_sent, generate_answered}
use galculus.Bridge.{LlmRequest, LlmResponse, encode_request}
use galculus.Bridge.Fields.{IsRequest}
use galculus.Bridge.RoundTrip.{decode_request-encode_request}
use galculus.Nodes.Replies.{response_to, reply_to, response_to-IsResponse, reply_to-IsCarried}
use galculus.Nodes.{replied, served, serve}

module _ (w : Winsock) (c : IsStream w) (clock : Clock) where
  -- A server to which a request message arrives first returns 0 and sends back exactly the frame of
  -- the response for that request, where request and response can be carried and the request's
  -- fields are in range.
  pub serve_lem :
      (t : TcpByteTransport w) (time : clock.State) (request : LlmRequest)
      (source target out rest : Bytes)
      → IsOpen w c t out (to_frame (encode_request request source target) ++ rest)
      → IsCarried (encode_request request source target)
      → IsRequest request
      → IsCarried (reply_to clock time request source)
      → ((serve w clock t time).1.1 ≡ ok 0)
        × IsOpen w c
            (serve w clock t time).0
            (out ++ to_frame (reply_to clock time request source))
            rest
  unfolding serve served replied encode_request
  serve_lem t time request source target out rest v carried valid back =
      let m = encode_request request source target in
      let (t', came, v') = framed_receives w c t m rest out carried v in
      let (t'', went, v'') =
        framed_sends w c t' (reply_to clock time request source) out rest back v' in
      rw
        (
          came,
          ==ᵇ_self (codes "LLM_REQUEST"),
          decode_request-encode_request request source target valid
              (omega (arith, carried.valid.payload_fits.1)),
          went,
        )
        (refl, v'')

module _ (w w' : Winsock) (c : IsStream w) (c' : IsStream w') (clock clock' : Clock) where
  -- The request that the remote model sends next, the response that the server gives to it at a
  -- time, and its message.
  module _ (a : Address) (r : RemoteLlm w clock) (prompt : Prompt) (config : GenerationConfig)
      (time : clock'.State) where
    abbrev pub request : LlmRequest
    request = record {
      request_id = (next_request_id w clock r).1;
      prompt = prompt;
      config = config;
    }

    abbrev pub response : LlmResponse
    response = response_to clock' time request

    abbrev pub reply : Message
    reply = reply_to clock' time request a.source

    pub generate-serve :
        (s : w.State) (handle : ℕ) (t : TcpByteTransport w')
        → connect_to w r.sockets a.host a.port ≡ (s, some handle)
        → handle ≢ 0
        → c.Holds s handle [] (to_frame reply)
        → IsOpen w' c' t [] (to_frame (asked w c clock a r prompt config))
        → IsAsked a prompt config
        → Closes w c
            (Remote.generate w clock a r prompt config).0.sockets
            (to_frame (asked w c clock a r prompt config))
            []
          × (((serve w' clock' t time).1.1 ≡ ok 0)
              × (IsOpen w' c' (serve w' clock' t time).0 (to_frame reply) []
                  × ((Remote.generate w clock a r prompt config).1
                      ≡ ok (timed w c clock r.time response))))
    generate-serve s handle t e h v v' plain =
        let valid = asked-IsRequest w clock r a prompt config plain in
        let carried = asked-IsCarried w clock r a prompt config plain in
        let id = next_request_id-IsBytes w clock r in
        let size = length-next_request_id w clock r in
        let answer = response_to-IsResponse clock' time request (omega (arith, size)) in
        let back =
          reply_to-IsCarried clock' time request a.source id plain.source
            (omega (arith, size, plain.short)) in
        let question = asked w c clock a r prompt config in
        let answered = subst (c.Holds s handle []) (sym (append-nil (to_frame reply))) v in
        let asking = subst (IsOpen w' c' t []) (sym (append-nil (to_frame question))) v' in
        let (ended, replied_on) =
          serve_lem w' c' clock' t time request a.source a.target [] [] asking carried valid back in
        (
          generate_sent w c clock a r prompt config s handle reply [] e h answered carried back,
          (
            ended,
            (
              replied_on,
              generate_answered w c clock a r prompt config s handle response (codes "llm.server")
                  a.source [] e h answered carried back answer,
            ),
          ),
        )
