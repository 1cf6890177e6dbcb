-- ===== src/Nodes/Client/Conversing.antt =====
-- The client and the server of examples/llm_nodes/, each run to its end.
use mathlib.Core.Path.{subst}
use galculus.Common.{append-nil, ℕ, ◌≡◌, refl, sym, arith, ==ᵇ_self, some, [], ◌++◌, codes}
use galculus.Common.Exceptions.{ok}
use galculus.Core.Wire.{Bytes, sized-IsBytes}
use galculus.Core.Message.{Message}
use galculus.Core.Transport.Framed.{to_frame}
use galculus.Core.Tcp.{Winsock, TcpByteTransport, connect_to, listen_once}
use galculus.Core.Tcp.Streams.{IsStream}
use galculus.Core.Tcp.Frames.{IsOpen}
use galculus.Core.Tcp.Messages.{IsCarried, Closes, framed_sends, framed_receives}
use galculus.Llm.{Clock}
use galculus.Bridge.{LlmResponse, encode_response}
use galculus.Bridge.Fields.{IsRequest, IsResponse}
use galculus.Bridge.Carried.{encode_request-IsCarried}
use galculus.Bridge.RoundTrip.{decode_response-encode_response}
use galculus.Nodes.{serve, listened, server_main}
use galculus.Nodes.Client.{
  client_request, client_message, shown, printed, got, asking, ask, connected, client_main,
}
use galculus.Nodes.Replies.{response_to, reply_to, response_to-IsResponse, reply_to-IsCarried}
use galculus.Nodes.Serving.{serve_lem}

client_request-IsRequest : IsRequest client_request
client_request-IsRequest = record {
  request_id_fits = omega arith;
  config_fits = record {
    max_tokens_fits = omega arith;
    temperature_fits = omega arith;
    top_p_fits = omega arith;
    seed_fits = omega arith;
    timeout_ms_fits = omega arith;
  };
  count_fits = omega arith;
  contents_fit = (omega arith, (omega arith, tt));
}

client_message-IsCarried : IsCarried client_message
client_message-IsCarried =
    encode_request-IsCarried client_request (codes "llm.client") (codes "llm.server")
      client_request-IsRequest (sized-IsBytes (codes "req-llm-1") refl)
      (
        sized-IsBytes (codes "You are a safe embedded device planner.") refl,
        (sized-IsBytes (codes "Motion detected at the front door. Decide action.") refl, tt),
      )
      (sized-IsBytes (codes "llm.client") refl) (sized-IsBytes (codes "llm.server") refl)
      (omega arith)

module _ (w : Winsock) (c : IsStream w) where
  -- A client to which a response message arrives first sends exactly the frame of its request,
  -- prints that response and returns 0, where the response can be carried and has fields in range.
  ask_lem :
      (t : TcpByteTransport w) (response : LlmResponse) (source target out rest : Bytes)
      → IsOpen w c t out (to_frame (encode_response response source target) ++ rest)
      → IsCarried (encode_response response source target)
      → IsResponse response
      → ((ask w t).1 ≡ ok (0, some response))
        × IsOpen w c (ask w t).0 (out ++ to_frame client_message) rest
  unfolding ask asking got printed shown encode_response
  ask_lem t response source target out rest v carried valid =
      let reply = encode_response response source target in
      let (t', went, v') =
        framed_sends w c t client_message out (to_frame reply ++ rest) client_message-IsCarried v in
      let (t'', taken, v'') =
        framed_receives w c t' reply rest (out ++ to_frame client_message) carried v' in
      rw
        (
          went,
          taken,
          ==ᵇ_self (codes "LLM_RESPONSE"),
          decode_response-encode_response response source target valid
              (omega (arith, carried.valid.payload_fits.1)),
        )
        (refl, v'')

module _ (clock : Clock) where
  -- The server's answer at a time.
  abbrev pub answer : clock.State → LlmResponse
  answer time = response_to clock time client_request

  abbrev pub answer_message : clock.State → Message
  answer_message time = reply_to clock time client_request (codes "llm.client")

module _ (w w' : Winsock) (c : IsStream w) (c' : IsStream w') (clock : Clock) where
  -- Where the client of the model's server connects and the server accepts, each over an open
  -- connection that carries bytes in parts of any size and on which the peer's message comes: the
  -- client closes its connection when exactly the frame of its request has gone out, the server
  -- when exactly the frame of its model's answer has, the server ends with 0, and the client
  -- prints that answer and ends with 0.
  pub client_main-server_main :
      (s here : w.State) (s' there : w'.State) (handle handle' : ℕ) (time : clock.State)
      → connect_to w s (codes "127.0.0.1") 39200 ≡ (here, some handle)
      → listen_once w' s' 39200 ≡ (there, some handle')
      → IsOpen w c
          (record { sockets = here; socket_handle = handle })
          []
          (to_frame (answer_message clock time))
      → IsOpen w' c'
          (record { sockets = there; socket_handle = handle' })
          []
          (to_frame client_message)
      → Closes w c (client_main w s).0 (to_frame client_message) []
        × (Closes w' c' (server_main w' clock s' time).0 (to_frame (answer_message clock time)) []
            × (((server_main w' clock s' time).1.1 ≡ ok 0)
                × ((client_main w s).1 ≡ ok (0, some (answer clock time)))))
  unfolding client_main connected server_main listened
  client_main-server_main s here s' there handle handle' time e e' (h, v) (h', v') =
      let valid = response_to-IsResponse clock time client_request (omega arith) in
      let carried =
        reply_to-IsCarried clock time client_request (codes "llm.client")
          (sized-IsBytes (codes "req-llm-1") refl) (sized-IsBytes (codes "llm.client") refl)
          (omega arith) in
      let reply = answer_message clock time in
      let answered = subst (c.Holds here handle []) (sym (append-nil (to_frame reply))) v in
      let asked =
        subst (c'.Holds there handle' []) (sym (append-nil (to_frame client_message))) v' in
      let t : TcpByteTransport w = record { sockets = here; socket_handle = handle } in
      let t' : TcpByteTransport w' = record { sockets = there; socket_handle = handle' } in
      let (shown_it, sent) =
        ask_lem w c t (answer clock time) (codes "llm.server") (codes "llm.client") [] []
          (h, answered) carried valid in
      let (ended, replied_on) =
        serve_lem w' c' clock t' time client_request (codes "llm.client") (codes "llm.server") [] []
          (h', asked) client_message-IsCarried client_request-IsRequest carried in
      rw (e, e')
        (
          ((ask w t).0, refl, sent),
          (((serve w' clock t' time).0, refl, replied_on), (ended, shown_it)),
        )
