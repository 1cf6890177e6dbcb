-- ===== src/Llm/Remote/Cut.antt =====
-- What a call returns when the connection ends in the middle of the answer.
use galculus.Common.{ℕ, ◌<◌, ◌≡◌, ap, arith, none, some, [], length, take, codes}
use galculus.Common.Exceptions.{Thrown, ok}
use galculus.Core.Message.{Message}
use galculus.Core.Protocol
use galculus.Core.Transport.Framed.{to_frame, framed_receive_lost}
use galculus.Core.Tcp.{Winsock, TcpByteTransport, tcp_byte_transport, connect_to}
use galculus.Core.Tcp.Streams.{IsStream}
use galculus.Core.Tcp.Frames.{IsOpen, receive_bytes_cut}
use galculus.Core.Tcp.Messages.{IsCarried, framed_sends}
use galculus.Llm.{Clock, Prompt, GenerationConfig, timeout, LlmResult}
use galculus.Llm.Remote.{
  Address, RemoteLlm, next_request_id, failed, answered, receiving, sending, exchange, over,
  generate,
}
use galculus.Llm.Remote.Ids.{IsAsked, asked-IsCarried}

module _ (w : Winsock) (c : IsStream w) (clock : Clock) where
  exchange_cut :
      (t : TcpByteTransport w) (m reply : Message) (time : clock.State) (start n : ℕ)
      → IsCarried m
      → IsCarried reply
      → n < length (to_frame reply)
      → IsOpen w c t [] (take n (to_frame reply))
      → (exchange w clock t m time start).1 ≡ answered w clock time start none
  unfolding exchange sending receiving
  exchange_cut t m reply time start n carried back short v =
      let (t', went, v') = framed_sends w c t m [] (take n (to_frame reply)) carried v in
      let lost = framed_receive_lost (tcp_byte_transport w) t' (
        receive_bytes_cut w c t' (Protocol.encode reply) (to_frame m) n v'
          (omega (arith, back.fits)) short) in
      rw went (ap (answered w clock time start) lost)

  -- A call that connects, and whose peer closes the connection in the middle of a response that
  -- can be carried, returns Timeout.
  pub generate_cut :
      (a : Address) (r : RemoteLlm w clock) (prompt : Prompt) (config : GenerationConfig)
      (s : w.State) (handle n : ℕ) (reply : Message)
      → IsAsked a prompt config
      → IsCarried reply
      → n < length (to_frame reply)
      → connect_to w r.sockets a.host a.port ≡ (s, some handle)
      → IsOpen w c (record { sockets = s; socket_handle = handle }) [] (take n (to_frame reply))
      → (generate w clock a r prompt config).1
        ≡ ok (failed timeout (codes "Failed to receive LLM_RESPONSE"))
  unfolding generate over answered next_request_id
  generate_cut a r prompt config s handle n reply plain back short e v =
      let (time, start) = clock.now r.time in
      rw e (
        ap (λ (x : clock.State × Thrown LlmResult). x.1)
          (exchange_cut (record { sockets = s; socket_handle = handle }) _ reply time start n
            (asked-IsCarried w clock r a prompt config plain) back short v))
