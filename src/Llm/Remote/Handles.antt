-- ===== src/Llm/Remote/Handles.antt =====
-- Which sockets a call of the remote model leaves open, whichever way it ends.
use galculus.Common.{ℕ, ◌≡◌, sym, ap, ◌∙◌, Bool, true, false, Option, none, some, List, ◌∷◌}
use galculus.Core.Message.{Message}
use galculus.Core.Transport.{framed_send, framed_receive}
use galculus.Core.Tcp.{Winsock, TcpByteTransport, tcp_byte_transport, connect_to}
use galculus.Core.Tcp.Handles.{IsTable, held, leaked, connect_to-in_use, close-in_use}
use galculus.Core.Tcp.Calls.{Stays, framed_send-Stays, framed_receive-Stays}
use galculus.Llm.{Prompt, GenerationConfig, Clock}
use galculus.Llm.Remote.{
  Address, RemoteLlm, next_request_id, receiving, sending, exchange, request_message, over,
  generate,
}

module _ (w : Winsock) (o : IsTable w) (clock : Clock) where
  receiving-Stays :
      (t : TcpByteTransport w) (p : TcpByteTransport w × Option Message) (time : clock.State)
      (start : ℕ)
      → Stays w o t p.0
      → Stays w o t (receiving w clock p time start).0
  unfolding receiving
  receiving-Stays t (t', received) time start h = h

  sending-Stays :
      (t : TcpByteTransport w) (p : TcpByteTransport w × Bool) (time : clock.State) (start : ℕ)
      → Stays w o t p.0
      → Stays w o t (sending w clock p time start).0
  unfolding sending
  sending-Stays t (t', false) time start h = h
  sending-Stays t (t', true) time start h =
      let more = framed_receive-Stays w o t' in
      receiving-Stays t (framed_receive (tcp_byte_transport w) t') time start (record {
        same_handle = more.same_handle ∙ h.same_handle;
        same_table = more.same_table ∙ h.same_table;
      })

  exchange-Stays :
      (t : TcpByteTransport w) (m : Message) (time : clock.State) (start : ℕ)
      → Stays w o t (exchange w clock t m time start).0
  unfolding exchange
  exchange-Stays t m time start =
      sending-Stays t (framed_send (tcp_byte_transport w) t m) time start
        (framed_send-Stays w o t m)

  over-in_use :
      (r : RemoteLlm w clock) (a : Address) (p : w.State × Option ℕ) (start : ℕ) (prompt : Prompt)
      (config : GenerationConfig) (before : List ℕ)
      → o.in_use p.0 ≡ held p.1 before
      → o.in_use (over w clock r a p start prompt config).0.sockets ≡ leaked p.1 before
  unfolding over
  over-in_use r a (s, none) start prompt config before e = e
  over-in_use r a (s, some handle) start prompt config before e =
      let t : TcpByteTransport w = record { sockets = s; socket_handle = handle } in
      let asked = request_message w clock a (next_request_id w clock r).1 prompt config in
      let stays = exchange-Stays t asked r.time start in
      close-in_use w o (exchange w clock t asked r.time start).0 before
        (stays.same_table ∙ e ∙ ap (λ (k : ℕ). k ∷ before) (sym stays.same_handle))
      ∙ ap (λ (k : ℕ). leaked (some k) before) stays.same_handle

  -- Over sockets that are handed out when not in use, a remote call leaves the process with the
  -- sockets it had before, whichever way the call ends, but for a connection whose handle is 0,
  -- which stays open.
  pub generate-in_use :
      (a : Address) (r : RemoteLlm w clock) (prompt : Prompt) (config : GenerationConfig)
      → o.in_use (generate w clock a r prompt config).0.sockets
        ≡ leaked (connect_to w r.sockets a.host a.port).1 (o.in_use r.sockets)
  unfolding generate
  generate-in_use a r prompt config =
      over-in_use _ a (connect_to w r.sockets a.host a.port) _ prompt config (o.in_use r.sockets)
        (connect_to-in_use w o r.sockets a.host a.port)
