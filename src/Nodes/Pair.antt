-- ===== src/Nodes/Pair.antt =====
-- examples/tcp_nodes/: server.cpp and client.cpp. Of the output only the message that each prints is
-- kept.
pub mod Meeting
use galculus.Common.{ℕ, Bool, true, false, if◌then◌else◌, Option, none, some, codes}
use galculus.Core.Wire.{Bytes}
use galculus.Core.Message.{Message, text_event}
use galculus.Core.Transport.{framed_send, framed_receive}
use galculus.Core.Tcp.{
  Winsock, TcpByteTransport, tcp_byte_transport, connect_to, listen_once, close,
}

abbrev pub note : Message
unfolding text_event
note =
    text_event 1 (codes "client.sensor") (codes "server.planner") (codes "motion_detected")
      (codes "person at door")

abbrev pub ack : Bytes → Message
unfolding text_event
ack source = text_event 2 (codes "server") source (codes "ack") (codes "message received")

-- The exit code, and the message that was printed before it.
abbrev pub Told : Type 0
Told = ℕ × Option Message

module _ (w : Winsock) where
  acked : Message → TcpByteTransport w × Bool → TcpByteTransport w × Told
  acked received (t, sent) = (t, (if sent then 0 else 1, some received))

  heard : TcpByteTransport w × Option Message → TcpByteTransport w × Told
  unfolding acked
  heard (t, none) = (t, (1, none))
  heard (t, some received) =
      acked received (framed_send (tcp_byte_transport w) t (ack received.source))

  pub acknowledge : TcpByteTransport w → TcpByteTransport w × Told
  unfolding heard
  acknowledge t = heard (framed_receive (tcp_byte_transport w) t)

  accepted : w.State × Option ℕ → w.State × Told
  unfolding acknowledge
  accepted (s, none) = (s, (1, none))
  accepted (s, some handle) =
      let (t, told) = acknowledge (record { sockets = s; socket_handle = handle }) in
      (close w t, told)

  pub server_main : w.State → w.State × Told
  unfolding accepted
  server_main s = accepted (listen_once w s 39100)

  replied : TcpByteTransport w × Option Message → TcpByteTransport w × Told
  replied (t, none) = (t, (1, none))
  replied (t, some reply) = (t, (0, some reply))

  noted : TcpByteTransport w × Bool → TcpByteTransport w × Told
  unfolding replied
  noted (t, false) = (t, (1, none))
  noted (t, true) = replied (framed_receive (tcp_byte_transport w) t)

  pub tell : TcpByteTransport w → TcpByteTransport w × Told
  unfolding noted
  tell t = noted (framed_send (tcp_byte_transport w) t note)

  reached : w.State × Option ℕ → w.State × Told
  unfolding tell
  reached (s, none) = (s, (1, none))
  reached (s, some handle) =
      let (t, told) = tell (record { sockets = s; socket_handle = handle }) in (close w t, told)

  pub client_main : w.State → w.State × Told
  unfolding reached
  client_main s = reached (connect_to w s (codes "127.0.0.1") 39100)
