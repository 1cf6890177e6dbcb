-- ===== src/Core/Tcp.antt =====
-- core/src/tcp_byte_transport.cpp: the byte transport over one TCP connection. The calls of Winsock
-- are a parameter; `none` stands for SOCKET_ERROR and INVALID_SOCKET. A port goes over as it is.
pub mod Streams
pub mod Loops
pub mod Frames
pub mod Wrap
pub mod Handles
pub mod Messages
pub mod Calls
pub mod Order
use galculus.Common.{
  ℕ, zero, suc, ◌+◌, ◌-◌, ◌%◌, ◌^◌, Bool, true, false, not, ◌||◌, ◌==◌, ltb, if◌then◌else◌, Option,
  none, some, List, [], ◌∷◌, ◌++◌, length, take, drop, replicate,
}
use galculus.Core.Wire.{Bytes, word_at}
use galculus.Core.Transport.{ByteTransport, is_empty}

pub record Winsock : Type 1 where
  pub State : Type 0
  pub Address : Type 0
  pub socket : State → State × Option ℕ
  pub inet_pton : Bytes → Option Address
  pub connect : State → ℕ → Address → ℕ → State × Bool
  pub bind : State → ℕ → ℕ → State × Bool
  pub listen : State → ℕ → ℕ → State × Bool
  pub accept : State → ℕ → State × Option ℕ
  pub closesocket : State → ℕ → State
  -- How many of the bytes went out.
  pub send : State → ℕ → Bytes → State × Option ℕ
  -- The bytes that came in, at most as many as asked for.
  pub recv : State → ℕ → ℕ → State × Option Bytes
  -- Whether the socket is readable at once.
  pub select : State → ℕ → Bool

-- A `while (total < size)` over the size as an `int` does nothing for a negative one.
unfoldable pub int_bound : ℕ → ℕ
int_bound size = let n = size % 2 ^ 32 in if ltb n (2 ^ 31) then n else 0

-- `frame.resize(size)`
unfoldable pub resize : ℕ → Bytes → Bytes
resize size bytes = take size bytes ++ replicate (size - length bytes) 0

-- Bytes that `recv` wrote to the buffer at an offset.
unfoldable pub written_at : ℕ → Bytes → Bytes → Bytes
written_at offset bytes frame = take offset frame ++ bytes ++ drop (offset + length bytes) frame

unfoldable pub read_u32_be : Bytes → ℕ
read_u32_be bytes = word_at bytes 0

module _ (w : Winsock) where
  -- What follows a call of `send`, when it sent a byte at least.
  abbrev pub unless_failed : w.State → Option ℕ → (w.State → ℕ → w.State × Bool) → w.State × Bool
  unless_failed s none next = (s, false)
  unless_failed s (some zero) next = (s, false)
  unless_failed s (some (suc n)) next = next s (suc n)

  -- Each round sends a byte at least, so `size` rounds are enough.
  unfoldable pub send_loop : ℕ → w.State → ℕ → Bytes → ℕ → ℕ → w.State × Bool
  send_loop zero s socket bytes size total_sent = (s, true)
  send_loop (suc rounds) s socket bytes size total_sent =
      let (s', sent) = w.send s socket (take (size - total_sent) (drop total_sent bytes)) in
      if ltb total_sent size
      then unless_failed s' sent (λ s'' n. send_loop rounds s'' socket bytes size (total_sent + n))
      else (s, true)

  unfoldable pub send_all : w.State → ℕ → Bytes → ℕ → w.State × Bool
  send_all s socket bytes size = send_loop size s socket bytes size 0

  abbrev pub unless_closed :
      w.State → Option Bytes → (w.State → Bytes → w.State × Option Bytes) → w.State × Option Bytes
  unless_closed s none next = (s, none)
  unless_closed s (some []) next = (s, none)
  unless_closed s (some (b ∷ more)) next = next s (b ∷ more)

  -- `got` is what the buffer holds so far.
  unfoldable pub recv_loop : ℕ → w.State → ℕ → ℕ → Bytes → w.State × Option Bytes
  recv_loop zero s socket size got = (s, some got)
  recv_loop (suc rounds) s socket size got =
      let (s', received) = w.recv s socket (size - length got) in
      if ltb (length got) size
      then unless_closed s' received (λ s'' more. recv_loop rounds s'' socket size (got ++ more))
      else (s, some got)

  unfoldable pub recv_all : w.State → ℕ → ℕ → w.State × Option Bytes
  recv_all s socket size = recv_loop size s socket size []

  pub record TcpByteTransport : Type 0 where
    pub sockets : w.State
    pub socket_handle : ℕ

  -- The destructor.
  unfoldable pub close : TcpByteTransport → w.State
  close t =
      if not (t.socket_handle == 0) then w.closesocket t.sockets t.socket_handle else t.sockets

  connected : w.State × Bool → ℕ → w.State × Option ℕ
  connected (s, true) client_socket = (s, some client_socket)
  connected (s, false) client_socket = (w.closesocket s client_socket, none)

  converted : Option w.Address → w.State → ℕ → ℕ → w.State × Option ℕ
  unfolding connected
  converted none s client_socket port = (w.closesocket s client_socket, none)
  converted (some address) s client_socket port =
      connected (w.connect s client_socket address port) client_socket

  client : w.State × Option ℕ → Bytes → ℕ → w.State × Option ℕ
  unfolding converted
  client (s, none) host port = (s, none)
  client (s, some client_socket) host port = converted (w.inet_pton host) s client_socket port

  -- The handle of the new transport, `none` for a null pointer.
  unfoldable pub connect_to : w.State → Bytes → ℕ → w.State × Option ℕ
  unfolding client
  connect_to s host port = client (w.socket s) host port

  accepted : w.State × Option ℕ → ℕ → w.State × Option ℕ
  accepted (s, accepted_socket) listen_socket = (w.closesocket s listen_socket, accepted_socket)

  listening : w.State × Bool → ℕ → w.State × Option ℕ
  unfolding accepted
  listening (s, true) listen_socket = accepted (w.accept s listen_socket) listen_socket
  listening (s, false) listen_socket = (w.closesocket s listen_socket, none)

  bound : w.State × Bool → ℕ → w.State × Option ℕ
  unfolding listening
  bound (s, true) listen_socket = listening (w.listen s listen_socket 1) listen_socket
  bound (s, false) listen_socket = (w.closesocket s listen_socket, none)

  server : w.State × Option ℕ → ℕ → w.State × Option ℕ
  unfolding bound
  server (s, none) port = (s, none)
  server (s, some listen_socket) port = bound (w.bind s listen_socket port) listen_socket

  unfoldable pub listen_once : w.State → ℕ → w.State × Option ℕ
  unfolding server
  listen_once s port = server (w.socket s) port

  unfoldable pub send_bytes : TcpByteTransport → Bytes → TcpByteTransport × Bool
  send_bytes t bytes =
      let (s, sent) = send_all t.sockets t.socket_handle bytes (int_bound (length bytes)) in
      if (t.socket_handle == 0) || is_empty bytes
      then (t, false)
      else (record t { sockets = s }, sent)

  -- The frame behind a header.
  received_rest : w.State × Option Bytes → Bytes → w.State × Option Bytes
  received_rest (s, none) frame = (s, none)
  received_rest (s, some body) frame = (s, some (written_at 8 body frame))

  received_header : w.State × Option Bytes → ℕ → w.State × Option Bytes
  unfolding received_rest
  received_header (s, none) socket = (s, none)
  received_header (s, some header) socket =
      let payload_size = read_u32_be (drop 4 header) in
      let remaining_size = (payload_size + 4) % 2 ^ 32 in
      received_rest (recv_all s socket (int_bound remaining_size))
        (resize ((8 + remaining_size) % 2 ^ 32) header)

  unfoldable pub receive_bytes : TcpByteTransport → TcpByteTransport × Option Bytes
  unfolding received_header
  receive_bytes t =
      let (s, frame) =
        received_header (recv_all t.sockets t.socket_handle (int_bound 8)) t.socket_handle in
      if t.socket_handle == 0 then (t, none) else (record t { sockets = s }, frame)

  unfoldable pub empty : TcpByteTransport → Bool
  empty t = if t.socket_handle == 0 then true else not (w.select t.sockets t.socket_handle)

  abbrev pub tcp_byte_transport : ByteTransport
  tcp_byte_transport = record {
    State = TcpByteTransport;
    send_bytes = send_bytes;
    receive_bytes = receive_bytes;
    empty = empty;
  }
