-- ===== src/Core/Transport.antt =====
-- core/: byte_transport.hpp and transport.hpp as interfaces, the two in-memory queues, and the
-- transports that stand on a byte transport, message_byte_adapter.cpp and
-- framed_message_transport.cpp. The mutexes of the queues make each call one step.
pub mod Fifo
pub mod InMemory
pub mod Framed
pub mod Errors
use Prim.Native.String.{String}
use galculus.Common.{
  Bool, true, false, Option, none, some, List, [], ◌∷◌, ◌++◌, codes, if◌then◌else◌,
}
use galculus.Core.Wire.{Bytes}
use galculus.Core.Message.{ErrorCode, Result, success, failure, Message}
use galculus.Core.Protocol
use galculus.Core.Frame

-- A method that changes the object returns the new state first.
pub record ByteTransport : Type 1 where
  pub State : Type 0
  pub send_bytes : State → Bytes → State × Bool
  pub receive_bytes : State → State × Option Bytes
  pub empty : State → Bool

pub record Transport : Type 1 where
  pub State : Type 0
  pub send : State → Message → State × Bool
  pub receive : State → State × Option Message
  pub empty : State → Bool

-- `std::queue`: the head of the list is the front.
module _ {A : Type 0} where
  unfoldable pub push : List A → A → List A
  push queue a = queue ++ a ∷ []

  unfoldable pub take_front : List A → List A × Option A
  take_front [] = ([], none)
  take_front (a ∷ rest) = (rest, some a)

  unfoldable pub is_empty : List A → Bool
  is_empty [] = true
  is_empty (a ∷ rest) = false

abbrev pub in_memory_byte_transport : ByteTransport
in_memory_byte_transport = record {
  State = List Bytes;
  send_bytes = λ queue bytes. (push queue bytes, true);
  receive_bytes = take_front;
  empty = is_empty;
}

abbrev pub in_memory_transport : Transport
in_memory_transport = record {
  State = List Message;
  send = λ queue message. (push queue message, true);
  receive = take_front;
  empty = is_empty;
}

pub record MessageReceiveResult : Type 0 where
  pub result : Result
  pub message : Option Message

-- What `receive_message` makes of the bytes of a frame.
unfoldable pub open_frame : Bytes → MessageReceiveResult
open_frame bytes =
    let frame = Frame.decode bytes in
    let packet = Protocol.decode frame.payload in
    if frame.result.ok
    then (if packet.result.ok
        then record { result = success; message = some packet.message }
        else record { result = packet.result; message = none })
    else record { result = frame.result; message = none }

module _ (t : ByteTransport) where
  unfoldable pub send_message : t.State → Message → t.State × Result
  send_message s message =
      let packet = Protocol.encode message in
      let frame = Frame.encode packet in
      let (s', sent) = t.send_bytes s frame in
      if sent
      then (s', success)
      else (s', failure ErrorCode.transport_error (codes "failed to send message frame"))

  received : t.State × Option Bytes → t.State × MessageReceiveResult
  received (s, none) = (s, record { result = success; message = none })
  received (s, some bytes) = (s, open_frame bytes)

  unfoldable pub receive_message : t.State → t.State × MessageReceiveResult
  unfolding received
  receive_message s = received (t.receive_bytes s)

  unfoldable pub adapter_empty : t.State → Bool
  adapter_empty s = t.empty s

  unfoldable pub framed_send : t.State → Message → t.State × Bool
  framed_send s message = let (s', r) = send_message s message in (s', r.ok)

  unfoldable pub framed_receive : t.State → t.State × Option Message
  framed_receive s =
      let (s', r) = receive_message s in (s', if r.result.ok then r.message else none)

  abbrev pub framed_message_transport : Transport
  framed_message_transport = record {
    State = t.State;
    send = framed_send;
    receive = framed_receive;
    empty = adapter_empty;
  }
