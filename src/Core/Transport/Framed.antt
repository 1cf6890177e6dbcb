-- ===== src/Core/Transport/Framed.antt =====
-- A framed transport over the in-memory byte queue keeps the contract of a queue: each message
-- that is short enough comes out as it went in.
use galculus.Common.{
  Bool-cases, inl, inr, Option, ◌^◌, ◌<◌, true, some, none, List, [], ◌∷◌, ◌++◌, map, ◌≡◌, refl,
  sym, ap, ◌∙◌, arith, All, All-append, length, Extends-refl,
}
use mathlib.Core.List.{map-append}
use galculus.Core.Wire.{Bytes}
use galculus.Core.Message.{success, Message, IsMessage}
use galculus.Core.Protocol
use galculus.Core.Protocol.RoundTrip.{decode-encode as decode-packet}
use galculus.Core.Frame
use galculus.Core.Frame.RoundTrip.{decode-encode_frame as decode-frame}
use galculus.Core.Frame.Sound.{length-encode}
use galculus.Core.Transport.{
  ByteTransport, received, in_memory_byte_transport, in_memory_transport, Transport,
  framed_message_transport, framed_send, framed_receive, send_message, receive_message, open_frame,
  push, take_front, is_empty, adapter_empty,
}
use galculus.Core.Transport.Fifo.{
  IsFifo, Call, sends, receives, asks_empty, Carries, run, run-replies,
}
use galculus.Core.Transport.InMemory.{in_memory-IsFifo}

-- The encoding of the message is a payload that fits a frame.
pub record IsSendable (m : Message) : Type 0 where
  pub valid : IsMessage m
  pub fits : length (Protocol.encode m) < 2 ^ 32

abbrev pub to_frame : Message → Bytes
to_frame m = Frame.encode (Protocol.encode m)

-- A message survives the frame and the packet.
pub open_frame-to_frame :
    (m : Message)
    → IsSendable m
    → open_frame (to_frame m) ≡ record { result = success; message = some m }
unfolding open_frame
open_frame-to_frame m h =
    let packet = Protocol.encode m in
    let size = length-encode packet h.fits in
    rw
      (
        decode-frame packet (Frame.encode packet) h.fits (omega arith) (Extends-refl _),
        decode-packet m packet h.valid (omega arith) (Extends-refl _),
      )
      refl

-- A framed transport on a byte transport that takes the frame, and that hands it out.
module _ (t : ByteTransport) (s : t.State) (m : Message) where
  pub framed_send_taken :
      (t.send_bytes s (to_frame m)).1 ≡ true
      → framed_send t s m ≡ ((t.send_bytes s (to_frame m)).0, true)
  unfolding framed_send send_message
  framed_send_taken sent = rw (sent) refl

  pub framed_receive_given :
      (s' : t.State)
      → t.receive_bytes s ≡ (s', some (to_frame m))
      → IsSendable m
      → framed_receive t s ≡ (s', some m)
  unfolding framed_receive receive_message received
  framed_receive_given s' given h = rw (given, open_frame-to_frame m h) refl

  pub framed_send_state : (framed_send t s m).0 ≡ (t.send_bytes s (to_frame m)).0
  unfolding framed_send send_message
  framed_send_state = elim (Bool-cases (t.send_bytes s (to_frame m)).1) [
    | inl e ↦ rw e refl
    | inr e ↦ rw e refl
  ]

received_state : (t : ByteTransport) (p : t.State × Option Bytes) → (received t p).0 ≡ p.0
unfolding received
received_state t (s, none) = refl
received_state t (s, some bytes) = refl

received_nothing :
    (t : ByteTransport) (p : t.State × Option Bytes)
    → p.1 ≡ none
    → (received t p).1 ≡ record { result = success; message = none }
unfolding received
received_nothing t (s, none) e = refl
received_nothing t (s, some bytes) e = cc

-- Where no bytes come, no message does.
pub framed_receive_lost :
    (t : ByteTransport) (s : t.State) → (t.receive_bytes s).1 ≡ none → (framed_receive t s).1 ≡ none
unfolding framed_receive receive_message
framed_receive_lost t s lost = rw (received_nothing t (t.receive_bytes s) lost) refl

pub framed_receive_state :
    (t : ByteTransport) (s : t.State) → (framed_receive t s).0 ≡ (t.receive_bytes s).0
unfolding framed_receive receive_message
framed_receive_state t s = received_state t (t.receive_bytes s)

abbrev pub framed : Transport
framed = framed_message_transport in_memory_byte_transport

Carries-any : (cs : List Call) → All (Carries IsSendable) cs → All (Carries (λ m. Unit {0})) cs
Carries-any [] h = tt
Carries-any (sends m ∷ cs) h = (tt, Carries-any cs h.1)
Carries-any (receives ∷ cs) h = (tt, Carries-any cs h.1)
Carries-any (asks_empty ∷ cs) h = (tt, Carries-any cs h.1)

-- The byte queue holds the frames of the messages `q`.
pub record Holds (s : List Bytes) (q : List Message) : Type 0 where
  pub frames : s ≡ map to_frame q
  pub sendable : All IsSendable q

pub framed_sending :
    (s : List Bytes) (q : List Message) (m : Message)
    → Holds s q
    → IsSendable m
    → ((framed.send s m).1 ≡ true) × Holds (framed.send s m).0 (q ++ m ∷ [])
unfolding framed_send send_message push
framed_sending s q m v h = (
  refl,
  record {
    frames =
        ap (λ (t : List Bytes). t ++ to_frame m ∷ []) v.frames
        ∙ sym (map-append to_frame q (m ∷ []));
    sendable = All-append IsSendable q (m ∷ []) v.sendable (h, tt);
  },
)

pub framed_receiving_none :
    (s : List Bytes) → Holds s [] → ((framed.receive s).1 ≡ none) × Holds (framed.receive s).0 []
unfolding framed_receive receive_message take_front
framed_receiving_none s v = rw v.frames (refl, record { frames = refl; sendable = tt })

pub framed_receiving_some :
    (s : List Bytes) (m : Message) (q : List Message)
    → Holds s (m ∷ q)
    → ((framed.receive s).1 ≡ some m) × Holds (framed.receive s).0 q
unfolding framed_receive receive_message take_front
framed_receiving_some s m q v =
    rw (v.frames, open_frame-to_frame m v.sendable.0)
      (refl, record { frames = refl; sendable = v.sendable.1 })

pub framed_empty : (s : List Bytes) (q : List Message) → Holds s q → framed.empty s ≡ is_empty q
unfolding adapter_empty is_empty
framed_empty s [] v = rw v.frames
framed_empty s (m ∷ q) v = rw v.frames

abbrev pub framed-IsFifo : IsFifo framed
framed-IsFifo = record {
  Holds = Holds;
  Sendable = IsSendable;
  sending = framed_sending;
  receiving_none = framed_receiving_none;
  receiving_some = framed_receiving_some;
  empty-is_empty = framed_empty;
}

-- Over the in-memory byte queue a framed transport answers every sequence of calls as the
-- in-memory message queue does, if each message sent has fields in range and an encoding that fits
-- a frame.
pub framed-refines :
    (cs : List Call)
    → All (Carries IsSendable) cs
    → run framed [] cs ≡ run in_memory_transport [] cs
framed-refines cs h =
    run-replies framed framed-IsFifo [] [] cs (record { frames = refl; sendable = tt }) h
    ∙ sym (run-replies in_memory_transport in_memory-IsFifo [] [] cs refl (Carries-any cs h))
