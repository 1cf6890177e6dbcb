-- ===== src/Core/Transport/Errors.antt =====
-- What the adapter does with bytes that are no frame, and which messages it can hand out.
use galculus.Common.{
  ℕ, ◌+◌, ◌^◌, ◌<◌, true, false, some, none, List, [], ◌∷◌, ◌≡◌, ◌≢◌, refl, arith, length, set,
  get_or, Extends,
}
use galculus.Core.Wire.{Bytes, IsBytes}
use galculus.Core.Message.{Message, IsMessage}
use galculus.Core.Protocol
use galculus.Core.Protocol.Sound.{decode_sound as packet-sound}
use galculus.Core.Frame
use galculus.Core.Frame.Sound.{decode_sound_frame as frame-sound, payload-IsBytes}
use galculus.Core.Transport.{framed_receive, receive_message, open_frame, take_front}
use galculus.Core.Transport.Framed.{framed, to_frame, IsSendable, open_frame-to_frame}
use galculus.Core.Frame.Integrity.{decode-set}
use galculus.Core.Protocol.Truncated.{encode-IsBytes}

open_frame-set :
    (m : Message) (i b : ℕ)
    → IsSendable m
    → i < length (Protocol.encode m)
    → b < 256
    → b ≢ get_or (Protocol.encode m) i 0
    → (open_frame (set (to_frame m) (8 + i) b)).result.ok ≡ false
unfolding open_frame
open_frame-set m i b h inside small other =
    rw (decode-set (Protocol.encode m) i b (encode-IsBytes m h.valid) h.fits inside small other)
      refl

-- When one byte of the packet in the frame of a sendable message has become another one, the
-- framed transport over the in-memory byte queue takes the frame off and answers as on an empty
-- queue, and the next receive returns the sendable message whose frame stands behind it.
pub framed_receive_damaged :
    (m next : Message) (i b : ℕ) (rest : List Bytes)
    → IsSendable m
    → IsSendable next
    → i < length (Protocol.encode m)
    → b < 256
    → b ≢ get_or (Protocol.encode m) i 0
    → (framed.receive (set (to_frame m) (8 + i) b ∷ to_frame next ∷ rest)
        ≡ (to_frame next ∷ rest, none))
      × (framed.receive [] ≡ ([], none))
      × (framed.receive (framed.receive (set (to_frame m) (8 + i) b ∷ to_frame next ∷ rest)).0
          ≡ (rest, some next))
unfolding framed_receive receive_message take_front
framed_receive_damaged m next i b rest h next_h inside small other =
    let bad = open_frame-set m i b h inside small other in
    rw (bad, open_frame-to_frame next next_h) (refl, refl, refl)

open_frame_parts :
    (b : Bytes) (m : Message)
    → (open_frame b).message ≡ some m
    → ((Frame.decode b).result.ok ≡ true)
      × ((Protocol.decode (Frame.decode b).payload).result.ok ≡ true)
      × ((Protocol.decode (Frame.decode b).payload).message ≡ m)
unfolding open_frame
open_frame_parts b m e = ground arith

-- The adapter makes no message up: what it hands out of fewer than 2 ^ 63 bytes was encoded, in a
-- packet and a frame, at their start, and its fields are in range.
open_frame_sound :
    (b : Bytes) (m : Message)
    → IsBytes b
    → length b < 2 ^ 63
    → (open_frame b).message ≡ some m
    → (packet : Bytes) × Extends (Frame.encode packet) b
      × Extends (Protocol.encode m) packet
      × IsMessage m
open_frame_sound b m valid small e =
    let (good, opened, same) = open_frame_parts b m e in
    let (x, bound) = frame-sound b valid small good in
    let (y, v) =
      packet-sound (Frame.decode b).payload (payload-IsBytes _ b valid x) (omega arith) opened in
    ((Frame.decode b).payload, x, rw same at y, rw same at v)
