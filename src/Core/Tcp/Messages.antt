-- ===== src/Core/Tcp/Messages.antt =====
-- Messages over a connection, in their packets and frames.
use galculus.Common.{◌+◌, ◌^◌, ◌<◌, ◌≡◌, refl, ap, arith, Bool, true, Option, some, ◌++◌, length}
use galculus.Core.Wire.{Bytes, IsBytes}
use galculus.Core.Message.{Message, IsMessage}
use galculus.Core.Protocol
use galculus.Core.Protocol.Truncated
use galculus.Core.Frame.Sound.{length-encode}
use galculus.Core.Transport.{framed_send, framed_receive}
use galculus.Core.Transport.Framed.{IsSendable, to_frame, framed_send_taken, framed_receive_given}
use galculus.Core.Tcp.{Winsock, TcpByteTransport, tcp_byte_transport, receive_bytes, close}
use galculus.Core.Tcp.Streams.{IsStream}
use galculus.Core.Tcp.Frames.{IsOpen, send_bytes_lem, receive_bytes-encode}

-- Fields in range, and a frame whose size fits an `int`.
pub record IsCarried (m : Message) : Type 0 where
  pub valid : IsMessage m
  pub fits : length (Protocol.encode m) + 12 < 2 ^ 31

-- Fields of bytes, and 2 ^ 31 bytes at most with the 43 that packet and frame add.
pub short-IsCarried :
    (m : Message)
    → m.id < 2 ^ 64
    → m.type < 256
    → IsBytes m.source
    → IsBytes m.target
    → IsBytes m.event.name
    → IsBytes m.event.payload
    → length m.source + length m.target + length m.event.name + length m.event.payload + 43 < 2 ^ 31
    → IsCarried m
short-IsCarried m id type source target name payload short = record {
  valid = record {
    id_fits = id;
    type_fits = type;
    source_fits = (source, omega arith);
    target_fits = (target, omega arith);
    name_fits = (name, omega arith);
    payload_fits = (payload, omega arith);
  };
  fits = omega (arith, Truncated.length-encode m);
}

pub sendable : (m : Message) → IsCarried m → IsSendable m
sendable m h = record { valid = h.valid; fits = omega (arith, h.fits) }

-- What the destructor leaves of an open transport whose socket has taken `out` and gets `inp`.
abbrev pub Closes : (w : Winsock) (c : IsStream w) → w.State → Bytes → Bytes → Type 0
Closes w c s out inp = (t : TcpByteTransport w) × (s ≡ close w t) × IsOpen w c t out inp

module _ (w : Winsock) (c : IsStream w) (t : TcpByteTransport w) where
  pub framed_send_lem :
      (m : Message) (out inp : Bytes)
      → IsCarried m
      → IsOpen w c t out inp
      → ((framed_send (tcp_byte_transport w) t m).1 ≡ true)
        × IsOpen w c (framed_send (tcp_byte_transport w) t m).0 (out ++ to_frame m) inp
  framed_send_lem m out inp h v =
      let size = length-encode (Protocol.encode m) (sendable m h).fits in
      let (sent, v') =
        send_bytes_lem w c t (to_frame m) out inp v (omega arith) (omega (arith, h.fits)) in
      rw (framed_send_taken (tcp_byte_transport w) t m sent) (refl, v')

  pub framed_receive_lem :
      (m : Message) (rest out : Bytes)
      → IsCarried m
      → IsOpen w c t out (to_frame m ++ rest)
      → ((framed_receive (tcp_byte_transport w) t).1 ≡ some m)
        × IsOpen w c (framed_receive (tcp_byte_transport w) t).0 out rest
  framed_receive_lem m rest out h v =
      let (got, v') =
        receive_bytes-encode w c t (Protocol.encode m) rest out v (omega (arith, h.fits)) in
      let whole : receive_bytes w t ≡ ((receive_bytes w t).0, some (to_frame m)) =
        ap (λ (o : Option Bytes). ((receive_bytes w t).0, o)) got in
      rw (framed_receive_given (tcp_byte_transport w) t m _ whole (sendable m h)) (refl, v')

  -- The same, with the transport that is left.
  pub framed_sends :
      (m : Message) (out inp : Bytes)
      → IsCarried m
      → IsOpen w c t out inp
      → (t' : TcpByteTransport w) × (framed_send (tcp_byte_transport w) t m ≡ (t', true))
        × IsOpen w c t' (out ++ to_frame m) inp
  framed_sends m out inp carried v =
      let (sent, v') = framed_send_lem m out inp carried v in
      let t' = (framed_send (tcp_byte_transport w) t m).0 in
      (t', ap (λ (b : Bool). (t', b)) sent, v')

  pub framed_receives :
      (m : Message) (rest out : Bytes)
      → IsCarried m
      → IsOpen w c t out (to_frame m ++ rest)
      → (t' : TcpByteTransport w) × (framed_receive (tcp_byte_transport w) t ≡ (t', some m))
        × IsOpen w c t' out rest
  framed_receives m rest out carried v =
      let (got, v') = framed_receive_lem m rest out carried v in
      let t' = (framed_receive (tcp_byte_transport w) t).0 in
      (t', ap (λ (o : Option Message). (t', o)) got, v')
