-- ===== src/Core/Tcp/Order.antt =====
-- A sequence of messages over a connection, however the bytes are cut up on the way.
use mathlib.Core.Path.{subst}
use galculus.Common.{
  ◌≡◌, refl, sym, ap₂, Bool, true, ◌&&◌, Option, some, List, [], ◌∷◌, ◌++◌, map, length, All,
  append_assoc, append-nil, ℕ, zero, suc,
}
use galculus.Core.Wire.{Bytes}
use galculus.Core.Message.{Message}
use galculus.Core.Transport.{framed_send, framed_receive}
use galculus.Core.Transport.Framed.{to_frame}
use galculus.Core.Tcp.{Winsock, TcpByteTransport, tcp_byte_transport}
use galculus.Core.Tcp.Streams.{IsStream}
use galculus.Core.Tcp.Frames.{IsOpen}
use galculus.Core.Tcp.Messages.{IsCarried, framed_send_lem, framed_receive_lem}

-- The frames of messages, one behind the other.
abbrev pub frames : List Message → Bytes
frames [] = []
frames (m ∷ rest) = to_frame m ++ frames rest

module _ (w : Winsock) where
  -- The transport after all the calls of `send`, and whether each succeeded.
  abbrev pub sent_all : TcpByteTransport w → List Message → TcpByteTransport w × Bool
  sent_all t [] = (t, true)
  sent_all t (m ∷ rest) =
      let (t', sent) = framed_send (tcp_byte_transport w) t m in
      let (t'', others) = sent_all t' rest in (t'', sent && others)

  -- What that many calls of `receive` return.
  abbrev pub got_all : TcpByteTransport w → ℕ → List (Option Message)
  got_all t zero = []
  got_all t (suc calls) =
      let (t', got) = framed_receive (tcp_byte_transport w) t in got ∷ got_all t' calls

module _ (w : Winsock) (c : IsStream w) where
  sent_all-frames :
      (t : TcpByteTransport w) (ms : List Message) (out inp : Bytes)
      → All IsCarried ms
      → IsOpen w c t out inp
      → ((sent_all w t ms).1 ≡ true) × IsOpen w c (sent_all w t ms).0 (out ++ frames ms) inp
  sent_all-frames t [] out inp h v =
      (refl, subst (λ (x : Bytes). IsOpen w c t x inp) (sym (append-nil out)) v)
  sent_all-frames t (m ∷ rest) out inp h v =
      let (sent, v') = framed_send_lem w c t m out inp h.0 v in
      let t' = (framed_send (tcp_byte_transport w) t m).0 in
      let (others, v'') = sent_all-frames t' rest (out ++ to_frame m) inp h.1 v' in
      (
        ap₂ (λ (a b : Bool). a && b) sent others,
        subst (λ (x : Bytes). IsOpen w c (sent_all w t' rest).0 x inp)
            (append_assoc out (to_frame m) (frames rest)) v'',
      )

  got_all-frames :
      (t : TcpByteTransport w) (ms : List Message) (out rest : Bytes)
      → All IsCarried ms
      → IsOpen w c t out (frames ms ++ rest)
      → got_all w t (length ms) ≡ map some ms
  got_all-frames t [] out rest h v = refl
  got_all-frames t (m ∷ ms) out rest h v =
      let (got, v') =
        framed_receive_lem w c t m (frames ms ++ rest) out h.0
          (subst (IsOpen w c t out) (append_assoc (to_frame m) (frames ms) rest) v) in
      ap₂ (λ (a : Option Message) (b : List (Option Message)). a ∷ b) got
        (got_all-frames (framed_receive (tcp_byte_transport w) t).0 ms out rest h.1 v')

module _ (w w' : Winsock) (c : IsStream w) (c' : IsStream w') where
  -- Messages with fields in range, and frames shorter than 2 ^ 31, that are sent over an open
  -- connection are all taken, and go out as their frames in order; a transport on which these
  -- frames arrive first returns the messages in that order, whatever parts the bytes come in.
  pub got_all-sent_all :
      (t : TcpByteTransport w) (t' : TcpByteTransport w') (ms : List Message)
      (inp out' rest : Bytes)
      → All IsCarried ms
      → IsOpen w c t [] inp
      → IsOpen w' c' t' out' (frames ms ++ rest)
      → ((sent_all w t ms).1 ≡ true)
        × (IsOpen w c (sent_all w t ms).0 (frames ms) inp
            × (got_all w' t' (length ms) ≡ map some ms))
  got_all-sent_all t t' ms inp out' rest h v v' =
      let (sent, open_after) = sent_all-frames w c t ms [] inp h v in
      (sent, (open_after, got_all-frames w' c' t' ms out' rest h v'))
