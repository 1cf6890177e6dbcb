-- ===== src/Tests/Core.antt =====
-- Concrete messages, frames, queues and runtimes for core/.
use galculus.Common.{
  ◌^◌, ◌<◌, ◌≡◌, refl, arith, [], ◌∷◌, ◌++◌, codes, length, Extends, Extends-refl, ap, sym, set,
}
use galculus.Core.Wire.{Bytes, IsBytes, write_u16, write_u32, write_u64, write_bytes}
use galculus.Core.Message.{success, Message, IsMessage}
use galculus.Core.Protocol
use galculus.Core.Protocol.RoundTrip.{decode-encode}
use galculus.Core.Protocol.Sound.{decode_sound}
use galculus.Core.Protocol.Truncated.{length-encode, encode-IsBytes}
use galculus.Core.Frame
use galculus.Core.Frame.RoundTrip.{decode-encode_frame}
use galculus.Core.Frame.Sound.{
  decode_sound_frame, decode_truncated_frame, encode-IsBytes as encode-IsBytes_frame,
}
use galculus.Core.Frame.Integrity.{decode-set}

abbrev greeting : Message
greeting = record {
  id = 7;
  type = 0;
  source = codes "a";
  target = codes "b";
  event = record { name = codes "hi"; payload = 1 ∷ 255 ∷ [] };
}

greeting-IsMessage : IsMessage greeting
greeting-IsMessage = record {
  id_fits = omega arith;
  type_fits = omega arith;
  source_fits = ((omega arith, tt), omega arith);
  target_fits = ((omega arith, tt), omega arith);
  name_fits = ((omega arith, (omega arith, tt)), omega arith);
  payload_fits = ((omega arith, (omega arith, tt)), omega arith);
}

-- The encoding of the greeting, without its last byte.
abbrev front : Bytes
front =
    71 ∷ 67 ∷ 76 ∷ 67 ∷ 0 ∷ 1 ∷ 0 ∷ 0 ∷ 0 ∷ 0 ∷ 0 ∷ 0 ∷ 0 ∷ 0 ∷ 7 ∷ 0 ∷ 0 ∷ 0 ∷ 1 ∷ 97 ∷ 0 ∷ 0 ∷ 0
    ∷ 1 ∷ 98 ∷ 0 ∷ 0 ∷ 0 ∷ 2 ∷ 104 ∷ 105 ∷ 0 ∷ 0 ∷ 0 ∷ 2 ∷ 1 ∷ []

encode-greeting : Protocol.encode greeting ≡ front ++ (255 ∷ [])
unfolding Protocol.encode write_u16 write_u32 write_u64 write_bytes
encode-greeting = refl

greeting-length : length (Protocol.encode greeting) ≡ 37
greeting-length = length-encode greeting

decode-greeting :
    Protocol.decode (Protocol.encode greeting) ≡ record { result = success; message = greeting }
decode-greeting =
    decode-encode greeting (Protocol.encode greeting) greeting-IsMessage
      (omega (arith, greeting-length)) (Extends-refl (Protocol.encode greeting))

decode-encode_example :
    Protocol.decode (front ++ 255 ∷ 9 ∷ []) ≡ record { result = success; message = greeting }
decode-encode_example =
    decode-encode greeting (front ++ 255 ∷ 9 ∷ []) greeting-IsMessage (omega arith)
      (9 ∷ [], ap (λ (b : Bytes). b ++ 9 ∷ []) (sym encode-greeting))

decode_sound_example :
    Extends
      (Protocol.encode (Protocol.decode (Protocol.encode greeting)).message)
      (Protocol.encode greeting)
    × IsMessage (Protocol.decode (Protocol.encode greeting)).message
decode_sound_example =
    decode_sound (Protocol.encode greeting) (encode-IsBytes greeting greeting-IsMessage)
      (omega (arith, greeting-length))
      (ap (λ (r : Protocol.DecodeResult). r.result.ok) decode-greeting)

abbrev body : Bytes
body = 1 ∷ 2 ∷ 3 ∷ []

decode-encode_frame_example :
    Frame.decode (Frame.encode body) ≡ record { result = success; payload = body }
decode-encode_frame_example =
    decode-encode_frame body (Frame.encode body) (omega arith)
      (omega (arith, Frame.Sound.length-encode body (omega arith)))
      (Extends-refl (Frame.encode body))

body-IsBytes : IsBytes body
body-IsBytes = (omega arith, (omega arith, (omega arith, tt)))

frame_length : length (Frame.encode body) ≡ 15
frame_length = Frame.Sound.length-encode body (omega arith)

decode_sound_frame_example :
    Extends (Frame.encode (Frame.decode (Frame.encode body)).payload) (Frame.encode body)
    × (length (Frame.decode (Frame.encode body)).payload < 2 ^ 32)
decode_sound_frame_example =
    decode_sound_frame (Frame.encode body) (encode-IsBytes_frame body body-IsBytes)
      (omega (arith, frame_length))
      (ap (λ (r : Frame.FrameDecodeResult). r.result.ok) decode-encode_frame_example)

abbrev frame_front : Bytes
frame_front = 71 ∷ 70 ∷ 77 ∷ 69 ∷ 0 ∷ 0 ∷ 0 ∷ 3 ∷ 1 ∷ 2 ∷ 3 ∷ 0 ∷ 0 ∷ 0 ∷ []

encode-body : Frame.encode body ≡ frame_front ++ (6 ∷ [])
unfolding Frame.encode write_u32 Frame.checksum
encode-body = refl

decode-set_example :
    Frame.decode (set (Frame.encode body) 9 7)
    ≡ Frame.failed (1 ∷ 7 ∷ 3 ∷ []) "frame decode failed: checksum mismatch"
decode-set_example =
    decode-set body 1 7 body-IsBytes (omega arith) (omega arith) (omega arith)
      (λ e. absurd (omega arith))
