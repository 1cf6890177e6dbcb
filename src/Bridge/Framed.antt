-- ===== src/Bridge/Framed.antt =====
-- A request on its way to the server: in its message, packet and frame, and out of them again.
use galculus.Common.{◌+◌, ◌^◌, ◌<◌, ◌≡◌, arith, some, length}
use galculus.Common.Exceptions.{ok}
use galculus.Core.Wire.{Bytes, IsBytes}
use galculus.Core.Message.{success, Message}
use galculus.Core.Protocol
use galculus.Core.Protocol.Truncated.{length-encode}
use galculus.Core.Frame.Sound.{length-encode as length-encode_frame}
use galculus.Core.Transport.{open_frame}
use galculus.Core.Transport.Framed.{to_frame, open_frame-to_frame}
use galculus.Core.Tcp.Messages.{sendable}
use galculus.Bridge.{LlmRequest, encode_request, decode_request}
use galculus.Bridge.Fields.{IsRequest}
use galculus.Bridge.Carried.{prompt_size, IsText, write_request-HasSize, encode_request-IsCarried}
use galculus.Bridge.RoundTrip.{decode_request-encode_request}

-- The frame of the message of a request has 97 bytes more than its addresses, identifier and
-- prompt, and opens with success to a message that decodes to that request, if the fields are in
-- range and the strings consist of bytes and are short enough together.
pub open_frame-encode_request :
    (r : LlmRequest) (source target : Bytes)
    → IsRequest r
    → IsBytes r.request_id
    → IsText r.prompt
    → IsBytes source
    → IsBytes target
    → length source + length target + length r.request_id + prompt_size r.prompt + 97 < 2 ^ 31
    → (length (to_frame (encode_request r source target))
        ≡ length source + length target + length r.request_id + prompt_size r.prompt + 97)
      × ((message : Message) × (open_frame (to_frame (encode_request r source target))
            ≡ record { result = success; message = some message })
          × (decode_request message ≡ ok r))
unfolding encode_request
open_frame-encode_request r source target v id text from to fits =
    let m = encode_request r source target in
    let carried = encode_request-IsCarried r source target v id text from to fits in
    let size = (write_request-HasSize r v id text).1 in
    let framed = length-encode_frame (Protocol.encode m) (omega (arith, carried.fits)) in
    (
      omega (arith, size, framed, length-encode m),
      (
        m,
        open_frame-to_frame m (sendable m carried),
        decode_request-encode_request r source target v (omega (arith, size)),
      ),
    )
