-- ===== src/Tests/Bridge.antt =====
-- A request and a response for llm_bridge/.
use galculus.Common.{◌≡◌, refl, arith, some, false, [], ◌∷◌, length, codes}
use galculus.Common.Exceptions.{ok, throw}
use galculus.Llm.{user, tool, ok as fine}
use galculus.Bridge.{
  LlmRequest, LlmResponse, write_request, write_messages, write_config, encode_request,
  decode_request, write_response, encode_response, decode_response,
}
use galculus.Bridge.Streams.{write_u8, write_u32, write_str}
use galculus.Bridge.Streams.{truncated}
use galculus.Bridge.Fields.{IsRequest, IsResponse}
use galculus.Core.Wire.{sized-IsBytes}
use galculus.Bridge.Carried.{sized_text-IsText}
use galculus.Bridge.Framed.{open_frame-encode_request}
use galculus.Core.Message.{success, Message}
use galculus.Core.Transport.{open_frame}
use galculus.Core.Transport.Framed.{to_frame}
use galculus.Bridge.RoundTrip.{
  cut_at, decode_request-truncated, decode_request-encode_request, decode_response-encode_response,
}

abbrev request : LlmRequest
request = record {
  request_id = codes "q1";
  prompt = record { role = user; content = codes "hi" } ∷ record { role = tool; content = [] } ∷ [];
  config = record {
    max_tokens = 60;
    temperature = 0x3DCCCCCD;
    top_p = 0x3F800000;
    seed = 7;
    timeout_ms = 1000;
    stream = false;
  };
}

request-IsRequest : IsRequest request
request-IsRequest = record {
  request_id_fits = omega arith;
  config_fits = record {
    max_tokens_fits = omega arith;
    temperature_fits = omega arith;
    top_p_fits = omega arith;
    seed_fits = omega arith;
    timeout_ms_fits = omega arith;
  };
  count_fits = omega arith;
  contents_fit = (omega arith, (omega arith, tt));
}

length-request : length (write_request request) ≡ 57
unfolding write_request write_messages write_config write_u8 write_u32 write_str
length-request = refl

decode_request-encode_request_example :
    decode_request (encode_request request (codes "a") (codes "b")) ≡ ok request
decode_request-encode_request_example =
    decode_request-encode_request request (codes "a") (codes "b") request-IsRequest
      (omega (arith, length-request))

abbrev response : LlmResponse
response = record {
  request_id = codes "q1";
  result = record {
    status = fine;
    text = codes "yes";
    prompt_tokens = 3;
    completion_tokens = 1;
    elapsed_ms = 9;
    error_message = [];
  };
}

response-IsResponse : IsResponse response
response-IsResponse = record {
  request_id_fits = omega arith;
  text_fits = omega arith;
  prompt_tokens_fits = omega arith;
  completion_tokens_fits = omega arith;
  elapsed_ms_fits = omega arith;
  error_message_fits = omega arith;
}

length-response : length (write_response response) ≡ 44
unfolding write_response write_u8 write_u32 write_str
length-response = refl

decode_response-encode_response_example :
    decode_response (encode_response response (codes "b") (codes "a")) ≡ ok response
decode_response-encode_response_example =
    decode_response-encode_response response (codes "b") (codes "a") response-IsResponse
      (omega (arith, length-response))

open_frame-encode_request_example :
    (length (to_frame (encode_request request (codes "me") (codes "you"))) ≡ 116)
    × ((message : Message) × (open_frame
            (to_frame (encode_request request (codes "me") (codes "you")))
          ≡ record { result = success; message = some message })
        × (decode_request message ≡ ok request))
open_frame-encode_request_example =
    open_frame-encode_request request (codes "me") (codes "you") request-IsRequest
      (sized-IsBytes (codes "q1") refl) (sized_text-IsText request.prompt refl)
      (sized-IsBytes (codes "me") refl) (sized-IsBytes (codes "you") refl) (omega arith)

decode_request-truncated_example :
    decode_request (cut_at 56 (encode_request request (codes "a") (codes "b"))) ≡ throw truncated
decode_request-truncated_example =
    decode_request-truncated request (codes "a") (codes "b") 56 request-IsRequest
      (omega (arith, length-request)) (omega (arith, length-request))
