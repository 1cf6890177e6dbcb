-- ===== src/Bridge/RoundTrip.antt =====
-- Requests and responses survive their messages, and a payload that was cut off throws.
use galculus.Common.{
  ℕ, zero, suc, ◌^◌, ◌<◌, ◌≡◌, refl, sym, ap, ◌∙◌, arith, [], ◌∷◌, ◌++◌, length, get_or, take, drop,
  length-take, append-nil, ◌==ᵇ◌,
}
use galculus.Core.Wire.{Bytes}
use galculus.Core.Message.{Message}
use galculus.Bridge.{
  LlmRequest, LlmResponse, write_request, encode_request, read_request, result_of, decode_request,
  write_response, encode_response, read_response, decode_response,
}
use galculus.Common.Exceptions.{ok, throw}
use galculus.Bridge.Streams.{Reader, truncated}
use galculus.Bridge.Reads.{Reads}
use galculus.Bridge.Fields.{
  IsRequest, IsResponse, request_wire, response_wire, write_request_lem, write_response_lem,
  read_request-Reads, read_response-Reads,
}

whole :
    {A : Type 0} (p : Reader A) (w : Bytes) (v : A)
    → Reads p w v
    → length w < 2 ^ 63
    → result_of (p w 0) ≡ ok v
whole p w v r small =
    ap (λ (t : Bytes). result_of (p t 0)) (sym (append-nil w))
    ∙ ap result_of (r.reads [] [] (omega (arith, ap length (append-nil w))))

split_at :
    (n : ℕ) (xs : Bytes) → n < length xs → xs ≡ take n xs ++ (get_or xs n 0 ∷ drop (suc n) xs)
split_at n [] h = elim h [ ]
split_at zero (x ∷ xs) h = refl
split_at (suc n) (x ∷ xs) h = ap (◌∷◌ x) (split_at n xs (omega arith))

cut_off :
    {A : Type 0} (p : Reader A) (w : Bytes) (v : A) (n : ℕ)
    → Reads p w v
    → length w < 2 ^ 63
    → n < length w
    → result_of (p (take n w) 0) ≡ throw truncated
cut_off p w v n r small h = ap result_of (
    r.cuts [] (take n w) (get_or w n 0) (drop (suc n) w) (split_at n w h)
      (omega (arith, length-take n w)))

-- A request with fields in range survives its message, if the payload is shorter than 2 ^ 63.
pub decode_request-encode_request :
    (request : LlmRequest) (source target : Bytes)
    → IsRequest request
    → length (write_request request) < 2 ^ 63
    → decode_request (encode_request request source target) ≡ ok request
unfolding decode_request encode_request ◌==ᵇ◌
decode_request-encode_request request source target valid small =
    let e = write_request_lem request valid in
    rw e (
      whole read_request (request_wire request) request (read_request-Reads request valid)
        (omega (arith, ap length e)))

-- A response with fields in range survives its message, if the payload is shorter than 2 ^ 63.
pub decode_response-encode_response :
    (response : LlmResponse) (source target : Bytes)
    → IsResponse response
    → length (write_response response) < 2 ^ 63
    → decode_response (encode_response response source target) ≡ ok response
unfolding decode_response encode_response ◌==ᵇ◌
decode_response-encode_response response source target valid small =
    let e = write_response_lem response in
    rw e (
      whole read_response (response_wire response) response (read_response-Reads response valid)
        (omega (arith, ap length e)))

-- A message whose payload stops after `n` bytes.
abbrev pub cut_at : ℕ → Message → Message
cut_at n message = record message {
  event = record message.event { payload = take n message.event.payload };
}

-- A request message whose payload has lost any number of bytes at its end, of fields in range and
-- less than 2 ^ 63 bytes, makes decode_request throw the error for a truncated payload.
pub decode_request-truncated :
    (request : LlmRequest) (source target : Bytes) (n : ℕ)
    → IsRequest request
    → length (write_request request) < 2 ^ 63
    → n < length (write_request request)
    → decode_request (cut_at n (encode_request request source target)) ≡ throw truncated
unfolding decode_request encode_request ◌==ᵇ◌
decode_request-truncated request source target n valid small short =
    let e = write_request_lem request valid in
    rw e (
      cut_off read_request (request_wire request) request n (read_request-Reads request valid)
        (omega (arith, ap length e)) (omega (arith, ap length e)))

-- A response message whose fields are in range, with a payload shorter than 2 ^ 63 that has been
-- cut, makes decode_response throw the error for a truncated payload.
decode_response-truncated :
    (response : LlmResponse) (source target : Bytes) (n : ℕ)
    → IsResponse response
    → length (write_response response) < 2 ^ 63
    → n < length (write_response response)
    → decode_response (cut_at n (encode_response response source target)) ≡ throw truncated
unfolding decode_response encode_response ◌==ᵇ◌
decode_response-truncated response source target n valid small short =
    let e = write_response_lem response in
    rw e (
      cut_off read_response (response_wire response) response n (read_response-Reads response valid)
        (omega (arith, ap length e)) (omega (arith, ap length e)))
