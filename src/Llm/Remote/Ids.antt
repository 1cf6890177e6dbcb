-- ===== src/Llm/Remote/Ids.antt =====
-- The identifiers of requests, and that a request of short texts can be carried.
use galculus.Common.{
  ℕ, zero, suc, ◌+◌, ◌^◌, ◌<◌, ◌≤◌, ◌/◌, ◌%◌, arith, [], ◌∷◌, length, length-append, refl,
  All-append, codes, ltb, if_elim, if◌then◌else◌,
}
use galculus.Core.Wire.{Bytes, IsBytes, sized-IsBytes}
use galculus.Core.Tcp.{Winsock}
use galculus.Core.Tcp.Messages.{IsCarried}
use galculus.Llm.{Clock, Prompt, GenerationConfig}
use galculus.Bridge.Fields.{IsConfig, IsRequest}
use galculus.Bridge.Carried.{
  prompt_size, IsText, length-le-prompt_size, contents_fit_prompt_size, encode_request-IsCarried,
}
use galculus.Llm.Remote.{
  decimal_loop, decimal, Address, RemoteLlm, next_request_id, request_message,
}

digit-IsBytes : (n : ℕ) → IsBytes ((48 + n % 10) ∷ [])
digit-IsBytes n = omega arith

decimal_loop-IsBytes : (rounds n : ℕ) → IsBytes (decimal_loop rounds n)
unfolding decimal_loop
decimal_loop-IsBytes zero n = tt
decimal_loop-IsBytes (suc rounds) n =
    All-append _ (if ltb n 10 then [] else decimal_loop rounds (n / 10)) _
      (if_elim IsBytes (ltb n 10) (λ _. tt) (λ _. decimal_loop-IsBytes rounds (n / 10)))
      (digit-IsBytes n)

length-decimal_loop : (rounds n : ℕ) → length (decimal_loop rounds n) ≤ rounds
unfolding decimal_loop
length-decimal_loop zero n = omega arith
length-decimal_loop (suc rounds) n =
    let front : length (if ltb n 10 then [] else decimal_loop rounds (n / 10)) ≤ rounds =
      if_elim (λ (xs : Bytes). length xs ≤ rounds) (ltb n 10) (λ _. omega arith)
        (λ _. length-decimal_loop rounds (n / 10)) in
    omega (
      arith,
      length-append (if ltb n 10 then [] else decimal_loop rounds (n / 10)) ((48 + n % 10) ∷ []),
    )

-- Texts of bytes, short enough together, and a configuration that the C++ types admit.
pub record IsAsked (a : Address) (prompt : Prompt) (config : GenerationConfig) : Type 0 where
  pub config_fits : IsConfig config
  pub text : IsText prompt
  pub source : IsBytes a.source
  pub target : IsBytes a.target
  pub short : length a.source + length a.target + prompt_size prompt + 222 < 2 ^ 31

module _ (w : Winsock) (clock : Clock) (r : RemoteLlm w clock) where
  pub next_request_id-IsBytes : IsBytes (next_request_id w clock r).1
  unfolding next_request_id decimal
  next_request_id-IsBytes =
      All-append _ (codes "remote-llm-req-") _ (sized-IsBytes (codes "remote-llm-req-") refl)
        (decimal_loop-IsBytes 20 ((r.request_counter + 1) % 2 ^ 64))

  pub length-next_request_id : length (next_request_id w clock r).1 ≤ 35
  unfolding next_request_id decimal
  length-next_request_id = omega (
    arith,
    length-append (codes "remote-llm-req-") (decimal_loop 20 ((r.request_counter + 1) % 2 ^ 64)),
    length-decimal_loop 20 ((r.request_counter + 1) % 2 ^ 64),
  )

  module _ (a : Address) (prompt : Prompt) (config : GenerationConfig)
      (v : IsAsked a prompt config) where
    pub asked-IsRequest :
        IsRequest
          (record { request_id = (next_request_id w clock r).1; prompt = prompt; config = config })
    asked-IsRequest = record {
      request_id_fits = omega (arith, length-next_request_id);
      config_fits = v.config_fits;
      count_fits = omega (arith, length-le-prompt_size prompt, v.short);
      contents_fit = contents_fit_prompt_size prompt (omega (arith, v.short));
    }

    pub asked-IsCarried :
        IsCarried (request_message w clock a (next_request_id w clock r).1 prompt config)
    asked-IsCarried =
        encode_request-IsCarried _ a.source a.target asked-IsRequest next_request_id-IsBytes v.text
          v.source v.target (omega (arith, length-next_request_id, v.short))
