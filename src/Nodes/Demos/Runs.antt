-- ===== src/Nodes/Demos/Runs.antt =====
-- How the small examples end.
use mathlib.Core.Path.{subst}
use galculus.Common.{append-nil, sym, ℕ, ◌≡◌, refl, ap, ◌∙◌, arith, ◌==ᵇ◌, some, inr, [], codes}
use galculus.Common.Exceptions.{Thrown, ok}
use galculus.Llm.{LlmResult, Clock, blank_result, is_ok}
use galculus.Core.Wire.{sized-IsBytes}
use galculus.Core.Transport.Framed.{to_frame}
use galculus.Core.Tcp.{Winsock, connect_to}
use galculus.Core.Tcp.Streams.{IsStream}
use galculus.Core.Tcp.Frames.{IsOpen}
use galculus.Bridge.{LlmRequest}
use galculus.Bridge.Carried.{sized_text-IsText}
use galculus.Llm.Remote.{RemoteLlm, next_request_id}
use galculus.Llm.Remote.Ids.{
  IsAsked, next_request_id-IsBytes, length-next_request_id, asked-IsCarried,
}
use galculus.Llm.Remote.Calls.{timed, generate_answered}
use galculus.Nodes.{fixed_response}
use galculus.Nodes.Client.{client_prompt}
use galculus.Nodes.Replies.{response_to, reply_to, response_to-IsResponse, reply_to-IsCarried}
use galculus.Llm.Mock.{
  mock_llm, count_words, count_loop, next_word, skip_space, extract_word, take_word, is_space,
}
use galculus.Llm.Mock
use galculus.Llm.Scheduled.{estimate_prompt_tokens, count_chars, to_task}
use galculus.Llm.Scheduled.Serving.{generate_served-result}
use galculus.Scheduler.Admission.{Fits}
use galculus.Nodes.Demos.{
  demo_budget, demo_prompt, demo_config, demo_end, demo_main, remote_address, remote_config,
  remote_end, remote_main,
}

prompt_estimate : estimate_prompt_tokens demo_prompt ≡ 22
unfolding estimate_prompt_tokens count_chars
prompt_estimate = refl

demo_prompt-Fits : Fits demo_budget (to_task demo_prompt demo_config)
unfolding to_task
demo_prompt-Fits = record {
  prompt = omega (arith, prompt_estimate);
  completion = λ e. cc;
  room = inr (refl, omega (arith, prompt_estimate));
}

abbrev pub demo_answer : (clock : Clock) → clock.State → LlmResult
demo_answer clock time =
    (Mock.generate clock (codes "mock response") time demo_prompt
      (record demo_config { max_tokens = 16 })).1

answered_end :
    (clock : Clock) (o : clock.State × ℕ)
    → demo_end (ok (Mock.answered clock (codes "mock response") o demo_prompt).1)
      ≡ ok (0, some (Mock.answered clock (codes "mock response") o demo_prompt).1)
unfolding demo_end Mock.answered blank_result ◌==ᵇ◌
answered_end clock (time, start) = refl

-- Whatever the clock, the scheduled demo prints the answer of its model and ends with 0.
demo_main_lem :
    (clock : Clock) (time : clock.State)
    → (demo_main clock time).1 ≡ ok (0, some (demo_answer clock time))
unfolding demo_main Mock.generate to_task estimate_prompt_tokens count_chars
demo_main_lem clock time =
    ap (λ (o : clock.State × Thrown LlmResult). demo_end o.1)
      (generate_served-result (mock_llm clock (codes "mock response")) time demo_budget demo_prompt
        demo_config (omega (arith, prompt_estimate)) demo_prompt-Fits)
    ∙ answered_end clock (clock.now time)

client_prompt-IsAsked : IsAsked remote_address client_prompt remote_config
client_prompt-IsAsked = record {
  config_fits = record {
    max_tokens_fits = omega arith;
    temperature_fits = omega arith;
    top_p_fits = omega arith;
    seed_fits = omega arith;
    timeout_ms_fits = omega arith;
  };
  text = sized_text-IsText client_prompt refl;
  source = sized-IsBytes remote_address.source refl;
  target = sized-IsBytes remote_address.target refl;
  short = omega arith;
}

module _ (w : Winsock) (clock : Clock) (r : RemoteLlm w clock) where
  abbrev pub remote_request : LlmRequest
  remote_request = record {
    request_id = (next_request_id w clock r).1;
    prompt = client_prompt;
    config = remote_config;
  }

  remote_end_ok :
      (clock' : Clock) (o : clock'.State × ℕ) (elapsed_ms : ℕ)
      (p : RemoteLlm w clock × Thrown LlmResult)
      → p.1
        ≡ ok (record (Mock.answered clock' fixed_response o client_prompt).1 {
          elapsed_ms = elapsed_ms;
        })
      → (remote_end w clock p).1
        ≡ ok (
          0,
          some (record (Mock.answered clock' fixed_response o client_prompt).1 {
            elapsed_ms = elapsed_ms;
          }),
        )
  unfolding remote_end Mock.answered blank_result is_ok
  remote_end_ok clock' (time, start) elapsed_ms (r', result) e = rw e refl

  -- The remote client, over an open connection that carries bytes in parts of any size and on which
  -- the server's answer to its request comes, prints that answer with the time that its own clock
  -- has measured, and ends with 0.
  remote_main-reply_to :
      (c : IsStream w) (clock' : Clock) (time : clock'.State) (here : w.State) (handle : ℕ)
      → connect_to w r.sockets (codes "127.0.0.1") 39200 ≡ (here, some handle)
      → IsOpen w c
          (record { sockets = here; socket_handle = handle })
          []
          (to_frame (reply_to clock' time remote_request (codes "remote_llm.example_client")))
      → (remote_main w clock r).1
        ≡ ok (0, some (timed w c clock r.time (response_to clock' time remote_request)))
  unfolding remote_main Mock.generate
  remote_main-reply_to c clock' time here handle e (h, v) =
      let source = remote_address.source in
      let reply = reply_to clock' time remote_request source in
      let id = next_request_id-IsBytes w clock r in
      let size = length-next_request_id w clock r in
      let valid = response_to-IsResponse clock' time remote_request (omega (arith, size)) in
      let back =
        reply_to-IsCarried clock' time remote_request source id client_prompt-IsAsked.source
          (omega (arith, size)) in
      let answered = subst (c.Holds here handle []) (sym (append-nil (to_frame reply))) v in
      remote_end_ok clock' (clock'.now time) _ _ (
        generate_answered w c clock remote_address r client_prompt remote_config here handle
          (response_to clock' time remote_request) (codes "llm.server") source [] e h answered
          (asked-IsCarried w clock r remote_address client_prompt remote_config
            client_prompt-IsAsked)
          back valid)
