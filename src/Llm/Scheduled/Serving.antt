-- ===== src/Llm/Scheduled/Serving.antt =====
-- When the scheduled runtime asks the model, with how many tokens, and what the budget is afterwards.
use Prim.Native.String.{String}
use galculus.Common.{
  ℕ, ◌+◌, ◌-◌, ◌^◌, ◌≤◌, ◌<◌, ◌≡◌, refl, ap, ap₂, ◌∙◌, arith, Bool, true, false, ltb, if◌then◌else◌,
  inl, inr, ◌⊎◌, min, ◌%◌, ◌++◌, [], codes,
}
use galculus.Common.Exceptions.{Thrown, ok, throw}
use galculus.Scheduler.{TokenBudget, allow, reduce_tokens, ScheduleDecision, schedule, release}
use galculus.Scheduler.Admission.{Fits, grantable, Outcome, admitted, refused, schedule-Outcome}
use galculus.Llm.{LlmRuntime, Prompt, LlmResult, LlmStatus, blank_result, GenerationConfig}
use galculus.Llm.Scheduled.{
  estimate_prompt_tokens, to_task, fallback_result, used_tokens, released, served, act_on, generate,
}

-- The prompt's estimate and the largest completion stay below `2 ^ 32` together.
abbrev pub IsSmall : TokenBudget → Prompt → Type 0
IsSmall b prompt = estimate_prompt_tokens prompt + b.max_completion_tokens < 2 ^ 32

-- What stands in the budget after the call: a result gives back the tokens that it reports, up to
-- the two limits together, on 32 bits, and an exception gives nothing back.
abbrev pub remaining_after : TokenBudget → Thrown LlmResult → ℕ → ℕ
remaining_after b (throw why) charged = charged
remaining_after b (ok result) charged =
    min ((charged + (result.prompt_tokens + result.completion_tokens) % 2 ^ 32) % 2 ^ 32)
      ((b.max_prompt_tokens + b.max_completion_tokens) % 2 ^ 32)

-- The answer without a model: an alert.
abbrev pub fallback_answer : LlmResult
fallback_answer = record {
  status = LlmStatus.ok;
  text =
      codes "tool=send_alert\n"
      ++ codes "reason=LLM request used fallback because token budget was unavailable\n"
      ++ codes "confidence=0.50\n";
  prompt_tokens = 0;
  completion_tokens = 0;
  elapsed_ms = 0;
  error_message = [];
}

used_tokens_lem : (r : LlmResult) → used_tokens r ≡ (r.prompt_tokens + r.completion_tokens) % 2 ^ 32
unfolding used_tokens
used_tokens_lem r = ground arith

module _ (inner : LlmRuntime) (s : inner.State) (b : TokenBudget) (prompt : Prompt)
    (config : GenerationConfig) where
  -- The tokens the model may use, and the budget while it runs.
  abbrev pub granted_config : GenerationConfig
  granted_config = record config { max_tokens = grantable b (to_task prompt config) }

  abbrev pub charged : TokenBudget
  charged = record b {
    remaining_tokens =
        b.remaining_tokens - (estimate_prompt_tokens prompt + grantable b (to_task prompt config));
  }

  served_as :
      (r : ℕ) (d : ScheduleDecision) (c : Bool)
      → ltb d.allowed_completion_tokens config.max_tokens ≡ c
      → d.allowed_completion_tokens ≡ grantable b (to_task prompt config)
      → r + (estimate_prompt_tokens prompt + d.allowed_completion_tokens) ≡ b.remaining_tokens
      → d.type ≡ (if c then reduce_tokens else allow)
      → act_on inner s (record b { remaining_tokens = r }) prompt config d d.type
        ≡ served inner s charged prompt granted_config
  unfolding to_task act_on
  served_as r d true lt g e k = rw k (
      ap₂
        (λ (m n : ℕ).
          served inner s (record b { remaining_tokens = m }) prompt
            (record config { max_tokens = n }))
        (omega arith) g)
  served_as r d false lt g e k = rw k (
      ap₂
        (λ (m n : ℕ).
          served inner s (record b { remaining_tokens = m }) prompt
            (record config { max_tokens = n }))
        (omega arith) (ground arith))

  serve :
      (o : TokenBudget × ScheduleDecision)
      → Outcome b (to_task prompt config) o
      → Fits b (to_task prompt config)
      → act_on inner s o.0 prompt config o.1 o.1.type ≡ served inner s charged prompt granted_config
  unfolding to_task
  serve o (admitted r d f g e k) fits = served_as r d _ refl g e k
  serve o (refused d n z k) fits = absurd (n fits)

  fall_back :
      (o : TokenBudget × ScheduleDecision)
      → Outcome b (to_task prompt config) o
      → ¬ Fits b (to_task prompt config)
      → act_on inner s o.0 prompt config o.1 o.1.type ≡ ((s, b), ok fallback_result)
  unfolding to_task act_on
  fall_back o (admitted r d f g e k) n = absurd (n f)
  fall_back o (refused d n z k) _ = rw k refl

  -- A prompt that fits is sent on once, with the largest completion the budget allows, and the
  -- tokens the model reports go back to the charged budget, if the estimate and the largest
  -- completion do not wrap.
  generate_served :
      IsSmall b prompt
      → Fits b (to_task prompt config)
      → generate inner s b prompt config ≡ served inner s charged prompt granted_config
  unfolding generate to_task
  generate_served small fits =
      serve (schedule b (to_task prompt config)) (schedule-Outcome b (to_task prompt config) small)
        fits

  -- A prompt that does not fit never reaches the model: the budget stays, and the answer is the
  -- fallback, if the estimate does not wrap.
  generate_fallback :
      IsSmall b prompt
      → ¬ Fits b (to_task prompt config)
      → generate inner s b prompt config ≡ ((s, b), ok fallback_result)
  unfolding generate to_task
  generate_fallback small n =
      fall_back (schedule b (to_task prompt config))
        (schedule-Outcome b (to_task prompt config) small) n

  decide :
      (o : TokenBudget × ScheduleDecision)
      → Outcome b (to_task prompt config) o
      → Fits b (to_task prompt config) ⊎ (¬ Fits b (to_task prompt config))
  decide o (admitted r d f g e k) = inl f
  decide o (refused d n z k) = inr n

  released_lem :
      (o : inner.State × Thrown LlmResult) (t : TokenBudget)
      → released inner o t
        ≡ ((o.0, record t { remaining_tokens = remaining_after t o.1 t.remaining_tokens }), o.1)
  unfolding released release
  released_lem (after, throw why) t = refl
  released_lem (after, ok r) t = rw (used_tokens_lem r) refl

  -- A prompt that fits is sent on once, with the largest completion the budget allows: the answer
  -- and the state are the model's, and the charged budget gets back, on 32 bits and up to the two
  -- limits together, exactly the tokens that the result reports, and nothing after an exception;
  -- one that does not fit never reaches the model, leaves the budget, and gets an alert as the
  -- answer, if the estimate and the largest completion do not wrap.
  pub generate_cases :
      IsSmall b prompt
      → (Fits b (to_task prompt config)
          × (generate inner s b prompt config ≡ (
            (
              (inner.generate s prompt granted_config).0,
              record b {
                remaining_tokens = remaining_after b (inner.generate s prompt granted_config).1 (
                    b.remaining_tokens
                    - (estimate_prompt_tokens prompt + grantable b (to_task prompt config)));
              },
            ),
            (inner.generate s prompt granted_config).1,
          )))
        ⊎ ((¬ Fits b (to_task prompt config))
            × (generate inner s b prompt config ≡ ((s, b), ok fallback_answer)))
  unfolding to_task served fallback_result blank_result
  generate_cases small =
      elim (decide (schedule b (to_task prompt config))
        (schedule-Outcome b (to_task prompt config) small)) [
          | inl f ↦ inl (
            f,
            generate_served small f ∙ released_lem (inner.generate s prompt granted_config) charged,
          )
          | inr n ↦ inr (n, generate_fallback small n)
        ]

  released_ok :
      (o : inner.State × Thrown LlmResult) (result : LlmResult)
      → o.1 ≡ ok result
      → released inner o charged ≡ ((o.0, release charged (used_tokens result)), ok result)
  unfolding released
  released_ok (after, ok r) result e = ground arith
  released_ok (after, throw why) result e = cc

  released_throw :
      (o : inner.State × Thrown LlmResult) (why : String)
      → o.1 ≡ throw why
      → released inner o charged ≡ ((o.0, charged), throw why)
  unfolding released
  released_throw (after, ok r) why e = cc
  released_throw (after, throw other) why e = cc

  released-result :
      (o : inner.State × Thrown LlmResult) (t : TokenBudget)
      → ((released inner o t).0.0, (released inner o t).1) ≡ o
  unfolding released
  released-result (after, ok result) t = refl
  released-result (after, throw why) t = refl

  -- The answer to a prompt that fits is the inner model's, and so is the state.
  pub generate_served-result :
      IsSmall b prompt
      → Fits b (to_task prompt config)
      → ((generate inner s b prompt config).0.0, (generate inner s b prompt config).1)
        ≡ inner.generate s prompt granted_config
  unfolding served
  generate_served-result small fits =
      ap (λ (o : (inner.State × TokenBudget) × Thrown LlmResult). (o.0.0, o.1))
        (generate_served small fits)
      ∙ released-result (inner.generate s prompt granted_config) charged

  -- For a prompt that fits, of a charge the part that the model does not use stays out of the
  -- budget and the part that it uses returns, if nothing wraps and it uses no more than the
  -- charge.
  generate_leftover :
      (result : LlmResult)
      → IsSmall b prompt
      → Fits b (to_task prompt config)
      → b.max_prompt_tokens + b.max_completion_tokens < 2 ^ 32
      → b.remaining_tokens ≤ b.max_prompt_tokens + b.max_completion_tokens
      → (inner.generate s prompt granted_config).1 ≡ ok result
      → used_tokens result ≤ estimate_prompt_tokens prompt + grantable b (to_task prompt config)
      → (generate inner s b prompt config).0.1.remaining_tokens
          + (estimate_prompt_tokens prompt + grantable b (to_task prompt config))
        ≡ b.remaining_tokens + used_tokens result
  unfolding served release to_task
  generate_leftover result small fits cap within answered used =
      ap
        (λ (o : (inner.State × TokenBudget) × Thrown LlmResult).
          o.0.1.remaining_tokens
          + (estimate_prompt_tokens prompt + grantable b (to_task prompt config)))
        (generate_served small fits
          ∙ released_ok (inner.generate s prompt granted_config) result answered)
      ∙ elim fits.room [ inl r ↦ omega arith | inr r ↦ omega (arith, r.1) ]

  -- When the model throws on a prompt that fits, the exception passes through and the whole charge
  -- stays out of the budget, if the estimate and the largest completion do not wrap.
  pub generate_thrown :
      (why : String)
      → IsSmall b prompt
      → Fits b (to_task prompt config)
      → (inner.generate s prompt granted_config).1 ≡ throw why
      → ((generate inner s b prompt config).1 ≡ throw why)
        × ((generate inner s b prompt config).0.1.remaining_tokens
              + (estimate_prompt_tokens prompt + grantable b (to_task prompt config))
            ≡ b.remaining_tokens)
  unfolding served to_task
  generate_thrown why small fits thrown =
      let whole =
        generate_served small fits
        ∙ released_throw (inner.generate s prompt granted_config) why thrown in
      (
        ap (λ (o : (inner.State × TokenBudget) × Thrown LlmResult). o.1) whole,
        ap
              (λ (o : (inner.State × TokenBudget) × Thrown LlmResult).
                o.0.1.remaining_tokens
                + (estimate_prompt_tokens prompt + grantable b (to_task prompt config)))
              whole
            ∙ elim fits.room [ inl r ↦ omega arith | inr r ↦ omega (arith, r.1) ],
      )
