-- ===== src/Scheduler/Admission.antt =====
-- Which tasks the scheduler admits, with how many tokens, and what it charges for them.
use galculus.Common.{
  ℕ, ◌+◌, ◌-◌, ◌^◌, ◌≤◌, ◌<◌, ◌≡◌, refl, min, arith, true, false, not, ◌&&◌, ltb, leb,
  if◌then◌else◌, if_elim, ◌⊎◌, inl, inr,
}
use galculus.Scheduler.{
  u32, TokenBudget, ScheduledLlmTask, allow, reduce_tokens, reject, use_fallback, ScheduleDecision,
  refusal, admission, schedule,
}

-- The task fits in the budget, cut down if it may be.
pub record Fits (b : TokenBudget) (t : ScheduledLlmTask) : Type 0 where
  pub prompt : t.estimated_prompt_tokens ≤ b.max_prompt_tokens
  pub completion :
      t.allow_truncation ≡ false → t.requested_completion_tokens ≤ b.max_completion_tokens
  pub room :
      (t.estimated_prompt_tokens + min t.requested_completion_tokens b.max_completion_tokens
        ≤ b.remaining_tokens)
      ⊎ ((t.allow_truncation ≡ true) × (t.estimated_prompt_tokens < b.remaining_tokens))

-- The largest completion that the request, the limit and the remaining tokens allow.
abbrev pub grantable : TokenBudget → ScheduledLlmTask → ℕ
grantable b t =
    min (min t.requested_completion_tokens b.max_completion_tokens)
      (b.remaining_tokens - t.estimated_prompt_tokens)

pub data Outcome (b : TokenBudget) (t : ScheduledLlmTask)
    : TokenBudget × ScheduleDecision → Type 0 where
  admitted :
      (r : ℕ) (d : ScheduleDecision)
      → Fits b t
      → d.allowed_completion_tokens ≡ grantable b t
      → r + (t.estimated_prompt_tokens + d.allowed_completion_tokens) ≡ b.remaining_tokens
      → d.type ≡ (
          if ltb d.allowed_completion_tokens t.requested_completion_tokens
          then reduce_tokens
          else allow)
      → Outcome b t (record b { remaining_tokens = r }, d)
  refused :
      (d : ScheduleDecision)
      → ¬ Fits b t
      → d.allowed_completion_tokens ≡ 0
      → d.type ≡ (if t.allow_fallback then use_fallback else reject)
      → Outcome b t (b, d)

pub admission_tokens :
    (t : ScheduledLlmTask) (n : ℕ) → (admission t n).allowed_completion_tokens ≡ n
unfolding admission
admission_tokens t n =
    if_elim (λ (d : ScheduleDecision). d.allowed_completion_tokens ≡ n)
      (ltb n t.requested_completion_tokens) (λ _. refl) (λ _. refl)

admission_type :
    (t : ScheduledLlmTask) (n : ℕ)
    → (admission t n).type ≡ (
        if ltb (admission t n).allowed_completion_tokens t.requested_completion_tokens
        then reduce_tokens
        else allow)
unfolding admission
admission_type t n =
    if_elim
      (λ (d : ScheduleDecision). d.type ≡ (
        if ltb d.allowed_completion_tokens t.requested_completion_tokens
        then reduce_tokens
        else allow))
      (ltb n t.requested_completion_tokens) (λ e. ground arith) (λ e. ground arith)

-- A task whose estimate and the largest completion do not wrap is admitted exactly when it fits,
-- with the largest completion there is room for and charged for just that, or refused at no
-- charge.
pub schedule-Outcome :
    (b : TokenBudget) (t : ScheduledLlmTask)
    → t.estimated_prompt_tokens + b.max_completion_tokens < 2 ^ 32
    → Outcome b t (schedule b t)
unfolding schedule refusal
schedule-Outcome b t small =
    let want = min t.requested_completion_tokens b.max_completion_tokens in
    let total = u32 (t.estimated_prompt_tokens + want) in
    if_elim (Outcome b t) (ltb b.max_prompt_tokens t.estimated_prompt_tokens)
      (λ e. refused _ (λ f. ground (arith, f.prompt)) refl refl)
      (λ e1.
        if_elim (Outcome b t)
          (ltb b.max_completion_tokens t.requested_completion_tokens && not t.allow_truncation)
          (λ e. refused _ (λ f. ground (arith, f.completion)) refl refl)
          (λ e2.
            if_elim (Outcome b t) (leb total b.remaining_tokens)
              (λ e.
                admitted _ _
                  (record {
                    prompt = ground arith;
                    completion = λ no. ground arith;
                    room = inl (ground arith);
                  })
                  (ground (arith, admission_tokens t want))
                  (ground (arith, admission_tokens t want)) (admission_type t want))
              (λ e3.
                if_elim (Outcome b t) (leb b.remaining_tokens t.estimated_prompt_tokens)
                  (λ e.
                    refused _
                      (λ f. elim f.room [ inl r ↦ ground arith | inr r ↦ ground (arith, r.1) ]) refl
                      refl)
                  (λ e4.
                    if_elim (Outcome b t)
                      (t.allow_truncation && ltb 0 (b.remaining_tokens - t.estimated_prompt_tokens))
                      (λ e.
                        admitted 0 _
                          (record {
                            prompt = ground arith;
                            completion = λ no. ground arith;
                            room = inr (ground arith, ground arith);
                          })
                          (ground arith) (ground arith) (ground arith))
                      (λ e.
                        refused _
                          (λ f. elim f.room [
                            | inl r ↦ ground arith
                            | inr r ↦ ground (arith, r.0, r.1)
                          ])
                          refl refl)))))
