-- ===== src/Scheduler/Accounting.antt =====
-- The books of the scheduler over many calls: what is taken, what comes back, and the sum that wraps.
use galculus.Common.{
  ℕ, ◌+◌, ◌-◌, ◌^◌, ◌≤◌, ◌<◌, ◌≡◌, refl, sym, min, ap, ap₂, ◌∙◌, arith, Bool, true, false, not,
  ◌&&◌, ltb, leb, if◌then◌else◌, if_elim, List, [], ◌∷◌, All,
}
use mathlib.Core.Path.{subst}
use galculus.Scheduler.{
  u32, TokenBudget, ScheduledLlmTask, allow, reduce_tokens, reject, use_fallback, ScheduleDecision,
  admission, schedule, release,
}
use galculus.Scheduler.Admission.{Outcome, admitted, refused, schedule-Outcome}

-- The tokens of a decision: the prompt's and the completion's, or none.
unfoldable pub charge : ScheduledLlmTask → ScheduleDecision → ℕ
charge t d = elim d.type [
  | allow ↦ t.estimated_prompt_tokens + d.allowed_completion_tokens
  | reduce_tokens ↦ t.estimated_prompt_tokens + d.allowed_completion_tokens
  | reject ↦ 0
  | use_fallback ↦ 0
]

charge_granted :
    (t : ScheduledLlmTask) (d : ScheduleDecision) (c : Bool)
    → d.type ≡ (if c then reduce_tokens else allow)
    → charge t d ≡ t.estimated_prompt_tokens + d.allowed_completion_tokens
unfolding charge
charge_granted t d true e = rw e refl
charge_granted t d false e = rw e refl

charge_refused :
    (t : ScheduledLlmTask) (d : ScheduleDecision) (c : Bool)
    → d.type ≡ (if c then use_fallback else reject)
    → charge t d ≡ 0
unfolding charge
charge_refused t d true e = rw e refl
charge_refused t d false e = rw e refl

-- What one call does to the budget, by its charge.
record Books (b : TokenBudget) (t : ScheduledLlmTask) (o : TokenBudget × ScheduleDecision)
    : Type 0 where
  balance : charge t o.1 + o.0.remaining_tokens ≡ b.remaining_tokens
  same_limits : o.0 ≡ record b { remaining_tokens = o.0.remaining_tokens }

Outcome-Books :
    (b : TokenBudget) (t : ScheduledLlmTask) (o : TokenBudget × ScheduleDecision)
    → Outcome b t o
    → Books b t o
Outcome-Books b t o (admitted r d f g e k) = record {
  balance = omega (arith, e, charge_granted t d _ k);
  same_limits = refl;
}
Outcome-Books b t o (refused d n z k) = record {
  balance = omega (arith, charge_refused t d _ k);
  same_limits = refl;
}

unfoldable pub schedule_all : TokenBudget → List ScheduledLlmTask → TokenBudget × ℕ
schedule_all b [] = (b, 0)
schedule_all b (t ∷ ts) =
    let (b1, d) = schedule b t in let (b2, spent) = schedule_all b1 ts in (b2, charge t d + spent)

-- Over any sequence of tasks that do not wrap, the charges and the tokens that remain add up to
-- the tokens at the start.
pub schedule_all_balance :
    (b : TokenBudget) (ts : List ScheduledLlmTask)
    → All
        (λ (t : ScheduledLlmTask). t.estimated_prompt_tokens + b.max_completion_tokens < 2 ^ 32)
        ts
    → (schedule_all b ts).1 + (schedule_all b ts).0.remaining_tokens ≡ b.remaining_tokens
unfolding schedule_all
schedule_all_balance b [] small = omega arith
schedule_all_balance b (t ∷ ts) small =
    let books = Outcome-Books b t (schedule b t) (schedule-Outcome b t small.0) in
    let limit = ap (λ (c : TokenBudget). c.max_completion_tokens) books.same_limits in
    let rest = schedule_all_balance (schedule b t).0 ts (
      subst (λ (n : ℕ). All (λ (u : ScheduledLlmTask). u.estimated_prompt_tokens + n < 2 ^ 32) ts)
        (sym limit) small.1) in
    omega (arith, rest, books.balance)

release_charge :
    (b : TokenBudget) (n r : ℕ)
    → b.max_prompt_tokens + b.max_completion_tokens < 2 ^ 32
    → b.remaining_tokens ≤ b.max_prompt_tokens + b.max_completion_tokens
    → n + r ≡ b.remaining_tokens
    → release (record b { remaining_tokens = r }) n ≡ b
unfolding release
release_charge b n r cap within e = ap (λ (m : ℕ). record b { remaining_tokens = m }) (omega arith)

-- Releasing the whole charge of a decision takes the budget back to where it was, if nothing wraps
-- and no more tokens remained than the two limits allow.
release-schedule :
    (b : TokenBudget) (t : ScheduledLlmTask)
    → t.estimated_prompt_tokens + b.max_completion_tokens < 2 ^ 32
    → b.max_prompt_tokens + b.max_completion_tokens < 2 ^ 32
    → b.remaining_tokens ≤ b.max_prompt_tokens + b.max_completion_tokens
    → release (schedule b t).0 (charge t (schedule b t).1) ≡ b
release-schedule b t small cap within =
    let books = Outcome-Books b t (schedule b t) (schedule-Outcome b t small) in
    ap (λ (c : TokenBudget). release c (charge t (schedule b t).1)) books.same_limits
    ∙ release_charge b (charge t (schedule b t).1) (schedule b t).0.remaining_tokens cap within
        books.balance

-- A task of 2 ^ 32 tokens or more within the two limits is allowed its whole completion and
-- charged 2 ^ 32 tokens less, if that charge remains.
pub schedule_wraps :
    (b : TokenBudget) (t : ScheduledLlmTask) (extra : ℕ)
    → t.estimated_prompt_tokens ≤ b.max_prompt_tokens
    → t.requested_completion_tokens ≤ b.max_completion_tokens
    → t.estimated_prompt_tokens + t.requested_completion_tokens ≡ 2 ^ 32 + extra
    → extra < 2 ^ 32
    → extra ≤ b.remaining_tokens
    → schedule b t ≡ (
      record b { remaining_tokens = b.remaining_tokens - extra },
      admission t t.requested_completion_tokens,
    )
unfolding schedule
schedule_wraps b t extra h1 h2 h3 h4 h5 =
    let want = min t.requested_completion_tokens b.max_completion_tokens in
    let total = u32 (t.estimated_prompt_tokens + want) in
    let Goal : TokenBudget × ScheduleDecision → Type 0 = λ o. o ≡ (
      record b { remaining_tokens = b.remaining_tokens - extra },
      admission t t.requested_completion_tokens,
    ) in
    if_elim Goal (ltb b.max_prompt_tokens t.estimated_prompt_tokens) (λ e. absurd (ground arith))
      (λ _.
        if_elim Goal
          (ltb b.max_completion_tokens t.requested_completion_tokens && not t.allow_truncation)
          (λ e. absurd (ground arith))
          (λ _.
            if_elim Goal (leb total b.remaining_tokens)
              (λ _.
                ap₂
                  (λ (m n : ℕ).
                    (record b { remaining_tokens = b.remaining_tokens - m }, admission t n))
                  (omega arith) (omega arith))
              (λ e. absurd (ground arith))))
