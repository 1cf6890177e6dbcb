-- ===== src/Scheduler.antt =====
-- scheduler/src/TokenScheduler.cpp and its headers: a token budget shared by the tasks.
pub mod Admission
pub mod Accounting
use galculus.Common.{
  ℕ, ◌+◌, ◌-◌, ◌%◌, ◌^◌, min, Bool, true, false, not, ◌&&◌, ltb, leb, codes, if◌then◌else◌,
}
use galculus.Core.Wire.{Bytes}

abbrev pub u32 : ℕ → ℕ
u32 n = n % 2 ^ 32

pub record TokenBudget : Type 0 where
  pub max_prompt_tokens : ℕ
  pub max_completion_tokens : ℕ
  pub remaining_tokens : ℕ

pub record ScheduledLlmTask : Type 0 where
  pub task_id : Bytes
  pub estimated_prompt_tokens : ℕ
  pub requested_completion_tokens : ℕ
  pub deadline_ms : ℕ
  pub priority : ℕ
  pub allow_truncation : Bool
  pub allow_fallback : Bool

pub data ScheduleDecisionType : Type 0 where
  allow : ScheduleDecisionType
  reduce_tokens : ScheduleDecisionType
  reject : ScheduleDecisionType
  use_fallback : ScheduleDecisionType

pub record ScheduleDecision : Type 0 where
  pub type : ScheduleDecisionType
  pub allowed_completion_tokens : ℕ
  pub reason : Bytes

-- `if (task.allow_fallback) return {UseFallback, 0, …}; return {Reject, 0, …};`
unfoldable pub refusal : ScheduledLlmTask → Bytes → ScheduleDecision
refusal task reason = record {
  type = if task.allow_fallback then use_fallback else reject;
  allowed_completion_tokens = 0;
  reason = reason;
}

-- The decision for a task whose whole completion fits in the remaining tokens.
unfoldable pub admission : ScheduledLlmTask → ℕ → ScheduleDecision
admission task requested_completion =
    if ltb requested_completion task.requested_completion_tokens
    then record {
      type = reduce_tokens;
      allowed_completion_tokens = requested_completion;
      reason = codes "completion tokens reduced to max completion budget";
    }
    else record {
      type = allow;
      allowed_completion_tokens = requested_completion;
      reason = codes "task allowed";
    }

unfoldable pub schedule : TokenBudget → ScheduledLlmTask → TokenBudget × ScheduleDecision
schedule b task =
    let requested_completion = min task.requested_completion_tokens b.max_completion_tokens in
    let total_requested = u32 (task.estimated_prompt_tokens + requested_completion) in
    let available_completion = b.remaining_tokens - task.estimated_prompt_tokens in
    if ltb b.max_prompt_tokens task.estimated_prompt_tokens
    then (b, refusal task (codes "prompt token estimate exceeds maximum prompt budget"))
    else if ltb b.max_completion_tokens task.requested_completion_tokens
        && not task.allow_truncation
    then (b, refusal task (codes "requested completion exceeds maximum completion budget"))
    else if leb total_requested b.remaining_tokens
    then (
      record b { remaining_tokens = b.remaining_tokens - total_requested },
      admission task requested_completion,
    )
    else if leb b.remaining_tokens task.estimated_prompt_tokens
    then (b, refusal task (codes "not enough remaining budget for prompt and completion"))
    else if task.allow_truncation && ltb 0 available_completion
    then (
      record b { remaining_tokens = 0 },
      record {
        type = reduce_tokens;
        allowed_completion_tokens = available_completion;
        reason = codes "completion tokens reduced due to remaining token budget";
      },
    )
    else (b, refusal task (codes "token budget too low and truncation disabled"))

unfoldable pub release : TokenBudget → ℕ → TokenBudget
release b used_tokens = record b {
  remaining_tokens =
      min (u32 (b.remaining_tokens + used_tokens))
        (u32 (b.max_prompt_tokens + b.max_completion_tokens));
}
