-- ===== src/Memory/Budget.antt =====
-- memory/src/AgentMemoryBudget.cpp: what one agent may hold.
pub mod Account
use galculus.Common.{ℕ, ◌+◌, ◌-◌, ◌^◌, ◌≤◌, ◌<◌, max, Bool, true, false, not, leb, if◌then◌else◌}
use galculus.Core.Wire.{Bytes}
use galculus.Memory.Words.{u64, sub64, MemoryStats}

pub record AgentMemoryBudget : Type 0 where
  pub agent_id : Bytes
  pub limit_bytes : ℕ
  pub used_bytes : ℕ
  pub peak_used_bytes : ℕ

unfoldable pub new : Bytes → ℕ → AgentMemoryBudget
new agent_id limit_bytes = record {
  agent_id = agent_id;
  limit_bytes = limit_bytes;
  used_bytes = 0;
  peak_used_bytes = 0;
}

unfoldable pub can_reserve : AgentMemoryBudget → ℕ → Bool
can_reserve b bytes = leb (u64 (b.used_bytes + bytes)) b.limit_bytes

unfoldable pub reserve : AgentMemoryBudget → ℕ → AgentMemoryBudget × Bool
reserve b bytes =
    let used = u64 (b.used_bytes + bytes) in
    if not (can_reserve b bytes)
    then (b, false)
    else (record b { used_bytes = used; peak_used_bytes = max b.peak_used_bytes used }, true)

unfoldable pub release : AgentMemoryBudget → ℕ → AgentMemoryBudget
release b bytes =
    if leb b.used_bytes bytes
    then record b { used_bytes = 0 }
    else record b { used_bytes = b.used_bytes - bytes }

unfoldable pub stats : AgentMemoryBudget → MemoryStats
stats b = record {
  capacity = b.limit_bytes;
  used = b.used_bytes;
  free = sub64 b.limit_bytes b.used_bytes;
  peak_used = b.peak_used_bytes;
}

pub record IsValid (b : AgentMemoryBudget) : Type 0 where
  pub peak : b.used_bytes ≤ b.peak_used_bytes
  pub limited : b.peak_used_bytes ≤ b.limit_bytes
  pub word : b.limit_bytes < 2 ^ 64
