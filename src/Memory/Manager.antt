-- ===== src/Memory/Manager.antt =====
-- memory/src/MemoryManager.cpp, ScratchBuffer.cpp and ScopedMemoryReservation.cpp. The addresses of
-- the vectors' storage come from the allocator, and are arguments of the constructor.
pub mod Agents
use galculus.Common.{ℕ, Bool, true, false, Option, none, some, List, [], if◌then◌else◌}
use galculus.Common.Dict.{Dict, lookup, insert}
use galculus.Core.Wire.{Bytes}
use galculus.Memory.Words.{MemoryBlock, MemoryStats}
use galculus.Memory.Arena.{MemoryArena}
use galculus.Memory.Pool.{FixedBlockPool}
use galculus.Memory.Budget.{AgentMemoryBudget, reserve, release}
use galculus.Memory.Arena
use galculus.Memory.Pool
use galculus.Memory.Budget

pub record MemoryManagerConfig : Type 0 where
  pub global_arena_size : ℕ
  pub scratch_arena_size : ℕ
  pub message_block_size : ℕ
  pub message_block_count : ℕ

pub record Storage : Type 0 where
  pub global_storage : ℕ
  pub scratch_storage : ℕ
  pub message_storage : ℕ

pub record MemoryManager : Type 0 where
  pub global_arena : MemoryArena
  pub scratch_arena : MemoryArena
  pub message_pool : FixedBlockPool
  pub agent_budgets : Dict AgentMemoryBudget

unfoldable pub new : Storage → MemoryManagerConfig → MemoryManager
new s config = record {
  global_arena = Arena.new s.global_storage config.global_arena_size;
  scratch_arena = Arena.new s.scratch_storage config.scratch_arena_size;
  message_pool = Pool.new s.message_storage config.message_block_size config.message_block_count;
  agent_budgets = [];
}

unfoldable pub allocate_global : MemoryManager → ℕ → ℕ → MemoryManager × MemoryBlock
allocate_global m size alignment =
    let (a, block) = Arena.allocate m.global_arena size alignment in
    (record m { global_arena = a }, block)

unfoldable pub allocate_scratch : MemoryManager → ℕ → ℕ → MemoryManager × MemoryBlock
allocate_scratch m size alignment =
    let (a, block) = Arena.allocate m.scratch_arena size alignment in
    (record m { scratch_arena = a }, block)

unfoldable pub reset_scratch : MemoryManager → MemoryManager
reset_scratch m = record m { scratch_arena = Arena.reset m.scratch_arena }

unfoldable pub allocate_message : MemoryManager → MemoryManager × MemoryBlock
allocate_message m =
    let (p, block) = Pool.allocate m.message_pool in (record m { message_pool = p }, block)

unfoldable pub free_message : MemoryManager → ℕ → MemoryManager × Bool
free_message m ptr =
    let (p, ok) = Pool.free_block m.message_pool ptr in (record m { message_pool = p }, ok)

unfoldable pub set_agent_budget : MemoryManager → Bytes → ℕ → MemoryManager
set_agent_budget m agent_id limit_bytes = record m {
  agent_budgets = insert agent_id (Budget.new agent_id limit_bytes) m.agent_budgets;
}

unfoldable pub reserve_in :
    MemoryManager → Bytes → Option AgentMemoryBudget → ℕ → MemoryManager × Bool
reserve_in m agent_id none bytes = (m, false)
reserve_in m agent_id (some b) bytes =
    let (b', ok) = reserve b bytes in
    (record m { agent_budgets = insert agent_id b' m.agent_budgets }, ok)

unfoldable pub reserve_agent_memory : MemoryManager → Bytes → ℕ → MemoryManager × Bool
reserve_agent_memory m agent_id bytes =
    reserve_in m agent_id (lookup agent_id m.agent_budgets) bytes

unfoldable pub release_in : MemoryManager → Bytes → Option AgentMemoryBudget → ℕ → MemoryManager
release_in m agent_id none bytes = m
release_in m agent_id (some b) bytes = record m {
  agent_budgets = insert agent_id (release b bytes) m.agent_budgets;
}

unfoldable pub release_agent_memory : MemoryManager → Bytes → ℕ → MemoryManager
release_agent_memory m agent_id bytes =
    release_in m agent_id (lookup agent_id m.agent_budgets) bytes

unfoldable pub agent_budget : MemoryManager → Bytes → Option AgentMemoryBudget
agent_budget m agent_id = lookup agent_id m.agent_budgets

-- A block of code under a `ScopedMemoryReservation`: the constructor, the code, which reads `ok()`,
-- and the destructor.
unfoldable pub scoped {ℓ} :
    {A : Type ℓ}
    → MemoryManager
    → Bytes
    → ℕ
    → (MemoryManager → Bool → MemoryManager × A)
    → MemoryManager × A
scoped m agent_id bytes body =
    let (reserved_m, reserved) = reserve_agent_memory m agent_id bytes in
    let (after, result) = body reserved_m reserved in
    ((if reserved then release_agent_memory after agent_id bytes else after), result)
