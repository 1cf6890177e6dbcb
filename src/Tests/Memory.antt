-- ===== src/Tests/Memory.antt =====
-- Small arenas, pools and budgets for memory/.
use galculus.Common.{
  ◌+◌, ◌-◌, ◌^◌, ◌<◌, ◌≡◌, ◌≢◌, refl, ap, arith, max, Bool, true, false, ◌==ᵇ◌, some, [], ◌∷◌,
  codes, get_or,
}
use galculus.Common.Dict.{lookup}
use mathlib.Core.Path.{subst}
use galculus.Core.Wire.{Bytes}
use galculus.Memory.Arena.{MemoryArena, IsValid, allocate}
use galculus.Memory.Arena.Blocks.{
  Request, IsModest, Outcome, Apart, allocate-Outcome, allocate_all, allocate_all-Apart,
}
use galculus.Memory.Arena.Wrap.{allocate_huge}
use galculus.Memory.Pool
use galculus.Memory.Pool.Invariant
use galculus.Memory.Pool.Blocks.{free_block-allocate}
use galculus.Memory.Budget
use galculus.Memory.Budget.Account.{reserves, releases, run, run_account-IsValid}
use galculus.Memory.Manager.{MemoryManager, agent_budget, scoped, reset_scratch}
use galculus.Memory.Manager.Agents.{scoped-agent_budget}

-- 64 bytes at address 1001, 3 of them in use.
abbrev arena : MemoryArena
arena = record { buffer = 1001; capacity = 64; offset = 3; peak_used = 5 }

arena-IsValid : IsValid arena
arena-IsValid = record {
  within = omega arith;
  peak_within = omega arith;
  addressable = omega arith;
}

abbrev request : Request
request = record { size = 10; alignment = 8 }

request-IsModest : IsModest 1001 64 request
request-IsModest = record { address = omega arith; total = omega arith }

allocate-Outcome_example : Outcome arena request (allocate arena 10 8)
allocate-Outcome_example = allocate-Outcome arena request arena-IsValid request-IsModest

allocate_all-Apart_example :
    Apart (1001 + 3) (1001 + 64) (allocate_all arena (request ∷ request ∷ []))
allocate_all-Apart_example =
    allocate_all-Apart arena (request ∷ request ∷ []) arena-IsValid
      (request-IsModest, (request-IsModest, tt))

allocate_huge_example :
    allocate arena (2 ^ 64 - 2) 1
    ≡ (record arena { offset = 3 - 2 }, record { ptr = 1001 + 3; size = 2 ^ 64 - 2 })
allocate_huge_example =
    allocate_huge arena 2 arena-IsValid (omega arith) (omega arith) (omega arith)

run_pool-IsValid_example :
    Invariant.IsValid
      (Invariant.run (Pool.new 4096 16 2) (Invariant.allocates ∷ Invariant.frees 4096 ∷ []))
run_pool-IsValid_example =
    Invariant.run_pool-IsValid 4096 16 2 (Invariant.allocates ∷ Invariant.frees 4096 ∷ [])
      (omega arith) (omega arith) (omega arith)

abbrev pool : Pool.FixedBlockPool
pool = record {
  block_size = 16;
  block_count = 2;
  storage = 4096;
  storage_size = 32;
  free_indices = 1 ∷ [];
  allocated = true ∷ false ∷ [];
  used_blocks = 1;
  peak_used_blocks = 1;
}

pool_reached : Invariant.run (Pool.new 4096 16 2) (Invariant.allocates ∷ []) ≡ pool
unfolding Invariant.run Invariant.step Pool.new Pool.push_indices Pool.allocate Pool.pop_block
    Pool.taken
pool_reached = refl

pool-IsValid : Invariant.IsValid pool
pool-IsValid = subst Invariant.IsValid pool_reached (
    Invariant.run_pool-IsValid 4096 16 2 (Invariant.allocates ∷ []) (omega arith) (omega arith)
      (omega arith))

pool_gives : 0 < (Pool.allocate pool).1.size
unfolding Pool.allocate Pool.pop_block Pool.block_at
pool_gives = omega arith

free_block-allocate_example :
    Pool.free_block (Pool.allocate pool).0 (Pool.allocate pool).1.ptr
    ≡ (record pool { peak_used_blocks = max 1 (1 + 1) }, true)
free_block-allocate_example = free_block-allocate pool pool-IsValid pool_gives

pool_frees : (Pool.free_block pool 4096).1 ≡ true
unfolding Pool.free_block Pool.owns_pointer
pool_frees = refl

abbrev budget : Budget.AgentMemoryBudget
budget = record { agent_id = codes "a"; limit_bytes = 100; used_bytes = 40; peak_used_bytes = 60 }

budget-IsValid : Budget.IsValid budget
budget-IsValid = record { peak = omega arith; limited = omega arith; word = omega arith }

budget_grants : (Budget.reserve budget 60).1 ≡ true
unfolding Budget.reserve Budget.can_reserve
budget_grants = refl

run_account-IsValid_example :
    Budget.IsValid (run budget (reserves 70 ∷ releases 1 ∷ reserves 61 ∷ []))
run_account-IsValid_example =
    run_account-IsValid budget (reserves 70 ∷ releases 1 ∷ reserves 61 ∷ []) budget-IsValid

abbrev pub rich : Budget.AgentMemoryBudget
rich = record budget { agent_id = codes "b"; limit_bytes = 5000 }

abbrev pub manager : MemoryManager
manager = record {
  global_arena = arena;
  scratch_arena = arena;
  message_pool = pool;
  agent_budgets = (codes "a", budget) ∷ (codes "b", rich) ∷ [];
}

a_not_b : codes "a" ≢ codes "b"
a_not_b e = omega (arith, ap (λ (xs : Bytes). get_or xs 0 0) e)

pub manager_knows_rich : agent_budget manager (codes "b") ≡ some rich
unfolding agent_budget lookup ◌==ᵇ◌
manager_knows_rich = refl

manager_knows : agent_budget manager (codes "a") ≡ some budget
unfolding agent_budget lookup ◌==ᵇ◌
manager_knows = refl

keeps_budgets :
    (m : MemoryManager) (granted : Bool)
    → agent_budget (reset_scratch m) (codes "a") ≡ agent_budget m (codes "a")
unfolding agent_budget reset_scratch
keeps_budgets m granted = refl

scoped-agent_budget_example :
    (c : Budget.AgentMemoryBudget) × (agent_budget
        (scoped manager (codes "a") 60 (λ m granted. (reset_scratch m, granted))).0
        (codes "a")
      ≡ some c)
    × (c.used_bytes ≡ 40)
    × (c.limit_bytes ≡ 100)
scoped-agent_budget_example =
    scoped-agent_budget manager (codes "a") budget 60 (λ m granted. (reset_scratch m, granted))
      manager_knows (omega arith) keeps_budgets
