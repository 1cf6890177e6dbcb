-- ===== src/Memory/Manager/Agents.antt =====
-- The budgets in the manager: agents do not touch each other's, and a scope gives back what it took.
use galculus.Common.{
  ℕ, ◌+◌, ◌^◌, ◌<◌, ◌≡◌, ◌≢◌, refl, sym, ap, ◌∙◌, Bool, true, false, not, Option, none, some,
  if◌then◌else◌, if_elim,
}
use galculus.Common.Dict.{lookup, lookup-insert_self, lookup-insert_ne}
use galculus.Core.Wire.{Bytes}
use galculus.Memory.Budget.{AgentMemoryBudget, can_reserve, reserve, release}
use galculus.Memory.Budget.Account.{release-reserve}
use galculus.Memory.Manager.{
  MemoryManager, reserve_in, reserve_agent_memory, release_in, release_agent_memory, agent_budget,
  scoped,
}

reserve_in_other :
    (m : MemoryManager) (k j : Bytes) (o : Option AgentMemoryBudget) (bytes : ℕ)
    → k ≢ j
    → agent_budget (reserve_in m k o bytes).0 j ≡ agent_budget m j
unfolding reserve_in agent_budget
reserve_in_other m k j none bytes n = refl
reserve_in_other m k j (some b) bytes n = lookup-insert_ne k j (reserve b bytes).0 m.agent_budgets n

release_in_other :
    (m : MemoryManager) (k j : Bytes) (o : Option AgentMemoryBudget) (bytes : ℕ)
    → k ≢ j
    → agent_budget (release_in m k o bytes) j ≡ agent_budget m j
unfolding release_in agent_budget
release_in_other m k j none bytes n = refl
release_in_other m k j (some b) bytes n = lookup-insert_ne k j (release b bytes) m.agent_budgets n

-- An agent's reservations and releases leave the budgets of the other agents as they were.
reserve_agent_memory-agent_budget :
    (m : MemoryManager) (k j : Bytes) (bytes : ℕ)
    → k ≢ j
    → (agent_budget (reserve_agent_memory m k bytes).0 j ≡ agent_budget m j)
      × (agent_budget (release_agent_memory m k bytes) j ≡ agent_budget m j)
unfolding reserve_agent_memory release_agent_memory
reserve_agent_memory-agent_budget m k j bytes n = (
  reserve_in_other m k j (lookup k m.agent_budgets) bytes n,
  release_in_other m k j (lookup k m.agent_budgets) bytes n,
)

reserve_agent_memory_known :
    (m : MemoryManager) (k : Bytes) (b : AgentMemoryBudget) (bytes : ℕ)
    → agent_budget m k ≡ some b
    → (agent_budget (reserve_agent_memory m k bytes).0 k ≡ some (reserve b bytes).0)
      × ((reserve_agent_memory m k bytes).1 ≡ (reserve b bytes).1)
unfolding reserve_agent_memory agent_budget reserve_in
reserve_agent_memory_known m k b bytes e =
    rw e (lookup-insert_self k (reserve b bytes).0 m.agent_budgets, refl)

release_agent_memory_known :
    (m : MemoryManager) (k : Bytes) (b : AgentMemoryBudget) (bytes : ℕ)
    → agent_budget m k ≡ some b
    → agent_budget (release_agent_memory m k bytes) k ≡ some (release b bytes)
unfolding release_agent_memory agent_budget release_in
release_agent_memory_known m k b bytes e =
    rw e (lookup-insert_self k (release b bytes) m.agent_budgets)

refused_same :
    (b : AgentMemoryBudget) (bytes : ℕ) → (reserve b bytes).1 ≡ false → (reserve b bytes).0 ≡ b
unfolding reserve
refused_same b bytes =
    if_elim (λ (o : AgentMemoryBudget × Bool). o.1 ≡ false → o.0 ≡ b) (not (can_reserve b bytes))
      (λ _ _. refl) (λ _ e. cc)

close_scope :
    (after : MemoryManager) (k : Bytes) (b : AgentMemoryBudget) (bytes : ℕ) (flag : Bool)
    → b.used_bytes + bytes < 2 ^ 64
    → agent_budget after k ≡ some (reserve b bytes).0
    → (reserve b bytes).1 ≡ flag
    → (c : AgentMemoryBudget) × (agent_budget
          (if flag then release_agent_memory after k bytes else after)
          k
        ≡ some c)
      × (c.used_bytes ≡ b.used_bytes)
      × (c.limit_bytes ≡ b.limit_bytes)
close_scope after k b bytes true fits e ok =
    let same = release-reserve b bytes fits ok in
    (
      release (reserve b bytes).0 bytes,
      release_agent_memory_known after k (reserve b bytes).0 bytes e,
      ap (λ (c : AgentMemoryBudget). c.used_bytes) same,
      ap (λ (c : AgentMemoryBudget). c.limit_bytes) same,
    )
close_scope after k b bytes false fits e refused =
    let same = refused_same b bytes refused in
    (
      (reserve b bytes).0,
      e,
      ap (λ (c : AgentMemoryBudget). c.used_bytes) same,
      ap (λ (c : AgentMemoryBudget). c.limit_bytes) same,
    )

-- For an agent with a budget, a scope whose code leaves that budget alone leaves its bytes in use
-- and its limit as they were, whether the reservation, which does not wrap, is granted or refused.
pub scoped-agent_budget {ℓ} :
    {A : Type ℓ} (m : MemoryManager) (k : Bytes) (b : AgentMemoryBudget) (bytes : ℕ)
    (body : MemoryManager → Bool → MemoryManager × A)
    → agent_budget m k ≡ some b
    → b.used_bytes + bytes < 2 ^ 64
    → ((m' : MemoryManager) (ok : Bool) → agent_budget (body m' ok).0 k ≡ agent_budget m' k)
    → (c : AgentMemoryBudget) × (agent_budget (scoped m k bytes body).0 k ≡ some c)
      × (c.used_bytes ≡ b.used_bytes)
      × (c.limit_bytes ≡ b.limit_bytes)
unfolding scoped
scoped-agent_budget m k b bytes body e fits keeps =
    let (opened, flag) = reserve_agent_memory_known m k b bytes e in
    let m' = (reserve_agent_memory m k bytes).0 in
    let ok = (reserve_agent_memory m k bytes).1 in
    close_scope (body m' ok).0 k b bytes ok fits (keeps m' ok ∙ opened) (sym flag)
