-- ===== src/Memory/Budget/Account.antt =====
-- The account of one budget: its bounds, and what a reservation and its release do to it.
use galculus.Common.{
  ℕ, ◌+◌, ◌-◌, ◌^◌, ◌≤◌, ◌<◌, ◌≡◌, ap, ap₂, ◌∙◌, arith, max, Bool, true, not, leb, if_elim, List,
  [], ◌∷◌,
}
use galculus.Memory.Words.{u64}
use galculus.Memory.Budget.{AgentMemoryBudget, can_reserve, reserve, release, IsValid}

pub reserve-IsValid : (b : AgentMemoryBudget) (bytes : ℕ) → IsValid b → IsValid (reserve b bytes).0
unfolding reserve can_reserve
reserve-IsValid b bytes v =
    if_elim (λ (o : AgentMemoryBudget × Bool). IsValid o.0) (not (can_reserve b bytes)) (λ _. v)
      (λ e. record { peak = omega arith; limited = ground (arith, v.limited); word = v.word })

pub release-IsValid : (b : AgentMemoryBudget) (bytes : ℕ) → IsValid b → IsValid (release b bytes)
unfolding release
release-IsValid b bytes v =
    if_elim IsValid (leb b.used_bytes bytes)
      (λ _. record { peak = omega arith; limited = v.limited; word = v.word })
      (λ _. record { peak = omega (arith, v.peak); limited = v.limited; word = v.word })

-- A request that does not wrap is granted exactly when it fits in what the limit leaves.
reserve_iff :
    (b : AgentMemoryBudget) (bytes : ℕ)
    → b.used_bytes + bytes < 2 ^ 64
    → ((reserve b bytes).1 ≡ true → b.used_bytes + bytes ≤ b.limit_bytes)
      × (b.used_bytes + bytes ≤ b.limit_bytes → (reserve b bytes).1 ≡ true)
unfolding reserve can_reserve
reserve_iff b bytes fits = (λ e. ground arith, λ le. ground arith)

release_back :
    (b : AgentMemoryBudget) (used : ℕ) (bytes peak : ℕ)
    → b.used_bytes + bytes ≡ used
    → release (record b { used_bytes = used; peak_used_bytes = peak }) bytes
      ≡ record b { peak_used_bytes = peak }
unfolding release
release_back b used bytes peak e =
    if_elim (λ o. o ≡ record b { peak_used_bytes = peak }) (leb used bytes)
      (λ h. ap (λ (n : ℕ). record b { used_bytes = n; peak_used_bytes = peak }) (ground arith))
      (λ h. ap (λ (n : ℕ). record b { used_bytes = n; peak_used_bytes = peak }) (omega arith))

-- Releasing what was just reserved, by a granted request that does not wrap, gives the account
-- back, but for its peak.
pub release-reserve :
    (b : AgentMemoryBudget) (bytes : ℕ)
    → b.used_bytes + bytes < 2 ^ 64
    → (reserve b bytes).1 ≡ true
    → release (reserve b bytes).0 bytes
      ≡ record b { peak_used_bytes = max b.peak_used_bytes (b.used_bytes + bytes) }
unfolding reserve
release-reserve b bytes fits =
    if_elim
      (λ (o : AgentMemoryBudget × Bool).
        o.1 ≡ true
        → release o.0 bytes
          ≡ record b { peak_used_bytes = max b.peak_used_bytes (b.used_bytes + bytes) })
      (not (can_reserve b bytes)) (λ _ e. cc)
      (λ _ e.
        release_back b (u64 (b.used_bytes + bytes)) bytes _ (omega arith)
        ∙ ap (λ (n : ℕ). record b { peak_used_bytes = max b.peak_used_bytes n }) (omega arith))

-- A valid budget grants a request of 2 ^ 64 - k bytes, k positive and at most the bytes in use,
-- and lowers them by k.
reserve_huge :
    (b : AgentMemoryBudget) (k : ℕ)
    → IsValid b
    → 0 < k
    → k ≤ b.used_bytes
    → reserve b (2 ^ 64 - k) ≡ (record b { used_bytes = b.used_bytes - k }, true)
unfolding reserve can_reserve
reserve_huge b k v p q =
    let wrapped : u64 (b.used_bytes + (2 ^ 64 - k)) ≡ b.used_bytes - k =
      omega (arith, v.peak, v.limited, v.word) in
    if_elim
      (λ (o : AgentMemoryBudget × Bool). o ≡ (record b { used_bytes = b.used_bytes - k }, true))
      (not (can_reserve b (2 ^ 64 - k))) (λ no. absurd (ground (arith, wrapped, v.peak, v.limited)))
      (λ _.
        ap₂ (λ (m n : ℕ). (record b { used_bytes = m; peak_used_bytes = n }, true)) wrapped
          (omega (arith, wrapped, v.peak)))

-- A client's calls.
pub data Call : Type 0 where
  reserves : ℕ → Call
  releases : ℕ → Call

unfoldable pub step : AgentMemoryBudget → Call → AgentMemoryBudget
step b (reserves bytes) = (reserve b bytes).0
step b (releases bytes) = release b bytes

unfoldable pub run : AgentMemoryBudget → List Call → AgentMemoryBudget
run b [] = b
run b (c ∷ cs) = run (step b c) cs

-- Whatever is asked of a valid budget, the bytes in use stay within the peak, and the peak within
-- the limit.
pub run_account-IsValid :
    (b : AgentMemoryBudget) (calls : List Call) → IsValid b → IsValid (run b calls)
unfolding run step
run_account-IsValid b [] v = v
run_account-IsValid b (reserves bytes ∷ cs) v =
    run_account-IsValid (reserve b bytes).0 cs (reserve-IsValid b bytes v)
run_account-IsValid b (releases bytes ∷ cs) v =
    run_account-IsValid (release b bytes) cs (release-IsValid b bytes v)
