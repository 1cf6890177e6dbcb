-- ===== src/Core/Runtime/Registry.antt =====
-- Registration, on every branch, and the life cycle of the agents.
use galculus.Common.{
  ◌≡◌, ◌≢◌, ◌↔◌, ◌⊎◌, refl, ap, ◌∙◌, arith, true, false, none, some, [], if◌then◌else◌, ◌==ᵇ◌,
  ==ᵇ_iff, ==ᵇ_ne, Bool-cases, Option-cases, inl, inr,
}
use galculus.Common.Dict.{
  lookup, insert, lookup-insert_self, lookup-erase_self, lookup-erase_ne, erase-insert,
}
use galculus.Core.Wire.{Bytes}
use galculus.Core.Message.{ErrorCode, Result, success}
use galculus.Core.Transport.{Transport}
use galculus.Core.Runtime.{
  AgentClass, AgentRuntime, register_agent, unregister_agent, each, start, stop, has_agent,
}
use galculus.Core.Runtime.Agents.{IsValid}

module _ (t : Transport) (c : AgentClass) (r : AgentRuntime t c) (agent : c.Agent) where
  abbrev pub registered : AgentRuntime t c
  registered = record r { agents = insert (c.name agent) agent r.agents }

  -- An agent is registered exactly when its name is not empty and not taken, as one new entry;
  -- otherwise the runtime stays as it was and the error says which rule was broken.
  pub register_agent_cases :
      ((register_agent t c r (some agent) ≡ (registered, success))
        × (c.name agent ≢ [])
        × (lookup (c.name agent) r.agents ≡ none))
      ⊎ (((register_agent t c r (some agent)).0 ≡ r)
          × ((register_agent t c r (some agent)).1.ok ≡ false)
          × ((((register_agent t c r (some agent)).1.code ≡ ErrorCode.invalid_argument)
                × (c.name agent ≡ []))
              ⊎ (((register_agent t c r (some agent)).1.code ≡ ErrorCode.agent_already_exists)
                  × (has_agent t c r (c.name agent) ≡ true))))
  unfolding register_agent has_agent
  register_agent_cases = elim (Bool-cases (c.name agent ==ᵇ [])) [
    | inl e ↦ inr (rw e refl, rw e refl, inl (rw e refl, (==ᵇ_iff (c.name agent) []).0 e))
    | inr e ↦ elim (Option-cases (lookup (c.name agent) r.agents)) [
      | inl absent ↦ inl (
        rw (e, absent, register_agent) refl,
        (λ same. ground (arith, ==ᵇ_iff (c.name agent) [])),
        absent,
      )
      | inr (old, found) ↦ inr (
        rw (e, found, register_agent) refl,
        rw (e, found, register_agent) refl,
        inr (rw (e, found, register_agent) refl, rw (found, has_agent) refl),
      )
    ]
  ]

  register_agent_free :
      c.name agent ≢ []
      → lookup (c.name agent) r.agents ≡ none
      → register_agent t c r (some agent) ≡ (registered, success)
  unfolding register_agent
  register_agent_free n absent = rw (==ᵇ_ne (c.name agent) [] n, absent, register_agent) refl

  unregister_registered :
      lookup (c.name agent) r.agents ≡ none
      → unregister_agent t c registered (c.name agent)
        ≡ (r, success, some (if r.running then c.on_stop agent else agent))
  unfolding unregister_agent
  unregister_registered absent =
      rw
        (
          lookup-insert_self (c.name agent) agent r.agents,
          unregister_agent,
          erase-insert (c.name agent) agent r.agents absent,
        )
        refl

  -- Registering an agent under a free name that is not empty and unregistering it leaves the
  -- runtime as it was, and hands the agent back, stopped exactly when the runtime runs.
  unregister_agent-register_agent :
      c.name agent ≢ []
      → lookup (c.name agent) r.agents ≡ none
      → unregister_agent t c (register_agent t c r (some agent)).0 (c.name agent)
        ≡ (r, success, some (if r.running then c.on_stop agent else agent))
  unregister_agent-register_agent n absent =
      ap (λ (x : AgentRuntime t c × Result). unregister_agent t c x.0 (c.name agent))
        (register_agent_free n absent)
      ∙ unregister_registered absent

module _ (t : Transport) (c : AgentClass) (r : AgentRuntime t c) where
  -- On a valid runtime unregistering takes the one name away and no other, and succeeds exactly
  -- for a registered name.
  unregister_agent-lookup :
      (name other : Bytes)
      → IsValid t c r
      → (has_agent t c (unregister_agent t c r name).0 name ≡ false)
        × (((unregister_agent t c r name).1.ok ≡ true) ↔ (has_agent t c r name ≡ true))
        × (name ≢ other
            → lookup other (unregister_agent t c r name).0.agents ≡ lookup other r.agents)
  unfolding unregister_agent has_agent
  unregister_agent-lookup name other v = elim (Option-cases (lookup name r.agents)) [
    | inl absent ↦
        rw (absent, unregister_agent, has_agent)
          (rw (absent, has_agent) refl, (λ e. e, λ e. e), λ n. refl)
    | inr (a, found) ↦
        rw (found, unregister_agent, has_agent)
          (
            rw (lookup-erase_self name r.agents v.distinct, has_agent) refl,
            (λ e. refl, λ e. refl),
            λ n. lookup-erase_ne name other r.agents n,
          )
  ]

  -- On a stopped runtime a second start does nothing, stop after start runs both callbacks of
  -- every agent once, and a second stop does nothing.
  stop-start :
      r.running ≡ false
      → (start t c (start t c r) ≡ start t c r)
        × (stop t c (start t c r) ≡ record r {
          running = false;
          agents = each t c c.on_stop (each t c c.on_start r.agents);
        })
        × (stop t c (stop t c (start t c r)) ≡ stop t c (start t c r))
  unfolding start stop
  stop-start off = (rw off refl, rw off refl, rw off refl)
