-- ===== src/Core/Runtime/Counts.antt =====
-- How many agents each operation of the runtime leaves.
use galculus.Common.{
  ℕ, ◌+◌, ◌≡◌, refl, ◌∙◌, arith, Bool, Option, none, some, List, [], ◌∷◌, ◌==ᵇ◌, length-map,
  Bool-cases, Option-cases, inl, inr, if◌then◌else◌,
}
use galculus.Common.Dict.{lookup, length-insert_fresh, length-insert_found, length-erase}
use galculus.Core.Wire.{Bytes}
use galculus.Core.Message.{Event, Message}
use galculus.Core.Transport.{Transport}
use galculus.Core.Runtime.{
  AgentClass, AgentRuntime, register_agent, unregister_agent, send, publish_event, broadcast_event,
  broadcast_to, start, stop, dispatch, run_once, delivered, agent_count,
}

module _ (t : Transport) (c : AgentClass) where
  -- A success counts one.
  abbrev pub once : Bool → ℕ
  once ok = if ok then 1 else 0

  pub agent_count-register_agent :
      (r : AgentRuntime t c) (agent : Option c.Agent)
      → agent_count t c (register_agent t c r agent).0
        ≡ agent_count t c r + once (register_agent t c r agent).1.ok
  unfolding register_agent agent_count
  agent_count-register_agent r none = omega arith
  agent_count-register_agent r (some a) = elim (Bool-cases (c.name a ==ᵇ [])) [
    | inl e ↦ rw e (omega arith)
    | inr e ↦ elim (Option-cases (lookup (c.name a) r.agents)) [
      | inl absent ↦
          rw (e, absent, register_agent)
            (omega (arith, length-insert_fresh (c.name a) a r.agents absent))
      | inr (old, found) ↦ rw (e, found, register_agent) (omega arith)
    ]
  ]

  pub agent_count-unregister_agent :
      (r : AgentRuntime t c) (name : Bytes)
      → agent_count t c (unregister_agent t c r name).0 + once (unregister_agent t c r name).1.ok
        ≡ agent_count t c r
  unfolding unregister_agent agent_count
  agent_count-unregister_agent r name = elim (Option-cases (lookup name r.agents)) [
    | inl absent ↦ rw (absent, unregister_agent) (omega arith)
    | inr (a, found) ↦
        rw (found, unregister_agent) (omega (arith, length-erase name r.agents a found))
  ]

  pub agent_count-send :
      (r : AgentRuntime t c) (m : Message) → agent_count t c (send t c r m).0 ≡ agent_count t c r
  unfolding send agent_count
  agent_count-send r m = elim (Bool-cases (t.send r.transport m).1) [
    | inl e ↦ rw e refl
    | inr e ↦ rw e refl
  ]

  pub agent_count-publish_event :
      (r : AgentRuntime t c) (source target : Bytes) (event : Event)
      → agent_count t c (publish_event t c r source target event).0 ≡ agent_count t c r
  unfolding publish_event agent_count
  agent_count-publish_event r source target event = agent_count-send _ _

  agent_count-broadcast_to :
      (names : List Bytes) (r : AgentRuntime t c) (source : Bytes) (event : Event)
      → agent_count t c (broadcast_to t c r source event names).0 ≡ agent_count t c r
  unfolding broadcast_to
  agent_count-broadcast_to [] r source event = refl
  agent_count-broadcast_to (target ∷ rest) r source event =
      let one = agent_count-publish_event r source target event in
      elim (Bool-cases (publish_event t c r source target event).1.ok) [
        | inl e ↦ rw e (agent_count-broadcast_to rest _ source event ∙ one)
        | inr e ↦ rw e one
      ]

  pub agent_count-broadcast_event :
      (r : AgentRuntime t c) (source : Bytes) (event : Event)
      → agent_count t c (broadcast_event t c r source event).0 ≡ agent_count t c r
  unfolding broadcast_event
  agent_count-broadcast_event r source event = agent_count-broadcast_to _ r source event

  pub agent_count-start : (r : AgentRuntime t c) → agent_count t c (start t c r) ≡ agent_count t c r
  unfolding start agent_count
  agent_count-start r = elim (Bool-cases r.running) [
    | inl on ↦ rw on refl
    | inr off ↦ rw off (length-map r.agents _)
  ]

  pub agent_count-stop : (r : AgentRuntime t c) → agent_count t c (stop t c r) ≡ agent_count t c r
  unfolding stop agent_count
  agent_count-stop r = elim (Bool-cases r.running) [
    | inl on ↦ rw on (length-map r.agents _)
    | inr off ↦ rw off refl
  ]

  agent_count-dispatch :
      (r : AgentRuntime t c) (m : Message)
      → agent_count t c (dispatch t c r m).0 ≡ agent_count t c r
  unfolding dispatch agent_count
  agent_count-dispatch r m = elim (Option-cases (lookup m.target r.agents)) [
    | inl absent ↦ rw (absent, dispatch) refl
    | inr (a, found) ↦
        rw (found, dispatch) (length-insert_found m.target (c.on_message a m) a r.agents found)
  ]

  pub agent_count-run_once :
      (r : AgentRuntime t c) → agent_count t c (run_once t c r).0 ≡ agent_count t c r
  unfolding run_once agent_count
  agent_count-run_once r = elim (Bool-cases r.running) [
    | inr off ↦ rw (off, run_once) refl
    | inl on ↦ elim (Option-cases (t.receive r.transport).1) [
      | inl nothing ↦ rw (on, nothing, run_once, delivered) refl
      | inr (m, got) ↦ rw (on, got, run_once, delivered) (agent_count-dispatch _ m)
    ]
  ]
