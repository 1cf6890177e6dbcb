-- ===== src/Core/Runtime/Calls.antt =====
-- Sequences of calls on a runtime, with a count of the registrations and the unregistrations that
-- report success. A drain that is cut off, as one that goes on for ever is, ends the sequence.
use mathlib.Core.Path.{subst}
use galculus.Common.{
  ℕ, zero, suc, ◌+◌, ◌≡◌, refl, ◌∙◌, arith, Option, none, some, List, [], ◌∷◌, Bool-cases,
  Option-cases, inl, inr,
}
use galculus.Core.Wire.{Bytes}
use galculus.Core.Message.{Event, Message}
use galculus.Core.Transport.{Transport}
use galculus.Core.Runtime.{
  AgentClass, AgentRuntime, fresh, register_agent, unregister_agent, send, publish_event,
  broadcast_event, start, stop, run_once, drain, agent_count,
}
use galculus.Core.Runtime.Agents
use galculus.Core.Runtime.Agents.{IsValid}
use galculus.Core.Runtime.Counts

module _ (t : Transport) (c : AgentClass) where
  pub data Call : Type 0 where
    registers : Option c.Agent → Call
    unregisters : Bytes → Call
    sends : Message → Call
    publishes : Bytes → Bytes → Event → Call
    broadcasts : Bytes → Event → Call
    starts : Call
    stops : Call
    runs_once : Call
    drains : ℕ → Call

  pub record Tally : Type 0 where
    pub runtime : AgentRuntime t c
    pub added : ℕ
    pub removed : ℕ

  abbrev pub counted : Tally → AgentRuntime t c → Tally
  counted y r = record y { runtime = r }

  drained : Tally → Option (AgentRuntime t c) → Option Tally
  drained y none = none
  drained y (some r) = some (counted y r)

  step : Tally → Call → Option Tally
  unfolding drained
  step y (registers agent) =
      let (r, result) = register_agent t c y.runtime agent in
      some (record y { runtime = r; added = y.added + Counts.once t c result.ok })
  step y (unregisters name) =
      let (r, result, agent) = unregister_agent t c y.runtime name in
      some (record y { runtime = r; removed = y.removed + Counts.once t c result.ok })
  step y (sends m) = some (counted y (send t c y.runtime m).0)
  step y (publishes source target event) =
      some (counted y (publish_event t c y.runtime source target event).0)
  step y (broadcasts source event) = some (counted y (broadcast_event t c y.runtime source event).0)
  step y starts = some (counted y (start t c y.runtime))
  step y stops = some (counted y (stop t c y.runtime))
  step y runs_once = some (counted y (run_once t c y.runtime).0)
  step y (drains fuel) = drained y (drain t c fuel y.runtime)

  -- `none` where a drain was cut off.
  unfoldable pub run : Tally → List Call → Option Tally
  unfolding step
  run y [] = some y
  run y (call ∷ calls) = elim (step y call) [ none ↦ none | some y' ↦ run y' calls ]

  -- The runtime is valid, and has as many agents as were added and not removed.
  pub record Balanced (y : Tally) : Type 0 where
    pub valid : IsValid t c y.runtime
    pub agents : agent_count t c y.runtime + y.removed ≡ y.added

  Every : (Tally → Type 0) → Option Tally → Type 0
  Every P none = Unit {0}
  Every P (some y) = P y

  kept :
      (y : Tally) (r : AgentRuntime t c)
      → Balanced y
      → IsValid t c r
      → agent_count t c r ≡ agent_count t c y.runtime
      → Balanced (counted y r)
  kept y r b v e = record { valid = v; agents = omega (arith, e, b.agents) }

  drain-Balanced :
      (fuel : ℕ) (y : Tally) (r : AgentRuntime t c)
      → Balanced y
      → IsValid t c r
      → agent_count t c r ≡ agent_count t c y.runtime
      → Every Balanced (drained y (drain t c fuel r))
  unfolding drain drained Every
  drain-Balanced zero y r b v e = tt
  drain-Balanced (suc fuel) y r b v e =
      let v' = Agents.run_once-IsValid t c r v in
      let e' = Counts.agent_count-run_once t c r ∙ e in
      elim (Bool-cases (t.empty r.transport)) [
        | inl none_left ↦ rw (none_left, drain, drained, Every) (kept y r b v e)
        | inr more ↦ elim (Bool-cases (run_once t c r).1.ok) [
          | inl good ↦
              rw (more, good, drain, drained, Every)
                (drain-Balanced fuel y (run_once t c r).0 b v' e')
          | inr bad ↦ rw (more, bad, drain, drained, Every) (kept y (run_once t c r).0 b v' e')
        ]
      ]

  step-Balanced : (y : Tally) (call : Call) → Balanced y → Every Balanced (step y call)
  unfolding step Every
  step-Balanced y (registers agent) b = record {
    valid = Agents.register_agent-IsValid t c y.runtime agent b.valid;
    agents = omega (arith, Counts.agent_count-register_agent t c y.runtime agent, b.agents);
  }
  step-Balanced y (unregisters name) b = record {
    valid = Agents.unregister_agent-IsValid t c y.runtime name b.valid;
    agents = omega (arith, Counts.agent_count-unregister_agent t c y.runtime name, b.agents);
  }
  step-Balanced y (sends m) b =
      kept y _ b (Agents.send-IsValid t c y.runtime m b.valid)
        (Counts.agent_count-send t c y.runtime m)
  step-Balanced y (publishes source target event) b =
      kept y _ b (Agents.publish_event-IsValid t c y.runtime source target event b.valid)
        (Counts.agent_count-publish_event t c y.runtime source target event)
  step-Balanced y (broadcasts source event) b =
      kept y _ b (Agents.broadcast_event-IsValid t c y.runtime source event b.valid)
        (Counts.agent_count-broadcast_event t c y.runtime source event)
  step-Balanced y starts b =
      kept y _ b (Agents.start-IsValid t c y.runtime b.valid)
        (Counts.agent_count-start t c y.runtime)
  step-Balanced y stops b =
      kept y _ b (Agents.stop-IsValid t c y.runtime b.valid) (Counts.agent_count-stop t c y.runtime)
  step-Balanced y runs_once b =
      kept y _ b (Agents.run_once-IsValid t c y.runtime b.valid)
        (Counts.agent_count-run_once t c y.runtime)
  step-Balanced y (drains fuel) b = drain-Balanced fuel y y.runtime b b.valid refl

  run_from-Balanced : (calls : List Call) (y : Tally) → Balanced y → Every Balanced (run y calls)
  unfolding run Every
  run_from-Balanced [] y b = b
  run_from-Balanced (call ∷ calls) y b = elim (Option-cases (step y call)) [
    | inl cut ↦ rw (cut, run, Every) tt
    | inr (y', e) ↦
        rw (e, run, Every)
          (run_from-Balanced calls y' (subst (Every Balanced) e (step-Balanced y call b)))
  ]

  -- A new runtime, and nothing counted.
  abbrev pub blank : t.State → Tally
  blank s = record { runtime = fresh t c s; added = 0; removed = 0 }

  -- After any calls on a new runtime of which each drain ends, whatever its transport and its
  -- agents do, the runtime has as many agents as registrations succeeded, less the unregistrations
  -- that succeeded; their names are distinct and not empty, and the next message id fits 64 bits.
  pub run-Balanced :
      (s : t.State) (calls : List Call) (y : Tally) → run (blank s) calls ≡ some y → Balanced y
  unfolding Every agent_count
  run-Balanced s calls y e = subst (Every Balanced) e (
      run_from-Balanced calls (blank s) (record {
        valid = record { distinct = tt; named = tt; id_fits = omega arith };
        agents = refl;
      }))
