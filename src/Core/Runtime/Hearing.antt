-- ===== src/Core/Runtime/Hearing.antt =====
-- A broadcast on a running runtime reaches every agent.
use mathlib.Core.Path.{subst}
use galculus.Common.{
  ℕ, suc, ◌+◌, ◌^◌, ◌<◌, ◌≡◌, ◌≢◌, refl, sym, ap, ◌∙◌, arith, true, ==ᵇ_self, ==ᵇ_ne, some, List,
  [], ◌∷◌, ◌++◌, map, length, All, All-append, append_assoc, length-map,
}
use galculus.Common.Dict.{Dict, IsDict, Fresh, lookup, insert}
use galculus.Core.Wire.{Bytes}
use galculus.Core.Message.{Message, Event, event_message}
use galculus.Core.Transport.{Transport}
use galculus.Core.Transport.Fifo.{IsFifo}
use galculus.Core.Runtime.{AgentClass, AgentRuntime, broadcast_event, drain}
use galculus.Core.Runtime.Sending.{addressed, broadcast_event-Holds}
use galculus.Core.Runtime.Drain.{deliver, Drained, drain-deliver}

module _ {V : Type 0} where
  lookup-behind :
      (k : Bytes) (v : V) (done rest : Dict V)
      → Fresh k done
      → lookup k (done ++ (k, v) ∷ rest) ≡ some v
  unfolding lookup
  lookup-behind k v [] rest f = rw (==ᵇ_self k) refl
  lookup-behind k v ((j, x) ∷ done) rest f = rw (==ᵇ_ne j k f.0) (lookup-behind k v done rest f.1)

  insert-behind :
      (k : Bytes) (v x : V) (done rest : Dict V)
      → Fresh k done
      → insert k v (done ++ (k, x) ∷ rest) ≡ done ++ (k, v) ∷ rest
  unfolding insert
  insert-behind k v x [] rest f = rw (==ᵇ_self k) refl
  insert-behind k v x ((j, y) ∷ done) rest f =
      rw (==ᵇ_ne j k f.0) (ap (◌∷◌ (j, y)) (insert-behind k v x done rest f.1))

  Fresh-behind :
      (k j : Bytes) (v : V) (done : Dict V) → Fresh k done → j ≢ k → Fresh k (done ++ (j, v) ∷ [])
  Fresh-behind k j v done f n = All-append _ done _ f (n, tt)

length-addressed :
    (id : ℕ) (source : Bytes) (event : Event) (names : List Bytes)
    → length (addressed id source event names) ≡ length names
unfolding addressed
length-addressed id source event [] = refl
length-addressed id source event (n ∷ rest) = ap suc (length-addressed (id + 1) source event rest)

module _ (c : AgentClass) where
  -- Each agent after its own copy of the event.
  pub heard : ℕ → Bytes → Event → Dict c.Agent → Dict c.Agent
  heard id source event [] = []
  heard id source event ((name, a) ∷ rest) =
      (name, c.on_message a (event_message id source name event)) ∷ heard (id + 1) source event rest

  -- The agents that are still to hear the event have names that those before them have not.
  abbrev Apart : Dict c.Agent → Dict c.Agent → Type 0
  Apart done rest = All (λ e. Fresh e.0 done) rest

  Apart-step :
      (done rest : Dict c.Agent) (name : Bytes) (a : c.Agent)
      → Apart done rest
      → Fresh name rest
      → Apart (done ++ (name, a) ∷ []) rest
  Apart-step done [] name a h f = tt
  Apart-step done ((j, x) ∷ rest) name a h f =
      (Fresh-behind j name a done h.0 (λ e. f.0 (sym e)), Apart-step done rest name a h.1 f.1)

  apart : (agents : Dict c.Agent) → Apart [] agents
  apart [] = tt
  apart (e ∷ rest) = (tt, apart rest)

  deliver-addressed :
      (id : ℕ) (source : Bytes) (event : Event) (done rest : Dict c.Agent)
      → IsDict rest
      → Apart done rest
      → deliver c (done ++ rest) (addressed id source event (map (λ e. e.0) rest))
        ≡ (done ++ heard id source event rest, [])
  unfolding addressed heard deliver event_message
  deliver-addressed id source event done [] d h = refl
  deliver-addressed id source event done ((name, a) ∷ rest) d h =
      let a' = c.on_message a (event_message id source name event) in
      let next =
        deliver-addressed (id + 1) source event (done ++ (name, a') ∷ []) rest d.1
          (Apart-step done rest name a' h.1 d.0) in
      let told = addressed (id + 1) source event (map (λ e. e.0) rest) in
      rw (deliver, lookup-behind name a done rest h.0, insert-behind name a' a done rest h.0)
        (ap (λ (agents : Dict c.Agent). deliver c agents told)
            (sym (append_assoc done ((name, a') ∷ []) rest))
          ∙ next
          ∙ ap (λ (agents : Dict c.Agent). (agents, []))
              (append_assoc done ((name, a') ∷ []) (heard (id + 1) source event rest)))

module _ (t : Transport) (f : IsFifo t) (c : AgentClass) where
  -- On a running runtime with distinct agent names, whose transport keeps the queue contract, is
  -- empty and carries the messages, a drain with more fuel than agents after a broadcast ends with
  -- every agent having heard its own copy of the event once, and with nothing left, if the ids fit
  -- 64 bits.
  pub drain-broadcast_event :
      (fuel : ℕ) (r : AgentRuntime t c) (source : Bytes) (event : Event)
      → length r.agents < fuel
      → r.running ≡ true
      → IsDict r.agents
      → r.next_id + length r.agents < 2 ^ 64
      → f.Holds r.transport []
      → All f.Sendable (addressed r.next_id source event (map (λ e. e.0) r.agents))
      → Drained t f c
          (broadcast_event t c r source event).0
          (heard c r.next_id source event r.agents)
          []
          (drain t c fuel (broadcast_event t c r source event).0)
  drain-broadcast_event fuel r source event enough on names fits v h =
      let (s', e, v') = broadcast_event-Holds t f c r [] source event fits v h in
      let told = addressed r.next_id source event (map (λ e. e.0) r.agents) in
      let after : AgentRuntime t c = record r {
        transport = s';
        next_id = r.next_id + length r.agents;
      } in
      let sizes = length-addressed r.next_id source event (map (λ e. e.0) r.agents) in
      let drained =
        drain-deliver t f c fuel after told (omega (arith, sizes, length-map r.agents (λ e. e.0)))
          on v' in
      let all = deliver-addressed c r.next_id source event [] r.agents names (apart c r.agents) in
      rw e (
        subst
          (λ (p : Dict c.Agent × List Message). Drained t f c after p.0 p.1 (drain t c fuel after))
          all drained)
