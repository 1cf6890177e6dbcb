-- ===== src/Core/Runtime/Agents.antt =====
-- The table of agents: what each operation does to it, and what all of them keep.
use galculus.Common.{
  ◌^◌, ◌<◌, ◌≡◌, ◌≢◌, refl, arith, Bool, true, false, Option, none, some, List, [], ◌∷◌, ◌==ᵇ◌,
  ==ᵇ_iff, Bool-cases, Option-cases, inl, inr,
}
use galculus.Common.Dict.{
  Dict, IsDict, Fresh, lookup, insert, insert-IsDict, erase-IsDict, insert-Fresh, erase-Fresh,
  lookup-Fresh,
}
use galculus.Core.Wire.{Bytes}
use galculus.Core.Message.{Event, Message}
use galculus.Core.Transport.{Transport}
use galculus.Core.Runtime.{
  AgentClass, AgentRuntime, register_agent, unregister_agent, send, publish_event, broadcast_event,
  broadcast_to, each, start, stop, dispatch, run_once, delivered,
}

module _ (t : Transport) (c : AgentClass) where
  -- Every agent stands under one name, which is not empty, and the next id is a 64-bit number.
  pub record IsValid (r : AgentRuntime t c) : Type 0 where
    pub distinct : IsDict r.agents
    pub named : Fresh [] r.agents
    pub id_fits : r.next_id < 2 ^ 64

  each-Fresh :
      (f : c.Agent → c.Agent) (k : Bytes) (m : Dict c.Agent) → Fresh k m → Fresh k (each t c f m)
  each-Fresh f k [] h = tt
  each-Fresh f k (e ∷ m) h = (h.0, each-Fresh f k m h.1)

  each-IsDict : (f : c.Agent → c.Agent) (m : Dict c.Agent) → IsDict m → IsDict (each t c f m)
  each-IsDict f [] h = tt
  each-IsDict f ((k, a) ∷ m) h = (each-Fresh f k m h.0, each-IsDict f m h.1)

  -- An operation that leaves the agents and the counter alone.
  same_agents :
      {r r' : AgentRuntime t c}
      → r'.agents ≡ r.agents
      → r'.next_id ≡ r.next_id
      → IsValid r
      → IsValid r'
  same_agents ea ei v = record {
    distinct = rw ea v.distinct;
    named = rw ea v.named;
    id_fits = rw ei v.id_fits;
  }

  inserted :
      (r : AgentRuntime t c) (k : Bytes) (a : c.Agent)
      → k ≢ []
      → IsValid r
      → IsValid (record r { agents = insert k a r.agents })
  inserted r k a n v = record {
    distinct = insert-IsDict k a r.agents v.distinct;
    named = insert-Fresh k [] a r.agents n v.named;
    id_fits = v.id_fits;
  }

  pub register_agent-IsValid :
      (r : AgentRuntime t c) (agent : Option c.Agent)
      → IsValid r
      → IsValid (register_agent t c r agent).0
  unfolding register_agent
  register_agent-IsValid r none v = v
  register_agent-IsValid r (some a) v = elim (Bool-cases (c.name a ==ᵇ [])) [
    | inl e ↦ rw e v
    | inr e ↦ elim (Option-cases (lookup (c.name a) r.agents)) [
      | inl absent ↦
          rw (e, absent, register_agent)
            (inserted r (c.name a) a (λ same. ground (arith, ==ᵇ_iff (c.name a) [])) v)
      | inr (old, found) ↦ rw (e, found, register_agent) v
    ]
  ]

  pub unregister_agent-IsValid :
      (r : AgentRuntime t c) (name : Bytes) → IsValid r → IsValid (unregister_agent t c r name).0
  unfolding unregister_agent
  unregister_agent-IsValid r name v = elim (Option-cases (lookup name r.agents)) [
    | inl absent ↦ rw (absent, unregister_agent) v
    | inr (a, found) ↦
        rw (found, unregister_agent)
          (record {
            distinct = erase-IsDict name r.agents v.distinct;
            named = erase-Fresh name [] r.agents v.named;
            id_fits = v.id_fits;
          })
  ]

  pub send-IsValid : (r : AgentRuntime t c) (m : Message) → IsValid r → IsValid (send t c r m).0
  unfolding send
  send-IsValid r m v = elim (Bool-cases (t.send r.transport m).1) [
    | inl e ↦ rw e (same_agents refl refl v)
    | inr e ↦ rw e (same_agents refl refl v)
  ]

  pub publish_event-IsValid :
      (r : AgentRuntime t c) (source target : Bytes) (event : Event)
      → IsValid r
      → IsValid (publish_event t c r source target event).0
  unfolding publish_event
  publish_event-IsValid r source target event v =
      send-IsValid _ _ (record { distinct = v.distinct; named = v.named; id_fits = omega arith })

  broadcast_to-IsValid :
      (names : List Bytes) (r : AgentRuntime t c) (source : Bytes) (event : Event)
      → IsValid r
      → IsValid (broadcast_to t c r source event names).0
  unfolding broadcast_to
  broadcast_to-IsValid [] r source event v = v
  broadcast_to-IsValid (target ∷ rest) r source event v =
      let v' = publish_event-IsValid r source target event v in
      elim (Bool-cases (publish_event t c r source target event).1.ok) [
        | inl e ↦ rw e (broadcast_to-IsValid rest _ source event v')
        | inr e ↦ rw e v'
      ]

  each-IsValid :
      (r : AgentRuntime t c) (f : c.Agent → c.Agent) (b : Bool)
      → IsValid r
      → IsValid (record r { agents = each t c f r.agents; running = b })
  each-IsValid r f b v = record {
    distinct = each-IsDict f r.agents v.distinct;
    named = each-Fresh f [] r.agents v.named;
    id_fits = v.id_fits;
  }

  dispatch-IsValid : (r : AgentRuntime t c) (m : Message) → IsValid r → IsValid (dispatch t c r m).0
  unfolding dispatch
  dispatch-IsValid r m v = elim (Option-cases (lookup m.target r.agents)) [
    | inl absent ↦ rw (absent, dispatch) v
    | inr (a, found) ↦
        rw (found, dispatch)
          (inserted r m.target _ (λ e. cc (lookup-Fresh [] r.agents v.named, found, e)) v)
  ]

  pub run_once-IsValid : (r : AgentRuntime t c) → IsValid r → IsValid (run_once t c r).0
  unfolding run_once
  run_once-IsValid r v = elim (Bool-cases r.running) [
    | inr off ↦ rw (off, run_once) (same_agents {r = r} refl refl v)
    | inl on ↦ elim (Option-cases (t.receive r.transport).1) [
      | inl nothing ↦ rw (on, nothing, run_once, delivered) (same_agents refl refl v)
      | inr (m, got) ↦
          rw (on, got, run_once, delivered) (dispatch-IsValid _ m (same_agents refl refl v))
    ]
  ]

  pub start-IsValid : (r : AgentRuntime t c) → IsValid r → IsValid (start t c r)
  unfolding start
  start-IsValid r v = elim (Bool-cases r.running) [
    | inl on ↦ rw (on, start) (same_agents {r = r} refl refl v)
    | inr off ↦ rw (off, start) (each-IsValid r c.on_start true v)
  ]

  pub stop-IsValid : (r : AgentRuntime t c) → IsValid r → IsValid (stop t c r)
  unfolding stop
  stop-IsValid r v = elim (Bool-cases r.running) [
    | inl on ↦ rw (on, stop) (each-IsValid r c.on_stop false v)
    | inr off ↦ rw (off, stop) (same_agents {r = r} refl refl v)
  ]

  pub broadcast_event-IsValid :
      (r : AgentRuntime t c) (source : Bytes) (event : Event)
      → IsValid r
      → IsValid (broadcast_event t c r source event).0
  unfolding broadcast_event
  broadcast_event-IsValid r source event v = broadcast_to-IsValid _ r source event v
