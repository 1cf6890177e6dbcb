-- ===== src/Core/Runtime.antt =====
-- core/src/runtime.cpp. The agents and the transport are parameters: an agent is what the
-- interface of agent.hpp says, and its callbacks change the agent alone. The map of agents is in
-- the order in which the loops meet them.
pub mod Agents
pub mod Counts
pub mod Calls
pub mod Registry
pub mod Sending
pub mod Drain
pub mod Hearing
use Prim.Native.String.{String}
use galculus.Common.{
  ℕ, zero, suc, ◌+◌, ◌%◌, ◌^◌, Bool, true, false, Option, none, some, List, [], ◌∷◌, ◌++◌, map,
  codes, if◌then◌else◌, ◌==ᵇ◌, length,
}
use galculus.Common.Dict.{Dict, lookup, insert, erase}
use galculus.Core.Wire.{Bytes}
use galculus.Core.Message.{ErrorCode, Result, success, failure, Event, Message, event_message}
use galculus.Core.Transport.{Transport}

pub record AgentClass : Type 1 where
  pub Agent : Type 0
  pub name : Agent → Bytes
  pub on_start : Agent → Agent
  pub on_message : Agent → Message → Agent
  pub on_stop : Agent → Agent

module _ (t : Transport) (c : AgentClass) where
  pub record AgentRuntime : Type 0 where
    pub agents : Dict c.Agent
    pub transport : t.State
    pub running : Bool
    pub next_id : ℕ

  abbrev pub fresh : t.State → AgentRuntime
  fresh s = record { agents = []; transport = s; running = false; next_id = 1 }

  register_named : AgentRuntime → c.Agent → Bytes → AgentRuntime × Result
  register_named r agent agent_name =
      if agent_name ==ᵇ []
      then (r, failure ErrorCode.invalid_argument (codes "agent name cannot be empty"))
      else elim (lookup agent_name r.agents) [
        | some old ↦ (
          r,
          failure ErrorCode.agent_already_exists (codes "agent already exists: " ++ agent_name),
        )
        | none ↦ (record r { agents = insert agent_name agent r.agents }, success)
      ]

  -- A null pointer is `none`.
  unfoldable pub register_agent : AgentRuntime → Option c.Agent → AgentRuntime × Result
  unfolding register_named
  register_agent r none =
      (r, failure ErrorCode.invalid_argument (codes "cannot register null agent"))
  register_agent r (some agent) = register_named r agent (c.name agent)

  -- The agent that is erased comes back in its last state, in which it is destroyed.
  unfoldable pub unregister_agent : AgentRuntime → Bytes → AgentRuntime × Result × Option c.Agent
  unregister_agent r name = elim (lookup name r.agents) [
    | none ↦ (r, failure ErrorCode.agent_not_found (codes "agent not found: " ++ name), none)
    | some agent ↦ (
      record r { agents = erase name r.agents },
      success,
      some (if r.running then c.on_stop agent else agent),
    )
  ]

  unfoldable pub send : AgentRuntime → Message → AgentRuntime × Result
  send r message =
      let (s', sent) = t.send r.transport message in
      if sent then (record r { transport = s' }, success) else (
        record r { transport = s' },
        failure ErrorCode.transport_error (codes "failed to send message"),
      )

  -- `next_message_id_++` on 64 bits.
  unfoldable pub next_message_id : AgentRuntime → AgentRuntime × ℕ
  next_message_id r = (record r { next_id = (r.next_id + 1) % 2 ^ 64 }, r.next_id)

  unfoldable pub publish_event : AgentRuntime → Bytes → Bytes → Event → AgentRuntime × Result
  unfolding next_message_id
  publish_event r source target event =
      let (r', id) = next_message_id r in send r' (event_message id source target event)

  -- The loop of `broadcast_event` over the names that are left.
  broadcast_to : AgentRuntime → Bytes → Event → List Bytes → AgentRuntime × Result
  broadcast_to r source event [] = (r, success)
  broadcast_to r source event (target ∷ rest) =
      let (r', result) = publish_event r source target event in
      let others = broadcast_to r' source event rest in if result.ok then others else (r', result)

  unfoldable pub broadcast_event : AgentRuntime → Bytes → Event → AgentRuntime × Result
  unfolding broadcast_to
  broadcast_event r source event = broadcast_to r source event (map (λ e. e.0) r.agents)

  abbrev pub each : (c.Agent → c.Agent) → Dict c.Agent → Dict c.Agent
  each f = map (λ e. (e.0, f e.1))

  unfoldable pub start : AgentRuntime → AgentRuntime
  start r = if r.running then r else record r { running = true; agents = each c.on_start r.agents }

  unfoldable pub stop : AgentRuntime → AgentRuntime
  stop r = if r.running then record r { agents = each c.on_stop r.agents; running = false } else r

  unfoldable pub dispatch : AgentRuntime → Message → AgentRuntime × Result
  dispatch r message = elim (lookup message.target r.agents) [
    | none ↦
        (r, failure ErrorCode.agent_not_found (codes "unknown target agent: " ++ message.target))
    | some agent ↦
        (record r { agents = insert message.target (c.on_message agent message) r.agents }, success)
  ]

  delivered : AgentRuntime → Option Message → AgentRuntime × Result
  delivered r none = (r, success)
  delivered r (some message) = dispatch r message

  unfoldable pub run_once : AgentRuntime → AgentRuntime × Result
  unfolding delivered
  run_once r =
      let (s', message) = t.receive r.transport in
      if r.running
      then delivered (record r { transport = s' }) message
      else (r, failure ErrorCode.runtime_not_running (codes "runtime is not running"))

  -- `while (!transport_.empty())`, left at the first error. The loop ends within the fuel, or not:
  -- `none` is a run that was cut off.
  unfoldable pub drain : ℕ → AgentRuntime → Option AgentRuntime
  drain zero r = none
  drain (suc fuel) r =
      let (r', result) = run_once r in
      elim (t.empty r.transport) [
        | true ↦ some r
        | false ↦ elim result.ok [ true ↦ drain fuel r' | false ↦ some r' ]
      ]

  unfoldable pub is_running : AgentRuntime → Bool
  is_running r = r.running

  unfoldable pub has_agent : AgentRuntime → Bytes → Bool
  has_agent r name = elim (lookup name r.agents) [ none ↦ false | some agent ↦ true ]

  unfoldable pub agent_count : AgentRuntime → ℕ
  agent_count r = length r.agents
