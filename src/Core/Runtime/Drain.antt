-- ===== src/Core/Runtime/Drain.antt =====
-- `drain` over a transport that keeps its contract: it ends, and it delivers the messages in order
-- up to the first one without a receiver.
use galculus.Common.{
  ℕ, zero, suc, ◌<◌, ◌≡◌, refl, ap, ◌∙◌, arith, Bool, true, false, Option, none, some, List, [],
  ◌∷◌, ◌++◌, length, codes, Option-cases, inl, inr,
}
use galculus.Common.Dict.{Dict, lookup, insert}
use galculus.Core.Message.{ErrorCode, failure, Result, success, Message}
use galculus.Core.Transport.{Transport, is_empty}
use galculus.Core.Transport.Fifo.{IsFifo}
use galculus.Core.Runtime.{AgentClass, AgentRuntime, dispatch, run_once, drain, delivered}

-- What is to happen to the agents: each message goes to its target, in order. The first one for
-- which there is no agent is dropped, and what is behind it stays.
module _ (c : AgentClass) where
  unfoldable pub deliver : Dict c.Agent → List Message → Dict c.Agent × List Message
  deliver agents [] = (agents, [])
  deliver agents (m ∷ rest) = elim (lookup m.target agents) [
    | none ↦ (agents, rest)
    | some a ↦ deliver (insert m.target (c.on_message a m) agents) rest
  ]

module _ (t : Transport) (f : IsFifo t) (c : AgentClass) where
  -- A drained runtime differs in its agents and its transport alone.
  pub record Drained (r : AgentRuntime t c) (agents : Dict c.Agent) (left : List Message)
      (out : Option (AgentRuntime t c)) : Type 0 where
    pub transport : t.State
    pub ends : out ≡ some (record r { agents = agents; transport = transport })
    pub holds : f.Holds transport left

  run_once-some :
      (r : AgentRuntime t c) (m : Message)
      → r.running ≡ true
      → (t.receive r.transport).1 ≡ some m
      → run_once t c r ≡ dispatch t c (record r { transport = (t.receive r.transport).0 }) m
  unfolding run_once
  run_once-some r m on out =
      rw (on, out, run_once, delivered)
        (ap
          (λ (b : Bool).
            dispatch t c (record r { transport = (t.receive r.transport).0; running = b }) m)
          on)

  drain_step :
      (fuel : ℕ) (r r' : AgentRuntime t c) (result : Result)
      → t.empty r.transport ≡ false
      → run_once t c r ≡ (r', result)
      → drain t c (suc fuel) r ≡ elim result.ok [ true ↦ drain t c fuel r' | false ↦ some r' ]
  unfolding drain
  drain_step fuel r r' result e once =
      rw (e, drain)
        (ap
          (λ (x : AgentRuntime t c × Result).
            let y : Option (AgentRuntime t c) = elim x.1.ok [
              | true ↦ drain t c fuel x.0
              | false ↦ some x.0
            ] in
            y)
          once)

  drain_end :
      (fuel : ℕ) (r : AgentRuntime t c)
      → t.empty r.transport ≡ true
      → drain t c (suc fuel) r ≡ some r
  unfolding drain
  drain_end fuel r e = rw (e, drain) refl

  -- Over a transport that keeps the queue contract, and with more fuel than messages, drain on a
  -- running runtime ends: the messages are delivered in order up to the first without a receiver,
  -- that one is dropped, and the rest is left.
  pub drain-deliver :
      (fuel : ℕ) (r : AgentRuntime t c) (q : List Message)
      → length q < fuel
      → r.running ≡ true
      → f.Holds r.transport q
      → Drained r (deliver c r.agents q).0 (deliver c r.agents q).1 (drain t c fuel r)
  unfolding deliver is_empty dispatch
  drain-deliver zero r q h on v = absurd (omega arith)
  drain-deliver (suc fuel) r [] h on v = record {
    transport = r.transport;
    ends = drain_end fuel r (f.empty-is_empty r.transport [] v);
    holds = v;
  }
  drain-deliver (suc fuel) r (m ∷ q) h on v =
      let (out, v') = f.receiving_some r.transport m q v in
      let more = f.empty-is_empty r.transport (m ∷ q) v in
      let s' = (t.receive r.transport).0 in
      let once = run_once-some r m on out in
      elim (Option-cases (lookup m.target r.agents)) [
        | inl absent ↦
            rw (absent, deliver)
              (record {
                transport = s';
                ends =
                    drain_step fuel r (record r { transport = s' })
                      (failure ErrorCode.agent_not_found
                        (codes "unknown target agent: " ++ m.target))
                      more (once ∙ rw (absent, dispatch) refl);
                holds = v';
              })
        | inr (a, found) ↦
            let r' = record r {
              transport = s';
              agents = insert m.target (c.on_message a m) r.agents;
            } in
            let rest = drain-deliver fuel r' q (omega arith) on v' in
            rw (found, deliver)
              (record {
                transport = rest.transport;
                ends =
                    drain_step fuel r r' success more (once ∙ rw (found, dispatch) refl)
                    ∙ rest.ends;
                holds = rest.holds;
              })
      ]
