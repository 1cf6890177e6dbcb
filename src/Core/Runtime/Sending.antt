-- ===== src/Core/Runtime/Sending.antt =====
-- What the runtime puts on a transport that keeps its contract.
use galculus.Common.{
  ℕ, ◌+◌, ◌%◌, ◌^◌, ◌<◌, ◌≡◌, refl, ap, ◌∙◌, arith, List, [], ◌∷◌, ◌++◌, map, length, length-map,
  All, append_assoc, append-nil,
}
use galculus.Core.Wire.{Bytes}
use galculus.Core.Message.{Result, success, Event, Message, event_message}
use galculus.Core.Transport.{Transport}
use galculus.Core.Transport.Fifo.{IsFifo}
use galculus.Core.Runtime.{
  AgentClass, AgentRuntime, send, publish_event, broadcast_event, broadcast_to,
}

-- One message for each target, with consecutive ids.
unfoldable pub addressed : ℕ → Bytes → Event → List Bytes → List Message
addressed id source event [] = []
addressed id source event (target ∷ rest) =
    event_message id source target event ∷ addressed (id + 1) source event rest

module _ (t : Transport) (f : IsFifo t) (c : AgentClass) where
  send-Holds :
      (r : AgentRuntime t c) (q : List Message) (m : Message)
      → f.Holds r.transport q
      → f.Sendable m
      → (s' : t.State) × (send t c r m ≡ (record r { transport = s' }, success))
        × f.Holds s' (q ++ m ∷ [])
  unfolding send
  send-Holds r q m v h =
      let (out, v') = f.sending r.transport q m v h in ((t.send r.transport m).0, rw out refl, v')

  publish_event-Holds :
      (r : AgentRuntime t c) (q : List Message) (source target : Bytes) (event : Event)
      → r.next_id + 1 < 2 ^ 64
      → f.Holds r.transport q
      → f.Sendable (event_message r.next_id source target event)
      → (s' : t.State) × (publish_event t c r source target event
          ≡ (record r { transport = s'; next_id = r.next_id + 1 }, success))
        × f.Holds s' (q ++ event_message r.next_id source target event ∷ [])
  unfolding publish_event
  publish_event-Holds r q source target event fits v h =
      let wrap : (r.next_id + 1) % 2 ^ 64 ≡ r.next_id + 1 = omega arith in
      rw wrap (send-Holds (record r { next_id = r.next_id + 1 }) q _ v h)

  abbrev counted : AgentRuntime t c → t.State → ℕ → AgentRuntime t c × Result
  counted r s n = (record r { transport = s; next_id = n }, success)

  broadcast_to-Holds :
      (names : List Bytes) (r : AgentRuntime t c) (q : List Message) (source : Bytes)
      (event : Event)
      → r.next_id + length names < 2 ^ 64
      → f.Holds r.transport q
      → All f.Sendable (addressed r.next_id source event names)
      → (s' : t.State) × (broadcast_to t c r source event names
          ≡ (record r { transport = s'; next_id = r.next_id + length names }, success))
        × f.Holds s' (q ++ addressed r.next_id source event names)
  unfolding broadcast_to addressed
  broadcast_to-Holds [] r q source event fits v h =
      (r.transport, ap (λ (n : ℕ). counted r r.transport n) (omega arith), rw append-nil v)
  broadcast_to-Holds (target ∷ rest) r q source event fits v h =
      let (s', sent, v') = publish_event-Holds r q source target event (omega arith) v h.0 in
      let (s2, others, v2) =
        broadcast_to-Holds rest (record r { transport = s'; next_id = r.next_id + 1 })
          (q ++ event_message r.next_id source target event ∷ []) source event (omega arith) v'
          h.1 in
      (s2, rw sent (others ∙ ap (λ (n : ℕ). counted r s2 n) (omega arith)), rw append_assoc at v2)

  -- On a transport that keeps the queue contract, a broadcast puts one event on the queue for
  -- every agent, in the order of the table and with consecutive ids from the counter, and moves
  -- the counter behind them, if the ids fit 64 bits and the transport carries the messages.
  pub broadcast_event-Holds :
      (r : AgentRuntime t c) (q : List Message) (source : Bytes) (event : Event)
      → r.next_id + length r.agents < 2 ^ 64
      → f.Holds r.transport q
      → All f.Sendable (addressed r.next_id source event (map (λ e. e.0) r.agents))
      → (s' : t.State) × (broadcast_event t c r source event
          ≡ (record r { transport = s'; next_id = r.next_id + length r.agents }, success))
        × f.Holds s' (q ++ addressed r.next_id source event (map (λ e. e.0) r.agents))
  unfolding broadcast_event
  broadcast_event-Holds r q source event fits v h =
      let names = map (λ e. e.0) r.agents in
      let size : length names ≡ length r.agents = length-map r.agents (λ e. e.0) in
      rw (← size) (broadcast_to-Holds names r q source event (omega arith) v h)
