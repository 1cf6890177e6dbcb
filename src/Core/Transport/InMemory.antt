-- ===== src/Core/Transport/InMemory.antt =====
-- in_memory_transport.cpp keeps the contract of a queue, for every message.
use galculus.Common.{some, none, List, [], ◌∷◌, ◌≡◌, refl, ap, ◌++◌}
use galculus.Core.Message.{Message}
use galculus.Core.Transport.{in_memory_transport, is_empty, push, take_front}
use galculus.Core.Transport.Fifo.{IsFifo}

pub queue_sending :
    (s q : List Message) (m : Message) → s ≡ q → (in_memory_transport.send s m).0 ≡ q ++ m ∷ []
unfolding push
queue_sending s q m e = ap (λ (t : List Message). t ++ m ∷ []) e

pub queue_receiving_none :
    (s : List Message)
    → s ≡ []
    → ((in_memory_transport.receive s).1 ≡ none) × ((in_memory_transport.receive s).0 ≡ [])
unfolding take_front
queue_receiving_none s e = (rw e, rw e)

pub queue_receiving_some :
    (s : List Message) (m : Message) (q : List Message)
    → s ≡ m ∷ q
    → ((in_memory_transport.receive s).1 ≡ some m) × ((in_memory_transport.receive s).0 ≡ q)
unfolding take_front
queue_receiving_some s m q e = (rw e, rw e)

abbrev pub in_memory-IsFifo : IsFifo in_memory_transport
in_memory-IsFifo = record {
  Holds = λ s q. s ≡ q;
  Sendable = λ m. Unit {0};
  sending = λ s q m e h. (refl, queue_sending s q m e);
  receiving_none = queue_receiving_none;
  receiving_some = queue_receiving_some;
  empty-is_empty = λ s q e. ap is_empty e;
}
