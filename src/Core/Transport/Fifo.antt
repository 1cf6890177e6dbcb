-- ===== src/Core/Transport/Fifo.antt =====
-- What a client may expect of a transport: it is a queue of messages. Two transports that keep
-- this contract cannot be told apart by the messages that both can carry.
use galculus.Common.{Bool, true, Option, none, some, List, [], ◌∷◌, ◌++◌, ◌≡◌, refl, ap₂, All}
use galculus.Core.Message.{Message}
use galculus.Core.Transport.{Transport, is_empty}

pub record IsFifo (t : Transport) : Type 1 where
  -- The transport is in a good state, with these messages under way.
  pub Holds : t.State → List Message → Type 0
  -- The messages that it carries unchanged.
  pub Sendable : Message → Type 0
  pub sending :
      (s : t.State) (q : List Message) (m : Message)
      → Holds s q
      → Sendable m
      → ((t.send s m).1 ≡ true) × Holds (t.send s m).0 (q ++ m ∷ [])
  pub receiving_none :
      (s : t.State) → Holds s [] → ((t.receive s).1 ≡ none) × Holds (t.receive s).0 []
  pub receiving_some :
      (s : t.State) (m : Message) (q : List Message)
      → Holds s (m ∷ q)
      → ((t.receive s).1 ≡ some m) × Holds (t.receive s).0 q
  pub empty-is_empty : (s : t.State) (q : List Message) → Holds s q → t.empty s ≡ is_empty q

-- The calls of a client, and what it sees.
pub data Call : Type 0 where
  sends : Message → Call
  receives : Call
  asks_empty : Call

pub data Reply : Type 0 where
  sent : Bool → Reply
  got : Option Message → Reply
  is : Bool → Reply

module _ (t : Transport) where
  pub step : t.State → Call → t.State × Reply
  step s (sends m) = let (s', b) = t.send s m in (s', sent b)
  step s receives = let (s', o) = t.receive s in (s', got o)
  step s asks_empty = (s, is (t.empty s))

  pub run : t.State → List Call → List Reply
  run s [] = []
  run s (c ∷ cs) = let (s', r) = step s c in r ∷ run s' cs

abbrev pub Carries : (Message → Type 0) → Call → Type 0
Carries P (sends m) = P m
Carries P receives = Unit {0}
Carries P asks_empty = Unit {0}

-- The replies of a queue that holds `q`.
pub replies : List Message → List Call → List Reply
replies q [] = []
replies q (sends m ∷ cs) = sent true ∷ replies (q ++ m ∷ []) cs
replies [] (receives ∷ cs) = got none ∷ replies [] cs
replies (m ∷ q) (receives ∷ cs) = got (some m) ∷ replies q cs
replies q (asks_empty ∷ cs) = is (is_empty q) ∷ replies q cs

module _ (t : Transport) (f : IsFifo t) where
  -- A transport that keeps the contract answers every sequence of calls as the queue does.
  pub run-replies :
      (s : t.State) (q : List Message) (cs : List Call)
      → f.Holds s q
      → All (Carries f.Sendable) cs
      → run t s cs ≡ replies q cs
  unfolding run step replies
  run-replies s q [] v h = refl
  run-replies s q (sends m ∷ cs) v h =
      let (out, v') = f.sending s q m v h.0 in
      ap₂ (λ (b : Bool) (rs : List Reply). sent b ∷ rs) out
        (run-replies (t.send s m).0 (q ++ m ∷ []) cs v' h.1)
  run-replies s [] (receives ∷ cs) v h =
      let (out, v') = f.receiving_none s v in
      ap₂ (λ (o : Option Message) (rs : List Reply). got o ∷ rs) out
        (run-replies (t.receive s).0 [] cs v' h.1)
  run-replies s (m ∷ q) (receives ∷ cs) v h =
      let (out, v') = f.receiving_some s m q v in
      ap₂ (λ (o : Option Message) (rs : List Reply). got o ∷ rs) out
        (run-replies (t.receive s).0 q cs v' h.1)
  run-replies s q (asks_empty ∷ cs) v h =
      ap₂ (λ (b : Bool) (rs : List Reply). is b ∷ rs) (f.empty-is_empty s q v)
        (run-replies s q cs v h.1)
