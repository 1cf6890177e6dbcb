-- ===== src/Tests/Runtime.antt =====
-- A runtime with two agents that count what reaches them, and queues, for core/.
use galculus.Common.{
  All, ap, List, ℕ, get_or, set, ℕ, ◌+◌, ◌^◌, ◌<◌, ◌≡◌, ◌≢◌, ◌⊎◌, ◌==ᵇ◌, refl, arith, ap, true,
  false, none, some, List, [], ◌∷◌, codes, length, get_or,
}
use galculus.Common.Dict.{lookup}
use galculus.Core.Wire.{Bytes, write_u16, write_u32, write_u64, write_bytes}
use galculus.Core.Message.{ErrorCode, success, Event, Message}
use galculus.Core.Protocol
use galculus.Core.Protocol.Truncated.{length-encode}
use galculus.Core.Frame.Sound.{length-encode as length-encode_frame}
use galculus.Core.Transport.{in_memory_transport}
use galculus.Core.Transport.Fifo.{Call, sends, receives, asks_empty, run}
use galculus.Core.Transport.InMemory.{in_memory-IsFifo}
use galculus.Core.Transport.Framed.{IsSendable, to_frame, framed, framed-refines}
use galculus.Core.Transport.Errors.{framed_receive_damaged}
use galculus.Core.Runtime.{
  AgentClass, AgentRuntime, register_agent, has_agent, broadcast_event, drain,
}
use galculus.Core.Runtime.Agents
use galculus.Core.Runtime.Calls
use galculus.Core.Transport.{push, take_front, is_empty}
use galculus.Common.Dict.{insert, erase}
use galculus.Core.Message.{event_message}
use galculus.Core.Runtime.{start, publish_event, send, run_once, dispatch, unregister_agent}
use galculus.Core.Runtime.Registry.{registered, register_agent_cases}
use galculus.Core.Runtime.Sending.{addressed}
use galculus.Core.Runtime.Hearing.{heard, drain-broadcast_event}
use galculus.Core.Runtime.Drain.{deliver, Drained, drain-deliver}

record Counter : Type 0 where
  agent_name : Bytes
  started : ℕ
  met : ℕ

abbrev counters : AgentClass
counters = record {
  Agent = Counter;
  name = λ a. a.agent_name;
  on_start = λ a. record a { started = a.started + 1 };
  on_message = λ a m. record a { met = a.met + 1 };
  on_stop = λ a. record a { started = 0 };
}

abbrev counter : Bytes → Counter
counter name = record { agent_name = name; started = 0; met = 0 }

abbrev pub note : ℕ → Bytes → Message
note id target = record {
  id = id;
  type = 0;
  source = codes "a";
  target = target;
  event = record { name = codes "hi"; payload = 1 ∷ 255 ∷ [] };
}

abbrev first_note : Message
first_note = note 7 (codes "b")

first_note-IsSendable : IsSendable first_note
first_note-IsSendable = record {
  valid = record {
    id_fits = omega arith;
    type_fits = omega arith;
    source_fits = ((omega arith, tt), omega arith);
    target_fits = ((omega arith, tt), omega arith);
    name_fits = ((omega arith, (omega arith, tt)), omega arith);
    payload_fits = ((omega arith, (omega arith, tt)), omega arith);
  };
  fits = omega (arith, length-encode first_note);
}

abbrev calls : List Call
calls = sends first_note ∷ asks_empty ∷ receives ∷ receives ∷ []

framed-refines_example : run framed [] calls ≡ run in_memory_transport [] calls
framed-refines_example = framed-refines calls (first_note-IsSendable, (tt, (tt, (tt, tt))))

frame_size : length (to_frame first_note) < 2 ^ 63
frame_size = omega (
  arith,
  length-encode first_note,
  length-encode_frame (Protocol.encode first_note) (first_note-IsSendable.fits),
)

third_byte : get_or (Protocol.encode first_note) 2 0 ≡ 76
unfolding Protocol.encode write_u16 write_u32 write_u64 write_bytes
third_byte = refl

framed_receive_damaged_example :
    (framed.receive (set (to_frame first_note) (8 + 2) 5 ∷ to_frame first_note ∷ [])
      ≡ (to_frame first_note ∷ [], none))
    × (framed.receive [] ≡ ([], none))
    × (framed.receive
          (framed.receive (set (to_frame first_note) (8 + 2) 5 ∷ to_frame first_note ∷ [])).0
        ≡ ([], some first_note))
framed_receive_damaged_example =
    framed_receive_damaged first_note first_note 2 5 [] first_note-IsSendable first_note-IsSendable
      (omega (arith, length-encode first_note)) (omega arith) (λ e. omega (arith, e, third_byte))

-- Two agents, a running runtime.
abbrev pair : AgentRuntime in_memory_transport counters
pair = record {
  agents = (codes "a", counter (codes "a")) ∷ (codes "b", counter (codes "b")) ∷ [];
  transport = [];
  running = true;
  next_id = 5;
}

abbrev busy : AgentRuntime in_memory_transport counters
busy = record pair { transport = first_note ∷ note 8 (codes "x") ∷ note 9 (codes "a") ∷ [] }

drain-deliver_example :
    Drained in_memory_transport in_memory-IsFifo counters busy
      (deliver counters busy.agents busy.transport).0
      (deliver counters busy.agents busy.transport).1
      (drain in_memory_transport counters 4 busy)
drain-deliver_example =
    drain-deliver in_memory_transport in_memory-IsFifo counters 4 busy busy.transport (omega arith)
      refl refl

abbrev ping : Event
ping = record { name = codes "ping"; payload = [] }

abbrev busy_day : List (Calls.Call in_memory_transport counters)
busy_day =
    Calls.Call.registers (some (counter (codes "a")))
    ∷ Calls.Call.registers (some (counter (codes "a")))
    ∷ Calls.Call.registers (some (counter (codes "b")))
    ∷ Calls.Call.starts
    ∷ Calls.Call.broadcasts (codes "a") ping
    ∷ Calls.Call.drains 3
    ∷ Calls.Call.unregisters (codes "a")
    ∷ Calls.Call.unregisters (codes "a")
    ∷ []

-- Agent b, started, has met one message.
abbrev evening : Calls.Tally in_memory_transport counters
evening = record {
  runtime = record {
    agents = (codes "b", record { agent_name = codes "b"; started = 1; met = 1 }) ∷ [];
    transport = [];
    running = true;
    next_id = 3;
  };
  added = 2;
  removed = 1;
}

run-Balanced_example : Calls.Balanced in_memory_transport counters evening
unfolding Calls.run register_agent lookup insert erase start broadcast_event publish_event send
    event_message drain run_once dispatch unregister_agent push take_front is_empty ◌==ᵇ◌
run-Balanced_example = Calls.run-Balanced in_memory_transport counters [] busy_day evening refl

abbrev newcomer : Counter
newcomer = counter (codes "c")

register_agent_cases_example :
    ((register_agent in_memory_transport counters pair (some newcomer)
        ≡ (registered in_memory_transport counters pair newcomer, success))
      × (codes "c" ≢ [])
      × (lookup (codes "c") pair.agents ≡ none))
    ⊎ (((register_agent in_memory_transport counters pair (some newcomer)).0 ≡ pair)
        × ((register_agent in_memory_transport counters pair (some newcomer)).1.ok ≡ false)
        × ((((register_agent in_memory_transport counters pair (some newcomer)).1.code
                ≡ ErrorCode.invalid_argument)
              × (codes "c" ≡ []))
            ⊎ (((register_agent in_memory_transport counters pair (some newcomer)).1.code
                  ≡ ErrorCode.agent_already_exists)
                × (has_agent in_memory_transport counters pair (codes "c") ≡ true))))
register_agent_cases_example = register_agent_cases in_memory_transport counters pair newcomer

c_absent : lookup (codes "c") pair.agents ≡ none
unfolding lookup ◌==ᵇ◌
c_absent = refl

abbrev first_byte : Bytes → ℕ
first_byte xs = get_or xs 0 0

pair-IsValid : Agents.IsValid in_memory_transport counters pair
pair-IsValid = record {
  distinct = ((λ e. absurd (omega (arith, ap first_byte e)), tt), (tt, tt));
  named = (λ e. cc, (λ e. cc, tt));
  id_fits = omega arith;
}

abbrev idle : AgentRuntime in_memory_transport counters
idle = record pair { running = false }

All-sendable : All (λ m. Unit {0}) (addressed 5 (codes "a") ping (codes "a" ∷ codes "b" ∷ []))
unfolding addressed
All-sendable = (tt, (tt, tt))

drain-broadcast_event_example :
    Drained in_memory_transport in_memory-IsFifo counters
      (broadcast_event in_memory_transport counters pair (codes "a") ping).0
      (heard counters 5 (codes "a") ping pair.agents)
      []
      (drain in_memory_transport counters 3
        (broadcast_event in_memory_transport counters pair (codes "a") ping).0)
drain-broadcast_event_example =
    drain-broadcast_event in_memory_transport in_memory-IsFifo counters 3 pair (codes "a") ping
      (omega arith) refl
      (((λ e. omega (arith, ap (λ (xs : List ℕ). get_or xs 0 0) e)), tt), (tt, tt)) (omega arith)
      refl All-sendable
