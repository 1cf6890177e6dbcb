-- ===== src/Core/Message.antt =====
-- core/include/galculus/core: result.hpp, event.hpp and message.hpp. A `std::string` is the list of
-- its bytes, as a payload is.
use galculus.Common.{ℕ, Bool, true, false, [], ◌<◌, ◌^◌}
use galculus.Core.Wire.{Bytes, IsField}

pub data ErrorCode : Type 0 where
  no_error invalid_argument agent_already_exists agent_not_found : ErrorCode
  runtime_not_running transport_error : ErrorCode

pub record Result : Type 0 where
  pub ok : Bool
  pub code : ErrorCode
  pub message : Bytes

abbrev pub success : Result
success = record { ok = true; code = ErrorCode.no_error; message = [] }

abbrev pub failure : ErrorCode → Bytes → Result
failure code message = record { ok = false; code = code; message = message }

pub record Event : Type 0 where
  pub name : Bytes
  pub payload : Bytes

-- `Event::text`: the bytes of the text are the payload.
unfoldable pub text : Bytes → Bytes → Event
text name content = record { name = name; payload = content }

unfoldable pub payload_as_string : Event → Bytes
payload_as_string e = e.payload

-- `enum class MessageType : std::uint8_t`. A cast can give it any value of that type, so it is a
-- number, with a name for each enumerator.
abbrev pub MessageType : Type 0
MessageType = ℕ

abbrev pub event_type : MessageType
event_type = 0

abbrev pub command_type : MessageType
command_type = 1

abbrev pub error_type : MessageType
error_type = 2

abbrev pub telemetry_type : MessageType
telemetry_type = 3

pub record Message : Type 0 where
  pub id : ℕ
  pub type : MessageType
  pub source : Bytes
  pub target : Bytes
  pub event : Event

-- `Message{}`
abbrev pub blank : Message
blank = record {
  id = 0;
  type = event_type;
  source = [];
  target = [];
  event = record { name = []; payload = [] };
}

unfoldable pub event_message : ℕ → Bytes → Bytes → Event → Message
event_message id source target event = record {
  id = id;
  type = event_type;
  source = source;
  target = target;
  event = event;
}

unfoldable pub text_event : ℕ → Bytes → Bytes → Bytes → Bytes → Message
unfolding event_message text
text_event id source target name content = event_message id source target (text name content)

-- The values that the C++ types admit, each string short enough for its size field.
pub record IsMessage (m : Message) : Type 0 where
  pub id_fits : m.id < 2 ^ 64
  pub type_fits : m.type < 256
  pub source_fits : IsField m.source
  pub target_fits : IsField m.target
  pub name_fits : IsField m.event.name
  pub payload_fits : IsField m.event.payload
