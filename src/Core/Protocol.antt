-- ===== src/Core/Protocol.antt =====
-- core/src/protocol.cpp: a message as bytes. `decode` returns the fields that it has read also when
-- it fails, as the C++ function does.
pub mod RoundTrip
pub mod Sound
pub mod Truncated
use Prim.Native.String.{String}
use galculus.Common.{
  ℕ, ◌+◌, ◌%◌, ◌^◌, Bool, true, false, Option, none, some, [], ◌∷◌, ◌++◌, ltb, ◌==◌, if◌then◌else◌,
  length, get_or, codes,
}
use galculus.Core.Wire.{
  Bytes, size_t, write_u16, write_u32, write_u64, write_bytes, read_u16, read_u32, read_u64,
  read_bytes,
}
use galculus.Core.Flow.{Flow, next, ◌>>=◌, ◌>>◌, returned, or_return, unless_return}
use galculus.Core.Message.{ErrorCode, Result, success, failure, Message, blank}

abbrev pub magic : ℕ
magic = 0x47434C43

abbrev pub version : ℕ
version = 1

pub record DecodeResult : Type 0 where
  pub result : Result
  pub message : Message

unfoldable pub encode : Message → Bytes
encode m =
    let head = write_u16 (write_u32 [] magic) version in
    let typed = head ++ (m.type % 256 ∷ []) in
    let identified = write_u64 typed m.id in
    let sent = write_bytes identified m.source in
    let addressed = write_bytes sent m.target in
    let named = write_bytes addressed m.event.name in write_bytes named m.event.payload

abbrev pub failed : Message → String → DecodeResult
failed m why = record { result = failure ErrorCode.invalid_argument (codes why); message = m }

-- The byte of the message type, unchecked.
unfoldable pub read_type : Bytes → ℕ → Option (ℕ × ℕ)
read_type bytes offset =
    if ltb (length bytes) (size_t (offset + 1))
    then none
    else some (get_or bytes offset 0, size_t (offset + 1))

unfoldable pub decode : Bytes → DecodeResult
decode bytes = returned do
  (got_magic, o1) ←
      or_return (read_u32 bytes 0) (failed blank "protocol decode failed: missing magic")
  unless_return (got_magic == magic) (failed blank "protocol decode failed: invalid magic")
  (got_version, o2) ←
      or_return (read_u16 bytes o1) (failed blank "protocol decode failed: missing version")
  unless_return (got_version == version)
      (failed blank "protocol decode failed: unsupported version")
  (type, o3) ←
      or_return (read_type bytes o2) (failed blank "protocol decode failed: missing message type")
  let typed = record blank { type = type }
  (id, o4) ←
      or_return (read_u64 bytes o3) (failed typed "protocol decode failed: missing message id")
  let identified = record typed { id = id }
  (source, o5) ←
      or_return (read_bytes bytes o4) (failed identified "protocol decode failed: invalid source")
  let sent = record identified { source = source }
  (target, o6) ←
      or_return (read_bytes bytes o5) (failed sent "protocol decode failed: invalid target")
  let addressed = record sent { target = target }
  (name, o7) ←
      or_return (read_bytes bytes o6)
        (failed addressed "protocol decode failed: invalid event name")
  let named = record addressed { event = record { name = name; payload = [] } }
  (payload, o8) ←
      or_return (read_bytes bytes o7) (failed named "protocol decode failed: invalid payload")
  next (record {
    result = success;
    message = record named { event = record { name = name; payload = payload } };
  })
