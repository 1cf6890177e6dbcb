-- ===== src/Core/Frame.antt =====
-- core/src/frame.cpp: a payload between a header (magic and size) and a checksum. `decode` returns
-- the payload also when its checksum is wrong, as the C++ function does.
pub mod RoundTrip
pub mod Sound
pub mod Checksum
pub mod Integrity
use Prim.Native.String.{String}
use galculus.Common.{
  ℕ, ◌+◌, ◌-◌, ◌%◌, ◌^◌, Option, none, some, List, [], ◌∷◌, ◌++◌, ltb, leb, ◌==◌, if◌then◌else◌,
  length, take, drop, codes,
}
use galculus.Core.Wire.{Bytes, size_t, word_at, write_u32}
use galculus.Core.Flow.{next, ◌>>=◌, ◌>>◌, returned, or_return, unless_return}
use galculus.Core.Message.{ErrorCode, Result, success, failure}

abbrev pub magic : ℕ
magic = 0x47464D45

pub record FrameDecodeResult : Type 0 where
  pub result : Result
  pub payload : Bytes

-- `sum += byte`, in 32 bits.
checksum_from : ℕ → Bytes → ℕ
checksum_from sum [] = sum
checksum_from sum (byte ∷ rest) = checksum_from ((sum + byte) % 2 ^ 32) rest

unfoldable pub checksum : Bytes → ℕ
unfolding checksum_from
checksum bytes = checksum_from 0 bytes

unfoldable pub encode : Bytes → Bytes
encode payload =
    let header = write_u32 (write_u32 [] magic) (length payload % 2 ^ 32) in
    write_u32 (header ++ payload) (checksum payload)

-- This `read_u32` leaves the offset alone.
unfoldable pub read_u32 : Bytes → ℕ → Option ℕ
read_u32 bytes offset =
    if ltb (length bytes) (size_t (offset + 4)) then none else some (word_at bytes offset)

abbrev pub failed : Bytes → String → FrameDecodeResult
failed payload why = record {
  result = failure ErrorCode.invalid_argument (codes why);
  payload = payload;
}

unfoldable pub decode : Bytes → FrameDecodeResult
decode frame = returned do
  got_magic ← or_return (read_u32 frame 0) (failed [] "frame decode failed: missing magic")
  unless_return (got_magic == magic) (failed [] "frame decode failed: invalid magic")
  size ← or_return (read_u32 frame 4) (failed [] "frame decode failed: missing size")
  let checksum_start = size_t (8 + size)
  unless_return (leb (size_t (checksum_start + 4)) (length frame))
      (failed [] "frame decode failed: incomplete frame")
  let payload = take (checksum_start - 8) (drop 8 frame)
  expected ←
      or_return (read_u32 frame checksum_start)
        (failed payload "frame decode failed: missing checksum")
  unless_return (checksum payload == expected)
      (failed payload "frame decode failed: checksum mismatch")
  next (record { result = success; payload = payload })
