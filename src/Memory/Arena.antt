-- ===== src/Memory/Arena.antt =====
-- memory/src/MemoryArena.cpp and ScratchBuffer.cpp: a bump allocator over one buffer.
pub mod Align
pub mod Blocks
pub mod Wrap
use Prim.Native.Nat.{bit_and}
use galculus.Common.{
  ℕ, ◌+◌, ◌-◌, ◌^◌, ◌≤◌, ◌<◌, max, Bool, not, ◌&&◌, ◌||◌, ltb, ◌==◌, if◌then◌else◌,
}
use galculus.Memory.Words.{u64, sub64, complement, MemoryBlock, no_block, MemoryStats}

pub record MemoryArena : Type 0 where
  pub buffer : ℕ
  pub capacity : ℕ
  pub offset : ℕ
  pub peak_used : ℕ

unfoldable pub new : ℕ → ℕ → MemoryArena
new buffer capacity = record { buffer = buffer; capacity = capacity; offset = 0; peak_used = 0 }

unfoldable pub is_power_of_two : ℕ → Bool
is_power_of_two value = not (value == 0) && bit_and value (sub64 value 1) == 0

-- `(current + alignment - 1) & ~(alignment - 1)`
unfoldable pub align_up : ℕ → ℕ → ℕ
align_up current alignment =
    bit_and (sub64 (u64 (current + alignment)) 1) (complement (sub64 alignment 1))

unfoldable pub allocate : MemoryArena → ℕ → ℕ → MemoryArena × MemoryBlock
allocate a size alignment =
    let current = u64 (a.buffer + a.offset) in
    let aligned = align_up current alignment in
    let padding = sub64 aligned current in
    let new_offset = u64 (u64 (a.offset + padding) + size) in
    if a.buffer == 0 || size == 0
    then (a, no_block)
    else if alignment == 0 || not (is_power_of_two alignment)
    then (a, no_block)
    else if ltb a.capacity new_offset
    then (a, no_block)
    else (
      record a { offset = new_offset; peak_used = max a.peak_used new_offset },
      record { ptr = aligned; size = size },
    )

unfoldable pub reset : MemoryArena → MemoryArena
reset a = record a { offset = 0 }

unfoldable pub stats : MemoryArena → MemoryStats
stats a = record {
  capacity = a.capacity;
  used = a.offset;
  free = sub64 a.capacity a.offset;
  peak_used = a.peak_used;
}

-- The offset and the peak lie in the buffer, and the buffer in the address space.
pub record IsValid (a : MemoryArena) : Type 0 where
  pub within : a.offset ≤ a.peak_used
  pub peak_within : a.peak_used ≤ a.capacity
  pub addressable : a.buffer + a.capacity < 2 ^ 64
