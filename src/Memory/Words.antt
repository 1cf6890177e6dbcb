-- ===== src/Memory/Words.antt =====
-- 64-bit arithmetic, memory/include/galculus/memory/MemoryBlock.hpp and MemoryStats.hpp.
use galculus.Common.{ℕ, ◌+◌, ◌-◌, ◌%◌, ◌^◌, Bool, not, ◌&&◌, ltb, ◌==◌}

abbrev pub u64 : ℕ → ℕ
u64 n = n % 2 ^ 64

-- `a - b`, which wraps.
abbrev pub sub64 : ℕ → ℕ → ℕ
sub64 a b = (a + 2 ^ 64 - b) % 2 ^ 64

-- `~a`
abbrev pub complement : ℕ → ℕ
complement a = 2 ^ 64 - 1 - a

pub record MemoryBlock : Type 0 where
  pub ptr : ℕ
  pub size : ℕ

-- `return {};`
abbrev pub no_block : MemoryBlock
no_block = record { ptr = 0; size = 0 }

-- `operator bool`
unfoldable pub is_block : MemoryBlock → Bool
is_block b = not (b.ptr == 0) && ltb 0 b.size

pub record MemoryStats : Type 0 where
  pub capacity : ℕ
  pub used : ℕ
  pub free : ℕ
  pub peak_used : ℕ
