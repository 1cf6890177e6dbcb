-- ===== src/Memory/Pool.antt =====
-- memory/src/FixedBlockPool.cpp: equal blocks, a stack of the free indices and a flag per block.
-- `storage` is the address of `storage_.data()`; the head of `free_indices` is the vector's back.
pub mod Marks
pub mod Invariant
pub mod Blocks
use galculus.Common.{
  ℕ, zero, suc, ◌+◌, ◌-◌, ◌*◌, ◌/◌, ◌%◌, max, Bool, true, false, not, ◌&&◌, ◌||◌, ltb, leb, ◌==◌,
  if◌then◌else◌, List, [], ◌∷◌, get_or, set, replicate,
}
use galculus.Memory.Words.{u64, sub64, MemoryBlock, no_block, MemoryStats}

pub record FixedBlockPool : Type 0 where
  pub block_size : ℕ
  pub block_count : ℕ
  pub storage : ℕ
  pub storage_size : ℕ
  pub free_indices : List ℕ
  pub allocated : List Bool
  pub used_blocks : ℕ
  pub peak_used_blocks : ℕ

-- The loop of the constructor, with `left` iterations to go: `i` is `block_count - left`.
unfoldable pub push_indices : ℕ → ℕ → List ℕ → List ℕ
push_indices block_count zero indices = indices
push_indices block_count (suc left) indices =
    push_indices block_count left ((block_count - 1 - (block_count - suc left)) ∷ indices)

unfoldable pub new : ℕ → ℕ → ℕ → FixedBlockPool
new storage block_size block_count = record {
  block_size = block_size;
  block_count = block_count;
  storage = storage;
  storage_size = u64 (block_size * block_count);
  free_indices = push_indices block_count block_count [];
  allocated = replicate block_count false;
  used_blocks = 0;
  peak_used_blocks = 0;
}

-- `free_indices_.pop_back()` of `index`, and the bookkeeping after it.
unfoldable pub taken : FixedBlockPool → ℕ → List ℕ → FixedBlockPool
taken p index rest = record p {
  free_indices = rest;
  allocated = set p.allocated index true;
  used_blocks = u64 (p.used_blocks + 1);
  peak_used_blocks = max p.peak_used_blocks (u64 (p.used_blocks + 1));
}

unfoldable pub block_at : FixedBlockPool → ℕ → MemoryBlock
block_at p index = record {
  ptr = u64 (p.storage + u64 (index * p.block_size));
  size = p.block_size;
}

unfoldable pub pop_block : FixedBlockPool → List ℕ → FixedBlockPool × MemoryBlock
pop_block p [] = (p, no_block)
pop_block p (index ∷ rest) =
    if p.block_size == 0 || p.block_count == 0
    then (p, no_block)
    else (taken p index rest, block_at p index)

unfoldable pub allocate : FixedBlockPool → FixedBlockPool × MemoryBlock
allocate p = pop_block p p.free_indices

unfoldable pub owns_pointer : FixedBlockPool → ℕ → Bool
owns_pointer p ptr =
    if ptr == 0 || p.storage_size == 0
    then false
    else leb p.storage ptr && ltb ptr (p.storage + p.storage_size)

unfoldable pub returned : FixedBlockPool → ℕ → FixedBlockPool
returned p index = record p {
  allocated = set p.allocated index false;
  free_indices = index ∷ p.free_indices;
  used_blocks = sub64 p.used_blocks 1;
}

unfoldable pub free_block : FixedBlockPool → ℕ → FixedBlockPool × Bool
free_block p ptr =
    let offset = sub64 ptr p.storage in
    let index = offset / p.block_size in
    if not (owns_pointer p ptr)
    then (p, false)
    else if not (offset % p.block_size == 0)
    then (p, false)
    else if leb p.block_count index || not (get_or p.allocated index true)
    then (p, false)
    else (returned p index, true)

unfoldable pub stats : FixedBlockPool → MemoryStats
stats p =
    let capacity_bytes = u64 (p.block_size * p.block_count) in
    let used_bytes = u64 (p.block_size * p.used_blocks) in
    record {
      capacity = capacity_bytes;
      used = used_bytes;
      free = sub64 capacity_bytes used_bytes;
      peak_used = u64 (p.block_size * p.peak_used_blocks);
    }

unfoldable pub free_blocks : FixedBlockPool → ℕ
free_blocks p = sub64 p.block_count p.used_blocks
