-- ===== src/Memory/Arena/Blocks.antt =====
-- What `MemoryArena::allocate` hands out: aligned blocks, one after the other, inside the buffer.
use galculus.Common.{
  ℕ, ◌+◌, ◌%◌, ◌^◌, ◌≤◌, ◌<◌, ◌≡◌, refl, arith, true, not, ◌||◌, ltb, ◌==◌, List, [], ◌∷◌, max,
  if_elim, sym, All, ◌∙◌,
}
use mathlib.Core.Path.{subst}
use galculus.Memory.Words.{u64, sub64, MemoryBlock, no_block}
use galculus.Memory.Arena.{MemoryArena, IsValid, align_up, is_power_of_two, allocate}
use galculus.Memory.Arena.Align.{IsAligned, align_up-IsAligned}

-- A request of `size` bytes at `alignment`.
pub record Request : Type 0 where
  pub size : ℕ
  pub alignment : ℕ

-- The request keeps the sums of `allocate` below `2 ^ 64`.
pub record IsModest (buffer capacity : ℕ) (r : Request) : Type 0 where
  pub address : buffer + capacity + r.alignment ≤ 2 ^ 64
  pub total : capacity + r.alignment + r.size < 2 ^ 64

-- The block that takes the arena from `a` to `b`.
pub record IsGranted (a : MemoryArena) (r : Request) (b : MemoryArena) (block : MemoryBlock)
    : Type 0 where
  pub same_buffer : b.buffer ≡ a.buffer
  pub same_capacity : b.capacity ≡ a.capacity
  pub sized : block.size ≡ r.size
  pub nonempty : 0 < block.size
  pub aligned : block.ptr % r.alignment ≡ 0
  pub starts : a.buffer + a.offset ≤ block.ptr
  pub padded : block.ptr < a.buffer + a.offset + r.alignment
  pub ends : block.ptr + block.size ≡ b.buffer + b.offset
  pub peak : b.peak_used ≡ max a.peak_used b.offset
  pub valid : IsValid b

pub data Outcome (a : MemoryArena) (r : Request) : MemoryArena × MemoryBlock → Type 0 where
  refused : Outcome a r (a, no_block)
  granted : (b : MemoryArena) (block : MemoryBlock) → IsGranted a r b block → Outcome a r (b, block)

abbrev next_offset : MemoryArena → Request → ℕ
next_offset a r =
    let current = u64 (a.buffer + a.offset) in
    u64 (u64 (a.offset + sub64 (align_up current r.alignment) current) + r.size)

no_wrap :
    (base offset room size alignment aligned : ℕ)
    → base + offset ≤ aligned
    → aligned < base + offset + alignment
    → offset ≤ room
    → base + room + alignment ≤ 2 ^ 64
    → room + alignment + size < 2 ^ 64
    → base + u64 (u64 (offset + sub64 aligned (u64 (base + offset))) + size) ≡ aligned + size
no_wrap base offset room size alignment aligned h1 h2 h3 h4 h5 = omega arith

grant :
    (a : MemoryArena) (r : Request) (new_offset : ℕ)
    → IsValid a
    → 0 < r.size
    → IsAligned (a.buffer + a.offset) r.alignment (align_up (u64 (a.buffer + a.offset)) r.alignment)
    → a.buffer + new_offset ≡ align_up (u64 (a.buffer + a.offset)) r.alignment + r.size
    → new_offset ≤ a.capacity
    → IsGranted a r
        (record a { offset = new_offset; peak_used = max a.peak_used new_offset })
        (record { ptr = align_up (u64 (a.buffer + a.offset)) r.alignment; size = r.size })
grant a r n v pos al e fits = record {
  same_buffer = refl;
  same_capacity = refl;
  sized = refl;
  nonempty = pos;
  aligned = al.multiple;
  starts = al.above;
  padded = al.near;
  ends = sym e;
  peak = refl;
  valid = record {
    within = omega arith;
    peak_within = omega (arith, v.peak_within);
    addressable = v.addressable;
  };
}

placed :
    (a : MemoryArena) (r : Request)
    → IsValid a
    → IsModest a.buffer a.capacity r
    → is_power_of_two r.alignment ≡ true
    → IsAligned (a.buffer + a.offset) r.alignment (align_up (u64 (a.buffer + a.offset)) r.alignment)
placed a r v m power =
    let al =
      align_up-IsAligned (u64 (a.buffer + a.offset)) r.alignment (omega (arith, m.total)) power
        (omega (arith, m.address, v.within, v.peak_within)) in
    record {
      above = omega (arith, al.above, m.address, v.within, v.peak_within);
      near = omega (arith, al.near, m.address, v.within, v.peak_within);
      multiple = al.multiple;
    }

-- An allocation on a valid arena, with sums below 2 ^ 64, hands out an aligned block of the
-- requested size behind the bytes in use, less than one alignment further, and keeps the arena
-- valid, or changes nothing.
pub allocate-Outcome :
    (a : MemoryArena) (r : Request)
    → IsValid a
    → IsModest a.buffer a.capacity r
    → Outcome a r (allocate a r.size r.alignment)
unfolding allocate
allocate-Outcome a r v m =
    if_elim (Outcome a r) (a.buffer == 0 || r.size == 0) (λ e. refused)
      (λ e1.
        if_elim (Outcome a r) (r.alignment == 0 || not (is_power_of_two r.alignment)) (λ e. refused)
          (λ e2.
            if_elim (Outcome a r) (ltb a.capacity (next_offset a r)) (λ e. refused)
              (λ e3.
                let al = placed a r v m (ground arith) in
                granted _ _ (
                  grant a r (next_offset a r) v (ground arith) al
                    (no_wrap a.buffer a.offset a.capacity r.size r.alignment _ al.above al.near
                      (omega (arith, v.within, v.peak_within)) m.address m.total)
                    (ground arith)))))

-- A sequence of requests, and the blocks handed out.
unfoldable pub allocate_all : MemoryArena → List Request → List MemoryBlock
allocate_all a [] = []
allocate_all a (r ∷ rs) =
    let (b, block) = allocate a r.size r.alignment in block ∷ allocate_all b rs

-- Blocks in the order of their addresses, with no overlap, between two addresses.
pub data Apart : ℕ → ℕ → List MemoryBlock → Type 0 where
  none_left : {low high : ℕ} → low ≤ high → Apart low high []
  refused :
      {low high : ℕ} {blocks : List MemoryBlock}
      → Apart low high blocks
      → Apart low high (no_block ∷ blocks)
  granted :
      {low high : ℕ} (block : MemoryBlock) {blocks : List MemoryBlock}
      → low ≤ block.ptr
      → Apart (block.ptr + block.size) high blocks
      → Apart low high (block ∷ blocks)

first-Apart :
    (base room : ℕ) (a : MemoryArena) (r : Request) (rs : List Request)
    (o : MemoryArena × MemoryBlock)
    → Outcome a r o
    → a.buffer ≡ base
    → a.capacity ≡ room
    → IsValid a
    → ((b : MemoryArena)
        → b.buffer ≡ base
        → b.capacity ≡ room
        → IsValid b
        → Apart (base + b.offset) (base + room) (allocate_all b rs))
    → Apart (base + a.offset) (base + room) (o.1 ∷ allocate_all o.0 rs)
first-Apart base room a r rs o refused e1 e2 v rest = refused (rest a e1 e2 v)
first-Apart base room a r rs o (granted b block g) e1 e2 v rest =
    let same : b.buffer ≡ base = g.same_buffer ∙ e1 in
    granted block (omega (arith, g.starts, e1)) (
      subst (λ (t : ℕ). Apart t (base + room) (allocate_all b rs)) (omega (arith, g.ends, same))
        (rest b same (g.same_capacity ∙ e2) g.valid))

run-Apart :
    (base room : ℕ) (a : MemoryArena) (rs : List Request)
    → a.buffer ≡ base
    → a.capacity ≡ room
    → IsValid a
    → All (IsModest base room) rs
    → Apart (base + a.offset) (base + room) (allocate_all a rs)
unfolding allocate_all
run-Apart base room a [] e1 e2 v ms = none_left (omega (arith, e2, v.within, v.peak_within))
run-Apart base room a (r ∷ rs) e1 e2 v ms =
    first-Apart base room a r rs (allocate a r.size r.alignment)
      (allocate-Outcome a r v (record {
        address = omega (arith, ms.0.address, e1, e2);
        total = omega (arith, ms.0.total, e2);
      }))
      e1 e2 v (λ b f1 f2 w. run-Apart base room b rs f1 f2 w ms.1)

-- The blocks that an arena hands out for any sequence of requests that keep its sums below 2 ^ 64
-- lie in the unused part of its buffer, each behind the one before.
pub allocate_all-Apart :
    (a : MemoryArena) (rs : List Request)
    → IsValid a
    → All (IsModest a.buffer a.capacity) rs
    → Apart (a.buffer + a.offset) (a.buffer + a.capacity) (allocate_all a rs)
allocate_all-Apart a rs v ms = run-Apart a.buffer a.capacity a rs refl refl v ms
