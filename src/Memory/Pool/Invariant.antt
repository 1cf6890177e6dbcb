-- ===== src/Memory/Pool/Invariant.antt =====
-- The state of the pool that its constructor sets up and its operations keep.
use galculus.Common.{
  ℕ, zero, suc, ◌+◌, ◌*◌, ◌/◌, ◌%◌, ◌^◌, ◌≤◌, ◌<◌, ◌≡◌, ◌≢◌, refl, sym, ap, ◌∙◌, arith, Bool, true,
  false, not, ◌||◌, leb, ◌==◌, if_elim, List, [], ◌∷◌, get_or, set, length, replicate, length-set,
}
use native.Mathlib.Decide.{ℕ_discrete}
use galculus.Memory.Words.{sub64, MemoryBlock}
use galculus.Memory.Pool.{
  FixedBlockPool, new, pop_block, taken, returned, allocate, owns_pointer, free_block,
}
use galculus.Memory.Pool.Marks.{
  bit, occurrences, trues, trues-le, trues-set, trues-lt, trues-replicate, get_or-set_self,
  get_or-set_ne, get_or-false-lt, get_or-replicate, occurrences_push,
}

-- Each index is free once or allocated, and the counters count the allocated ones.
pub record IsValid (p : FixedBlockPool) : Type 0 where
  pub flags : length p.allocated ≡ p.block_count
  pub partition : (i : ℕ) → occurrences i p.free_indices + bit (get_or p.allocated i true) ≡ 1
  pub used : p.used_blocks ≡ trues p.allocated
  pub peak : p.used_blocks ≤ p.peak_used_blocks
  pub peak_within : p.peak_used_blocks ≤ p.block_count
  pub sized : p.storage_size ≡ p.block_size * p.block_count
  pub mapped : 0 < p.storage
  pub addressable : p.storage + p.storage_size < 2 ^ 64
  pub counted : p.block_count < 2 ^ 64

length-replicate : (n : ℕ) → length (replicate n false) ≡ n
length-replicate zero = refl
length-replicate (suc n) = ap suc (length-replicate n)

-- The constructor's pool, over storage at an address that leaves room for it.
pub new-IsValid :
    (storage block_size block_count : ℕ)
    → 0 < storage
    → storage + block_size * block_count < 2 ^ 64
    → block_count < 2 ^ 64
    → IsValid (new storage block_size block_count)
unfolding new
new-IsValid storage block_size block_count h1 h2 h3 = record {
  flags = length-replicate block_count;
  partition = λ i. omega (
    arith,
    get_or-replicate block_count i,
    occurrences_push block_count block_count i [] (omega arith),
  );
  used = sym (trues-replicate block_count);
  peak = omega arith;
  peak_within = omega arith;
  sized = omega arith;
  mapped = h1;
  addressable = omega arith;
  counted = h3;
}

bit_zero : (b : Bool) → bit b ≡ 0 → b ≡ false
bit_zero true e = absurd (omega arith)
bit_zero false e = refl

bit_eq : (i j : ℕ) → j ≡ i → bit (i == j) ≡ 1
bit_eq i j e = ground arith

bit_ne : (i j : ℕ) → j ≢ i → bit (i == j) ≡ 0
bit_ne i j n = ground arith

-- A flag that changes, and the index that leaves or joins the free list with it.
bit-set :
    (i index : ℕ) (flags : List Bool) (b : Bool)
    → index < length flags
    → bit (get_or (set flags index b) i true) + bit (i == index) * bit (get_or flags index true)
      ≡ bit (get_or flags i true) + bit (i == index) * bit b
bit-set i index flags b lt = elim (ℕ_discrete index i) [
  | yes same ↦ grind (
    arith,
    bit_eq i index same,
    ap bit (get_or-set_self flags index b lt),
    ap (λ j. bit (get_or (set flags index b) j true)) same,
    ap (λ j. bit (get_or flags j true)) same,
  )
  | no other ↦ grind (arith, bit_ne i index other, ap bit (get_or-set_ne flags index i b other))
]

mark :
    (i index : ℕ) (free : List ℕ) (flags : List Bool)
    → get_or flags index true ≡ false
    → occurrences i (index ∷ free) + bit (get_or flags i true) ≡ 1
    → occurrences i free + bit (get_or (set flags index true) i true) ≡ 1
mark i index free flags e h =
    grind (arith, bit-set i index flags true (get_or-false-lt flags index e), ap bit e)

unmark :
    (i index : ℕ) (free : List ℕ) (flags : List Bool)
    → index < length flags
    → get_or flags index true ≡ true
    → occurrences i free + bit (get_or flags i true) ≡ 1
    → occurrences i (index ∷ free) + bit (get_or (set flags index false) i true) ≡ 1
unmark i index free flags lt e h = grind (arith, bit-set i index flags false lt, ap bit e)

pub head_free :
    (p : FixedBlockPool) (index : ℕ) (rest : List ℕ)
    → IsValid p
    → p.free_indices ≡ index ∷ rest
    → get_or p.allocated index true ≡ false
head_free p index rest v e =
    bit_zero (get_or p.allocated index true)
      (omega (arith, v.partition index, ap (occurrences index) e, bit_eq index index refl))

pub taken-IsValid :
    (p : FixedBlockPool) (index : ℕ) (rest : List ℕ)
    → IsValid p
    → p.free_indices ≡ index ∷ rest
    → IsValid (taken p index rest)
unfolding taken
taken-IsValid p index rest v e =
    let free = head_free p index rest v e in
    let counts = trues-set p.allocated index true (get_or-false-lt p.allocated index free) in
    let room = trues-lt p.allocated index free in
    let used : p.used_blocks + 1 ≡ trues (set p.allocated index true) =
      omega (arith, counts, ap bit free, v.used) in
    record {
      flags = length-set p.allocated index true ∙ v.flags;
      partition = λ i.
          mark i index rest p.allocated free
            (ap (λ xs. occurrences i xs + bit (get_or p.allocated i true)) (sym e) ∙ v.partition i);
      used = omega (arith, used, room, v.used, v.flags, v.counted);
      peak = omega arith;
      peak_within = omega (arith, room, v.used, v.flags, v.counted, v.peak_within);
      sized = v.sized;
      mapped = v.mapped;
      addressable = v.addressable;
      counted = v.counted;
    }

returned-IsValid :
    (p : FixedBlockPool) (index : ℕ)
    → IsValid p
    → index < p.block_count
    → get_or p.allocated index true ≡ true
    → IsValid (returned p index)
unfolding returned
returned-IsValid p index v lt e =
    let within : index < length p.allocated = omega (arith, v.flags) in
    let counts = trues-set p.allocated index false within in
    let bound = trues-le p.allocated in
    record {
      flags = length-set p.allocated index false ∙ v.flags;
      partition = λ i. unmark i index p.free_indices p.allocated within e (v.partition i);
      used = omega (arith, counts, ap bit e, bound, v.used, v.flags, v.counted);
      peak = omega (arith, counts, ap bit e, bound, v.used, v.flags, v.counted, v.peak);
      peak_within = v.peak_within;
      sized = v.sized;
      mapped = v.mapped;
      addressable = v.addressable;
      counted = v.counted;
    }

pop_block-IsValid :
    (p : FixedBlockPool) (indices : List ℕ)
    → IsValid p
    → p.free_indices ≡ indices
    → IsValid (pop_block p indices).0
unfolding pop_block
pop_block-IsValid p [] v e = v
pop_block-IsValid p (index ∷ rest) v e =
    if_elim (λ (o : FixedBlockPool × MemoryBlock). IsValid o.0)
      (p.block_size == 0 || p.block_count == 0) (λ _. v) (λ _. taken-IsValid p index rest v e)

pub allocate-IsValid : (p : FixedBlockPool) → IsValid p → IsValid (allocate p).0
unfolding allocate
allocate-IsValid p v = pop_block-IsValid p p.free_indices v refl

pub free_block-IsValid : (p : FixedBlockPool) (ptr : ℕ) → IsValid p → IsValid (free_block p ptr).0
unfolding free_block
free_block-IsValid p ptr v =
    let index = sub64 ptr p.storage / p.block_size in
    let Kept : FixedBlockPool × Bool → Type 0 = λ o. IsValid o.0 in
    if_elim Kept (not (owns_pointer p ptr)) (λ _. v)
      (λ _.
        if_elim Kept (not (sub64 ptr p.storage % p.block_size == 0)) (λ _. v)
          (λ _.
            if_elim Kept (leb p.block_count index || not (get_or p.allocated index true)) (λ _. v)
              (λ e. returned-IsValid p index v (ground arith) (ground arith))))

-- A client's calls.
pub data Call : Type 0 where
  allocates : Call
  frees : ℕ → Call

unfoldable pub step : FixedBlockPool → Call → FixedBlockPool
step p allocates = (allocate p).0
step p (frees ptr) = (free_block p ptr).0

unfoldable pub run : FixedBlockPool → List Call → FixedBlockPool
run p [] = p
run p (c ∷ cs) = run (step p c) cs

run_from-IsValid : (p : FixedBlockPool) (calls : List Call) → IsValid p → IsValid (run p calls)
unfolding run step
run_from-IsValid p [] v = v
run_from-IsValid p (allocates ∷ cs) v = run_from-IsValid (allocate p).0 cs (allocate-IsValid p v)
run_from-IsValid p (frees ptr ∷ cs) v =
    run_from-IsValid (free_block p ptr).0 cs (free_block-IsValid p ptr v)

-- After any calls on a new pool whose storage lies in the address space, each index is in the free
-- list once or allocated, and the counters agree with the flags.
pub run_pool-IsValid :
    (storage block_size block_count : ℕ) (calls : List Call)
    → 0 < storage
    → storage + block_size * block_count < 2 ^ 64
    → block_count < 2 ^ 64
    → IsValid (run (new storage block_size block_count) calls)
run_pool-IsValid storage block_size block_count calls h1 h2 h3 =
    run_from-IsValid (new storage block_size block_count) calls
      (new-IsValid storage block_size block_count h1 h2 h3)
