-- ===== src/Memory/Pool/Blocks.antt =====
-- What the pool promises its users: blocks come back, once, and it is exhausted when all are out.
use galculus.Common.{
  ℕ, zero, suc, ◌+◌, ◌*◌, ◌/◌, ◌%◌, ◌≤◌, ◌<◌, ◌≡◌, refl, sym, ap, ap₂, ◌∙◌, arith, max, Bool, true,
  false, not, ◌||◌, leb, ◌==◌, if_elim, List, [], ◌∷◌, get_or, set,
}
use native.Mathlib.Nat.{mul-mod_left, mul-div_cancel, mul-le-mul_right}
use galculus.Memory.Words.{u64, sub64, MemoryBlock, no_block}
use galculus.Memory.Pool.{
  FixedBlockPool, pop_block, taken, returned, block_at, allocate, owns_pointer, free_block,
}
use galculus.Memory.Pool.Marks.{
  bit, occurrences, trues-lt, trues_all, get_or-set_self, get_or-false-lt,
}
use galculus.Memory.Pool.Invariant.{IsValid, head_free, taken-IsValid}

set-set : (bs : List Bool) (i : ℕ) → get_or bs i true ≡ false → set (set bs i true) i false ≡ bs
set-set [] i e = refl
set-set (b ∷ bs) zero e = ap (λ c. c ∷ bs) (sym e)
set-set (b ∷ bs) (suc i) e = ap (◌∷◌ b) (set-set bs i e)

spread : (i b : ℕ) → suc i * b ≡ i * b + b
spread i b = ground arith

mul_swap : (c b : ℕ) → c * b ≡ b * c
mul_swap c b = ground arith

-- An address and the index of its block.
block_offset :
    (p : FixedBlockPool) (index : ℕ)
    → IsValid p
    → index < p.block_count
    → 0 < p.block_size
    → (index * p.block_size + p.block_size ≤ p.storage_size)
      × ((block_at p index).ptr ≡ p.storage + index * p.block_size)
unfolding block_at
block_offset p index v lt pos =
    let room : index * p.block_size + p.block_size ≤ p.storage_size = omega (
      arith,
      mul-le-mul_right {m = suc index} {n = p.block_count} p.block_size lt,
      v.sized,
      spread index p.block_size,
      mul_swap p.block_count p.block_size,
    ) in
    (room, omega (arith, room, v.addressable))

owns :
    (p : FixedBlockPool) (ptr : ℕ)
    → 0 < p.storage
    → p.storage ≤ ptr
    → ptr < p.storage + p.storage_size
    → owns_pointer p ptr ≡ true
unfolding owns_pointer
owns p ptr a b c = ground arith

-- The three checks of `free_block`, passed.
accepted :
    (p : FixedBlockPool) (ptr index : ℕ)
    → owns_pointer p ptr ≡ true
    → sub64 ptr p.storage % p.block_size ≡ 0
    → sub64 ptr p.storage / p.block_size ≡ index
    → index < p.block_count
    → get_or p.allocated index true ≡ true
    → free_block p ptr ≡ (returned p index, true)
unfolding free_block
accepted p ptr index mine exact at lt e =
    let Goal : FixedBlockPool × Bool → Type 0 = λ o. o ≡ (returned p index, true) in
    let flag = ap (λ i. get_or p.allocated i true) at ∙ e in
    let here = sub64 ptr p.storage / p.block_size in
    if_elim Goal (not (owns_pointer p ptr)) (λ no. absurd (ground arith))
      (λ _.
        if_elim Goal (not (sub64 ptr p.storage % p.block_size == 0)) (λ no. absurd (ground arith))
          (λ _.
            if_elim Goal (leb p.block_count here || not (get_or p.allocated here true))
              (λ no. absurd (ground arith)) (λ _. ap (λ i. (returned p i, true)) at)))

free_block_at :
    (p : FixedBlockPool) (index : ℕ)
    → IsValid p
    → index < p.block_count
    → get_or p.allocated index true ≡ true
    → 0 < p.block_size
    → free_block p (block_at p index).ptr ≡ (returned p index, true)
free_block_at p index v lt e pos =
    let (room, at) = block_offset p index v lt pos in
    let offset : sub64 (block_at p index).ptr p.storage ≡ index * p.block_size =
      omega (arith, room, at, v.addressable) in
    accepted p (block_at p index).ptr index
      (owns p (block_at p index).ptr v.mapped (omega (arith, at)) (omega (arith, at, room)))
      (ap (λ (t : ℕ). t % p.block_size) offset ∙ mul-mod_left index p.block_size)
      (ap (λ (t : ℕ). t / p.block_size) offset ∙ mul-div_cancel index pos) lt e

restored :
    (p : FixedBlockPool) (index : ℕ) (rest : List ℕ)
    → IsValid p
    → p.free_indices ≡ index ∷ rest
    → returned (taken p index rest) index
      ≡ record p { peak_used_blocks = max p.peak_used_blocks (p.used_blocks + 1) }
unfolding taken returned
restored p index rest v e =
    let free = head_free p index rest v e in
    let room = trues-lt p.allocated index free in
    ap₂
      (λ (fs : List ℕ) (bs : List Bool). record p {
        free_indices = fs;
        allocated = bs;
        used_blocks = sub64 (u64 (p.used_blocks + 1)) 1;
        peak_used_blocks = max p.peak_used_blocks (u64 (p.used_blocks + 1));
      })
      (sym e) (set-set p.allocated index free)
    ∙ ap₂ (λ (m n : ℕ). record p { used_blocks = m; peak_used_blocks = n })
        (omega (arith, room, v.used, v.flags, v.counted))
        (omega (arith, room, v.used, v.flags, v.counted))

pop-free_block :
    (p : FixedBlockPool) (indices : List ℕ)
    → IsValid p
    → p.free_indices ≡ indices
    → 0 < (pop_block p indices).1.size
    → free_block (pop_block p indices).0 (pop_block p indices).1.ptr
      ≡ (record p { peak_used_blocks = max p.peak_used_blocks (p.used_blocks + 1) }, true)
unfolding pop_block taken block_at
pop-free_block p [] v e = λ granted. absurd (omega arith)
pop-free_block p (index ∷ rest) v e =
    let Goal : FixedBlockPool × MemoryBlock → Type 0 = λ o.
      0 < o.1.size
      → free_block o.0 o.1.ptr
        ≡ (record p { peak_used_blocks = max p.peak_used_blocks (p.used_blocks + 1) }, true) in
    let lt = get_or-false-lt p.allocated index (head_free p index rest v e) in
    if_elim Goal (p.block_size == 0 || p.block_count == 0) (λ _ granted. absurd (omega arith))
      (λ _ granted.
        free_block_at (taken p index rest) index (taken-IsValid p index rest v e)
          (omega (arith, lt, v.flags)) (get_or-set_self p.allocated index true lt) granted
        ∙ ap (λ (q : FixedBlockPool). (q, true)) (restored p index rest v e))

-- Giving back the block that was just allocated leaves a valid pool as it was, but for its peak.
pub free_block-allocate :
    (p : FixedBlockPool)
    → IsValid p
    → 0 < (allocate p).1.size
    → free_block (allocate p).0 (allocate p).1.ptr
      ≡ (record p { peak_used_blocks = max p.peak_used_blocks (p.used_blocks + 1) }, true)
unfolding allocate
free_block-allocate p v granted = pop-free_block p p.free_indices v refl granted

refused_again :
    (p : FixedBlockPool) (ptr : ℕ)
    → IsValid p
    → sub64 ptr p.storage / p.block_size < p.block_count
    → free_block (returned p (sub64 ptr p.storage / p.block_size)) ptr
      ≡ (returned p (sub64 ptr p.storage / p.block_size), false)
unfolding free_block returned
refused_again p ptr v lt =
    let index = sub64 ptr p.storage / p.block_size in
    let q = returned p index in
    let Goal : FixedBlockPool × Bool → Type 0 = λ o. o ≡ (q, false) in
    let freed = get_or-set_self p.allocated index false (omega (arith, v.flags)) in
    if_elim Goal (not (owns_pointer q ptr)) (λ _. refl)
      (λ _.
        if_elim Goal (not (sub64 ptr p.storage % p.block_size == 0)) (λ _. refl)
          (λ _.
            if_elim Goal (leb p.block_count index || not (get_or q.allocated index true))
              (λ _. refl) (λ no. absurd (ground arith))))

-- On a valid pool a block that is given back twice in a row is refused the second time, and
-- nothing changes.
free_block_twice :
    (p : FixedBlockPool) (ptr : ℕ)
    → IsValid p
    → (free_block p ptr).1 ≡ true
    → free_block (free_block p ptr).0 ptr ≡ ((free_block p ptr).0, false)
unfolding free_block
free_block_twice p ptr v =
    let index = sub64 ptr p.storage / p.block_size in
    let Goal : FixedBlockPool × Bool → Type 0 =
      λ o. o.1 ≡ true → free_block o.0 ptr ≡ (o.0, false) in
    if_elim Goal (not (owns_pointer p ptr)) (λ _ e. cc)
      (λ _.
        if_elim Goal (not (sub64 ptr p.storage % p.block_size == 0)) (λ _ e. cc)
          (λ _.
            if_elim Goal (leb p.block_count index || not (get_or p.allocated index true))
              (λ _ e. cc) (λ ok e. refused_again p ptr v (ground arith))))

bit-true : (b : Bool) → bit b ≡ 1 → b ≡ true
bit-true true e = refl
bit-true false e = absurd (omega arith)

exhausted→full :
    (p : FixedBlockPool) (indices : List ℕ)
    → IsValid p
    → 0 < p.block_size
    → p.free_indices ≡ indices
    → (pop_block p indices).1.size ≡ 0
    → p.used_blocks ≡ p.block_count
unfolding pop_block block_at
exhausted→full p [] v pos e = λ _.
    v.used
    ∙ trues_all p.allocated (λ i.
      bit-true (get_or p.allocated i true) (omega (arith, v.partition i, ap (occurrences i) e)))
    ∙ v.flags
exhausted→full p (index ∷ rest) v pos e =
    let lt = get_or-false-lt p.allocated index (head_free p index rest v e) in
    if_elim (λ (o : FixedBlockPool × MemoryBlock). o.1.size ≡ 0 → p.used_blocks ≡ p.block_count)
      (p.block_size == 0 || p.block_count == 0) (λ b _. absurd (ground (arith, lt, v.flags)))
      (λ _ z. absurd (omega arith))

full→exhausted :
    (p : FixedBlockPool) (indices : List ℕ)
    → IsValid p
    → p.free_indices ≡ indices
    → p.used_blocks ≡ p.block_count
    → pop_block p indices ≡ (p, no_block)
unfolding pop_block
full→exhausted p [] v e full = refl
full→exhausted p (index ∷ rest) v e full =
    absurd (omega (arith, trues-lt p.allocated index (head_free p index rest v e), v.used, v.flags))

-- A valid pool of blocks that are not empty hands none out only when every block is out, and
-- whenever every block is out it refuses and changes nothing.
allocate_exhausted_iff :
    (p : FixedBlockPool)
    → IsValid p
    → 0 < p.block_size
    → ((allocate p).1.size ≡ 0 → p.used_blocks ≡ p.block_count)
      × (p.used_blocks ≡ p.block_count → allocate p ≡ (p, no_block))
unfolding allocate
allocate_exhausted_iff p v pos =
    (exhausted→full p p.free_indices v pos refl, full→exhausted p p.free_indices v refl)
