-- ===== src/Memory/Arena/Wrap.antt =====
-- `offset_ + padding + size` is a 64-bit sum: a huge size wraps it, and passes the bound check.
use galculus.Common.{
  ℕ, ◌+◌, ◌-◌, ◌^◌, ◌≤◌, ◌<◌, ◌≡◌, refl, ap, ap₂, ◌∙◌, arith, ◌||◌, ltb, ◌==◌, if_elim,
}
use galculus.Memory.Words.{u64, sub64, MemoryBlock}
use galculus.Memory.Arena.{MemoryArena, IsValid, allocate, is_power_of_two, align_up}
use galculus.Memory.Arena.Align.{align_up-IsAligned}

align_up_one : (c : ℕ) → c < 2 ^ 64 → align_up c 1 ≡ c
unfolding is_power_of_two
align_up_one c h =
    let al = align_up-IsAligned c 1 (omega arith) refl (omega arith) in
    omega (arith, al.above, al.near)

wrapped :
    (base offset k : ℕ)
    → base + offset < 2 ^ 64
    → 0 < k
    → k ≤ offset
    → u64 (u64 (offset + sub64 (base + offset) (base + offset)) + (2 ^ 64 - k)) ≡ offset - k
wrapped base offset k h p q = omega arith

abbrev next_offset : MemoryArena → ℕ → ℕ → ℕ
next_offset a size alignment =
    let current = u64 (a.buffer + a.offset) in
    u64 (u64 (a.offset + sub64 (align_up current alignment) current) + size)

-- A valid arena over a buffer grants a request of 2 ^ 64 - k bytes at alignment 1, k positive and
-- at most the bytes in use, and gives k bytes in use back.
pub allocate_huge :
    (a : MemoryArena) (k : ℕ)
    → IsValid a
    → 0 < a.buffer
    → 0 < k
    → k ≤ a.offset
    → allocate a (2 ^ 64 - k) 1 ≡ (
      record a { offset = a.offset - k },
      record { ptr = a.buffer + a.offset; size = 2 ^ 64 - k },
    )
unfolding allocate is_power_of_two
allocate_huge a k v pos p q =
    let here : u64 (a.buffer + a.offset) ≡ a.buffer + a.offset =
      omega (arith, v.within, v.peak_within, v.addressable) in
    let aligned =
      ap (λ (t : ℕ). align_up t 1) here
      ∙ align_up_one (a.buffer + a.offset)
          (omega (arith, v.within, v.peak_within, v.addressable)) in
    let next : next_offset a (2 ^ 64 - k) 1 ≡ a.offset - k =
      ap₂ (λ (s t : ℕ). u64 (u64 (a.offset + sub64 s t) + (2 ^ 64 - k))) aligned here
      ∙ wrapped a.buffer a.offset k (omega (arith, v.within, v.peak_within, v.addressable)) p q in
    let target : MemoryArena × MemoryBlock = (
      record a { offset = a.offset - k },
      record { ptr = a.buffer + a.offset; size = 2 ^ 64 - k },
    ) in
    if_elim (λ o. o ≡ target) (a.buffer == 0 || 2 ^ 64 - k == 0) (λ e. absurd (ground arith))
      (λ e1.
        if_elim (λ o. o ≡ target) (ltb a.capacity (next_offset a (2 ^ 64 - k) 1))
          (λ e. absurd (ground (arith, next, v.within, v.peak_within)))
          (λ e2.
            ap₂
              (λ (s t : ℕ × ℕ).
                (record a { offset = s.0; peak_used = s.1 }, record { ptr = t.0; size = t.1 }))
              (ap₂ (λ (s t : ℕ). (s, t)) next (omega (arith, next, v.within)))
              (ap (λ (s : ℕ). (s, 2 ^ 64 - k)) aligned)))
