-- ===== src/Mem64/Unmap.antt =====
-- The loop by which el3_start and el1_start unmap their initial segment, page by page.
use qemu_tztest.Common.{
  ℕ, zero, suc, ◌+◌, ◌-◌, ◌*◌, ◌/◌, ◌^◌, ◌≤◌, ◌<◌, ◌≡◌, ◌⊎◌, false, true, refl, arith, ap, ◌∙◌, inl,
  inr, Option, none, some, bit_and, ltb, Bool-cases, ◌==◌, if◌then◌else◌, u64,
}
use qemu_tztest.Mem64.{MemState, mem_unmap_va, mem_lookup_pa, ptr_minus_one, page_size}
use qemu_tztest.Mem64.Decode.{page_floor}
use qemu_tztest.Mem64.Leaf.{page}
use qemu_tztest.Mem64.State.{IsMapped}
use qemu_tztest.Mem64.Lookup.{mem_lookup_pa-mem_unmap_va}

-- `for (len = 0; len < bound; len += PAGE_SIZE, addr += PAGE_SIZE) mem_unmap_va(addr);`
unfoldable pub unmap_loop : (fuel bound len addr : ℕ) → MemState → Option MemState
unmap_loop zero bound len addr s = none
unmap_loop (suc fuel) bound len addr s =
    let rest =
      unmap_loop fuel bound (u64 (len + page_size)) (u64 (addr + page_size))
        (mem_unmap_va addr s).1 in
    if ltb len bound then rest else some s

-- The size rounded up to pages, and the loop over the segment.
unfoldable pub round_up : ℕ → ℕ
round_up size = bit_and (u64 (size + (page_size - 1))) 0xFFFFFFFFFFFFF000

unfoldable pub unmap_segment : (base size : ℕ) → MemState → Option MemState
unfolding unmap_loop round_up
unmap_segment base size s = unmap_loop (round_up size / page_size + 1) (round_up size) 0 base s

-- Pages `from` to `to` have lost their translation, and no other page has.
pub record Cleared (root limit from to : ℕ) (s : MemState) (inv : IsMapped root limit s)
    (result : Option MemState) : Type 0 where
  pub after : MemState
  pub returns : result ≡ some after
  pub inv' : IsMapped root limit after
  pub same_next : inv'.next ≡ inv.next
  pub same_heap : after.mem_heap_pool ≡ s.mem_heap_pool
  pub gone : (k : ℕ) → from ≤ k → k < to → mem_lookup_pa (k * 0x1000) after ≡ ptr_minus_one
  pub others : (w : ℕ) → (page w < from) ⊎ (to ≤ page w) → mem_lookup_pa w after ≡ mem_lookup_pa w s

pub unmap_loop-Cleared :
    {root limit : ℕ} (b n bound fuel j : ℕ) {s : MemState} (inv : IsMapped root limit s)
    → n ≡ (bound + 0xFFF) / 0x1000
    → b + n ≤ 2 ^ 36
    → j ≤ n
    → n < fuel + j
    → Cleared root limit
        (b + j)
        (b + n)
        s
        inv
        (unmap_loop fuel bound (j * 0x1000) ((b + j) * 0x1000) s)
unfolding unmap_loop
unmap_loop-Cleared b n bound zero j inv count fits h room = absurd (omega arith)
unmap_loop-Cleared {root} {limit} b n bound (suc fuel) j {s} inv count fits h room =
    elim (Bool-cases (j == n)) [
      | inl e ↦
          let done : ltb (j * 0x1000) bound ≡ false = ground arith in
          rw done (record {
            after = s;
            returns = refl;
            inv' = inv;
            same_next = refl;
            same_heap = refl;
            gone = λ k p q. absurd (ground arith);
            others = λ w p. refl;
          })
      | inr ne ↦
          let more : ltb (j * 0x1000) bound ≡ true = ground arith in
          let here = (b + j) * 0x1000 in
          let below : j < n = ground arith in
          let u = mem_lookup_pa-mem_unmap_va here inv in
          let r =
            unmap_loop-Cleared b n bound fuel (j + 1) u.inv' count fits (omega (arith, below))
              (omega arith) in
          let len : u64 (j * 0x1000 + page_size) ≡ (j + 1) * 0x1000 = omega arith in
          let addr : u64 (here + page_size) ≡ (b + (j + 1)) * 0x1000 = omega arith in
          rw (more, len, addr)
            (record {
              after = r.after;
              returns = r.returns;
              inv' = r.inv';
              same_next = r.same_next ∙ u.same_next;
              same_heap = r.same_heap ∙ u.same_heap;
              gone = λ k p q. elim (Bool-cases (k == b + j)) [
                | inl e ↦
                    let at : k ≡ b + j = ground arith in
                    rw at (r.others here (inl (omega arith)) ∙ u.gone)
                | inr other ↦ r.gone k (ground arith) q
              ];
              others = λ w p. r.others w (omega (arith, p)) ∙ u.others w (omega (arith, p, below));
            })
    ]

-- Over a segment of `n` pages from page `b`, whatever the size is within the last page, the loop ends;
-- then no page of the segment has a translation, every other lookup is unchanged, the tables stay well
-- formed, and neither the next pool page nor the heap pointer has moved.
pub unmap_segment-Cleared :
    {root limit : ℕ} (b n size : ℕ) {s : MemState} (inv : IsMapped root limit s)
    → n ≡ (size + 0xFFF) / 0x1000
    → b + n ≤ 2 ^ 36
    → Cleared root limit b (b + n) s inv (unmap_segment (b * 0x1000) size s)
unfolding unmap_segment
unmap_segment-Cleared {root} {limit} b n size {s} inv count fits =
    let rounded : round_up size ≡ n * 0x1000 =
      unfold round_up in page_floor (u64 (size + 0xFFF)) (omega arith) ∙ omega arith in
    let rounds : n * 0x1000 / page_size + 1 ≡ n + 1 = omega arith in
    let start : b ≡ b + 0 = omega arith in
    let run : unmap_segment (b * 0x1000) size s
        ≡ unmap_loop (n + 1) (n * 0x1000) (0 * 0x1000) ((b + 0) * 0x1000) s =
      ap (λ t. unmap_loop (t / page_size + 1) t 0 (b * 0x1000) s) rounded
      ∙ ap (λ t. unmap_loop t (n * 0x1000) 0 (b * 0x1000) s) rounds
      ∙ ap (λ t. unmap_loop (n + 1) (n * 0x1000) 0 (t * 0x1000) s) start in
    let r =
      unmap_loop-Cleared b n (n * 0x1000) (n + 1) 0 inv (omega arith) fits (omega arith)
        (omega arith) in
    record {
      after = r.after;
      returns = run ∙ r.returns;
      inv' = r.inv';
      same_next = r.same_next;
      same_heap = r.same_heap;
      gone = λ k p q. r.gone k (omega arith) q;
      others = λ w p. r.others w (omega (arith, p));
    }
