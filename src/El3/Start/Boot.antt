-- ===== src/El3/Start/Boot.antt =====
-- What the start of EL3 leaves for the two worlds.
use qemu_tztest.Common.{
  ℕ, suc, ◌+◌, ◌*◌, ◌/◌, ◌^◌, ◌≤◌, ◌<◌, ◌≡◌, ◌⊎◌, refl, arith, ap, ◌∙◌, inl, inr, Option, some,
}
use qemu_tztest.Mem64.{MemState, mem_lookup_pa, ptr_minus_one, page_size}
use qemu_tztest.Mem64.State.{IsMapped}
use qemu_tztest.Mem64.Heap.{mem_heap_allocate-Allocated}
use qemu_tztest.Mem64.Unmap.{unmap_segment-Cleared}
use qemu_tztest.El3.Start.{
  Start, Return, el3_start, el3_monitor_init, state_reg0, state_elr_el3, spsr_el1,
}

-- The segment of pages `b` to `b + n` touches neither the pool nor the two heap pages from `hp`.
abbrev pub Apart : (b n from limit hp : ℕ) → Type 0
Apart b n from limit hp = ((b + n ≤ from) ⊎ (limit ≤ b)) × ((b + n ≤ hp) ⊎ (hp + 2 ≤ b))

-- The result of `el3_start` in terms of what lookups give afterwards.
pub record Started (s_base ns_base b n hp : ℕ) (s : Start) (result : Option (Return × Start))
    : Type 0 where
  pub back : Return
  pub after : Start
  pub returns : result ≡ some (back, after)
  -- Secure EL1 starts first, the nonsecure one where the monitor resumes it; both find the control
  -- block's physical address in X4.
  pub first :
      (back.elr ≡ s_base) × (back.spsr ≡ spsr_el1) × (after.nsec_state state_elr_el3 ≡ ns_base)
  pub handed :
      (back.regs state_reg0 ≡ mem_lookup_pa after.syscntl after.mm)
      × (after.nsec_state state_reg0 ≡ mem_lookup_pa after.syscntl after.mm)
  -- The control block and the buffer are two mapped pages of their own, and the block tells EL1 where
  -- the buffer is.
  pub pages : (after.syscntl ≡ hp * 0x1000) × (after.smc_interop_buf ≡ (hp + 1) * 0x1000)
  pub mapped :
      (f : ℕ) × (g : ℕ) × (f < g)
      × (mem_lookup_pa after.syscntl after.mm ≡ f * 0x1000)
      × (mem_lookup_pa after.smc_interop_buf after.mm ≡ g * 0x1000)
  pub told :
      (after.block.buf_va ≡ after.smc_interop_buf)
      × (after.block.buf_pa ≡ mem_lookup_pa after.smc_interop_buf after.mm)
  -- The start-up code is not reachable any more.
  pub gone : (k : ℕ) → b ≤ k → k < b + n → mem_lookup_pa (k * 0x1000) after.mm ≡ ptr_minus_one

at_zero : (h : ℕ) (m : MemState) → mem_lookup_pa (h * 0x1000) m ≡ mem_lookup_pa ((h + 0) * 0x1000) m
at_zero h m = ap (λ t. mem_lookup_pa (t * 0x1000) m) (omega arith)

-- With a well-formed table, eight pages left in the pool, a heap above it and a start-up segment apart
-- from both, `el3_start` returns to secure EL1; both worlds are handed the physical address of the control
-- block; the block and the interop buffer lie in two different mapped pages, and the block holds the
-- buffer's addresses; and no page of the start-up segment has a translation any more.
pub el3_start-Started :
    {root limit : ℕ} (depth s_base ns_base b n size hp : ℕ) (s : Start)
    (inv : IsMapped root limit s.mm)
    → s.mm.mem_heap_pool ≡ hp * 0x1000
    → limit ≤ hp
    → hp + 2 ≤ 2 ^ 36
    → inv.next + 8 ≤ limit
    → n ≡ (size + 0xFFF) / 0x1000
    → b + n ≤ 2 ^ 36
    → Apart b n inv.next limit hp
    → Started s_base ns_base b n hp s
        (el3_start (suc (suc depth)) s_base ns_base (b * 0x1000) size s)
unfolding el3_start el3_monitor_init
el3_start-Started {root} {limit} depth s_base ns_base b n size hp s inv heap above high room count
      fits apart =
    let c = unmap_segment-Cleared b n size inv count fits in
    let x =
      mem_heap_allocate-Allocated depth hp 1 page_size c.inv' (c.same_heap ∙ heap) refl above
        (omega arith) (omega (arith, c.same_next)) in
    let y =
      mem_heap_allocate-Allocated depth (hp + 1) 1 page_size x.inv' x.moved refl
        (omega (arith, above)) (omega arith) (omega (arith, c.same_next, x.taken)) in
    let kept : mem_lookup_pa (hp * 0x1000) y.after ≡ x.frames 0 * 0x1000 =
      y.others (hp * 0x1000) (inl (omega arith))
        (inr (omega (arith, y.taken, x.taken, c.same_next)))
      ∙ at_zero hp x.after
      ∙ x.hit 0 (omega arith) in
    let buffer : mem_lookup_pa ((hp + 1) * 0x1000) y.after ≡ y.frames 0 * 0x1000 =
      at_zero (hp + 1) y.after ∙ y.hit 0 (omega arith) in
    let va = (hp + 1) * 0x1000 in
    let done = el3_monitor_init ns_base (record s {
      mm = y.after;
      syscntl = hp * 0x1000;
      block = record s.block { buf_va = va; buf_pa = mem_lookup_pa va y.after };
      smc_interop_buf = va;
    }) in
    record {
      back = record { elr = s_base; spsr = spsr_el1; regs = done.sec_state };
      after = done;
      returns = rw (c.returns, x.returns, y.returns);
      first = (refl, refl, refl);
      handed = (refl, refl);
      pages = (refl, refl);
      mapped = (
        x.frames 0,
        y.frames 0,
        omega (arith, x.from 0 (omega arith), y.from 0 (omega arith)),
        kept,
        buffer,
      );
      told = (refl, refl);
      gone = λ k p q.
          y.others (k * 0x1000) (omega (arith, apart))
            (omega (arith, apart, x.taken, y.taken, c.same_next))
          ∙ x.others (k * 0x1000) (omega (arith, apart))
              (omega (arith, apart, x.taken, c.same_next))
          ∙ c.gone k p q;
    }
