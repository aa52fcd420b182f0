-- ===== src/Mem64/Heap.antt =====
-- `mem_heap_allocate`: each page of the block is mapped to a page of its own.
use qemu_tztest.Common.{
  ℕ, zero, suc, ◌+◌, ◌-◌, ◌*◌, ◌/◌, ◌^◌, ◌≤◌, ◌<◌, ◌≡◌, refl, arith, ap, ◌∙◌, sym, ◌≢◌, ◌⊎◌, Option,
  some, ◌==◌, if◌then◌else◌, inl, inr, Bool-cases, u64, ltb,
}
use qemu_tztest.Mem64.{
  MemState, mem_map_pa, mem_map_va, mem_allocate_pa, mem_lookup_pa, heap_loop, mem_heap_allocate,
  page_size, pte_user_rw,
}
use qemu_tztest.Mem64.Table.{table}
use qemu_tztest.Mem64.Leaf.{page}
use qemu_tztest.Mem64.State.{IsMapped, SameBut}
use qemu_tztest.Mem64.Map.{mem_map_pa-Mapping}
use qemu_tztest.Mem64.Lookup.{phys, lookup-table}

-- Taking one page off the pool keeps the invariant.
taken_page :
    {root limit : ℕ} {s : MemState} (inv : IsMapped root limit s)
    → inv.next < limit
    → IsMapped root limit (record s { mem_next_pa = u64 (s.mem_next_pa + page_size) })
taken_page inv room = record {
  next = suc inv.next;
  lvl = inv.lvl;
  up = inv.up;
  tree = record {
    rooted = inv.tree.rooted;
    child_lvl = inv.tree.child_lvl;
    child_up = inv.tree.child_up;
    fresh_lvl = λ q h b. inv.tree.fresh_lvl q (omega arith) b;
    fresh_zero = λ q k h b c. inv.tree.fresh_zero q k (omega arith) b c;
  };
  based = inv.based;
  pool = omega (arith, inv.pool, inv.bound);
  bound = inv.bound;
  ready = λ n h b. inv.ready n (omega arith) b;
}

-- `mem_map_va` maps the address to the next page of the pool.
pub record Fresh (root limit v : ℕ) (s : MemState) (inv : IsMapped root limit s)
    (result : Option MemState) : Type 0 where
  pub after : MemState
  pub returns : result ≡ some after
  pub inv' : IsMapped root limit after
  pub grows : suc inv.next ≤ inv'.next
  pub little : inv'.next ≤ inv.next + 4
  pub hit : table after.mem root v 4 ≡ some inv.next
  pub same : SameBut root inv.next inv'.next s after (λ w. page w ≢ page v)
  pub heap : after.mem_heap_pool ≡ s.mem_heap_pool

pub mem_map_va-Fresh :
    {root limit : ℕ} (v fuel : ℕ) {s : MemState} (inv : IsMapped root limit s)
    → inv.next + 4 ≤ limit
    → Fresh root limit v s inv (mem_map_va (suc (suc fuel)) v 0 pte_user_rw s)
unfolding mem_map_va mem_allocate_pa taken_page
mem_map_va-Fresh {root} {limit} v fuel {s} inv room =
    let inv1 = taken_page inv (omega arith) in
    let m =
      mem_map_pa-Mapping v (inv.next * 0x1000) 0 pte_user_rw fuel inv1 (omega arith) (omega arith)
        (omega (arith, inv.bound)) (omega arith) in
    record {
      after = m.after;
      returns =
          ap
            (λ a.
              mem_map_pa (suc (suc fuel)) v a 0 pte_user_rw
                (record s { mem_next_pa = u64 (s.mem_next_pa + page_size) }))
            inv.pool
          ∙ m.returns;
      inv' = m.inv';
      grows = m.grows;
      little = omega (arith, m.little);
      hit = m.hit ∙ ap some (omega arith);
      same = λ w ne h. m.same w ne (omega (arith, h));
      heap = m.heap;
    }

-- Pages `j` to `pages` of the block that starts at page `hp` have frames of their own, in order.
record Block (root limit hp j pages : ℕ) (s : MemState) (inv : IsMapped root limit s)
    (result : Option (ℕ × MemState)) : Type 0 where
  after : MemState
  returns : result ≡ some (pages * 0x1000, after)
  inv' : IsMapped root limit after
  frames : ℕ → ℕ
  grows : inv.next ≤ inv'.next
  little : inv'.next ≤ inv.next + 4 * (pages - j)
  hit : (k : ℕ) → j ≤ k → k < pages → table after.mem root ((hp + k) * 0x1000) 4 ≡ some (frames k)
  from : (k : ℕ) → j ≤ k → k < pages → (inv.next ≤ frames k) × (frames k < inv'.next)
  rising : (k l : ℕ) → j ≤ k → k < l → l < pages → frames k < frames l
  same : SameBut root inv.next inv'.next s after (λ w. (page w < hp + j) ⊎ (hp + pages ≤ page w))
  heap : after.mem_heap_pool ≡ s.mem_heap_pool

module _ {root limit : ℕ} (depth hp pages len : ℕ) (above : limit ≤ hp) (fits : hp + pages ≤ 2 ^ 36)
    (count : pages ≡ (len + 0xFFF) / 0x1000) where
  heap_loop-Block :
      (fuel j : ℕ) {s : MemState} (inv : IsMapped root limit s)
      → j ≤ pages
      → pages < fuel + j
      → inv.next + 4 * (pages - j) ≤ limit
      → s.mem_heap_pool ≡ hp * 0x1000
      → Block root limit hp j pages s inv (heap_loop fuel (suc (suc depth)) len (j * 0x1000) s)
  unfolding heap_loop
  heap_loop-Block zero j inv below enough room heap = absurd (omega arith)
  heap_loop-Block (suc fuel) j {s} inv below enough room heap =
      elim (Bool-cases (ltb (j * 0x1000) len)) [
        | inr stop ↦
            let done : j ≡ pages = ground arith in
            record {
              after = s;
              returns = rw (stop, done);
              inv' = inv;
              frames = λ k. 0;
              grows = omega arith;
              little = omega arith;
              hit = λ k h b. absurd (omega arith);
              from = λ k h b. absurd (omega arith);
              rising = λ k l h b c. absurd (omega arith);
              same = λ w p h. refl;
              heap = refl;
            }
        | inl more ↦
            let go : j < pages = ground arith in
            let here = (hp + j) * 0x1000 in
            let f = mem_map_va-Fresh here depth inv (omega arith) in
            let r =
              heap_loop-Block fuel (suc j) f.inv' (omega arith) (omega arith)
                (omega (arith, f.little)) (f.heap ∙ heap) in
            let at_page : u64 (s.mem_heap_pool + j * 0x1000) ≡ here = omega arith in
            let step : u64 (j * 0x1000 + 0x1000) ≡ suc j * 0x1000 = omega arith in
            record {
              after = r.after;
              returns = rw (more, at_page, f.returns, step) r.returns;
              inv' = r.inv';
              frames = λ k. if k == j then inv.next else r.frames k;
              grows = omega (arith, f.grows, r.grows);
              little = omega (arith, f.little, r.little);
              hit = λ k h b. elim (Bool-cases (k == j)) [
                | inl e ↦
                    let now : (hp + k) * 0x1000 ≡ here = ground arith in
                    rw (e, now)
                      (r.same here (omega arith) (omega (arith, f.little, r.little)) ∙ f.hit)
                | inr ne ↦ rw ne (r.hit k (ground arith) b)
              ];
              from = λ k h b. ground (arith, f.grows, r.grows, r.from k);
              rising = λ k l h b c. ground (arith, f.grows, r.from l, r.rising k l);
              same = λ w p h.
                  r.same w (omega (arith, p)) (omega (arith, h, f.grows, r.grows))
                  ∙ f.same w (omega (arith, p)) (omega (arith, h, f.grows, r.grows));
              heap = r.heap ∙ f.heap;
            }
      ]

-- A block of `pages` pages at page `hp`: what `mem_heap_allocate` leaves behind.
pub record Allocated (root limit hp pages : ℕ) (s : MemState) (inv : IsMapped root limit s)
    (result : Option (ℕ × MemState)) : Type 0 where
  pub after : MemState
  pub returns : result ≡ some (hp * 0x1000, after)
  pub inv' : IsMapped root limit after
  pub taken : (inv.next ≤ inv'.next) × (inv'.next ≤ inv.next + 4 * pages)
  pub moved : after.mem_heap_pool ≡ (hp + pages) * 0x1000
  pub frames : ℕ → ℕ
  pub hit : (k : ℕ) → k < pages → mem_lookup_pa ((hp + k) * 0x1000) after ≡ frames k * 0x1000
  pub from : (k : ℕ) → k < pages → (inv.next ≤ frames k) × (frames k < inv'.next)
  pub rising : (k l : ℕ) → k < l → l < pages → frames k < frames l
  pub others :
      (w : ℕ)
      → (page w < hp) ⊎ (hp + pages ≤ page w)
      → (page w < inv.next) ⊎ (inv'.next ≤ page w)
      → mem_lookup_pa w after ≡ mem_lookup_pa w s

-- With four pool pages for each page of the block, and a heap that lies above the pool,
-- `mem_heap_allocate(len)` returns the old heap pointer, moves the pointer past `len` rounded up to
-- pages, and backs each page of the block by a pool page of its own; lookups elsewhere stay.
pub mem_heap_allocate-Allocated :
    {root limit : ℕ} (depth hp pages len : ℕ) {s : MemState} (inv : IsMapped root limit s)
    → s.mem_heap_pool ≡ hp * 0x1000
    → pages ≡ (len + 0xFFF) / 0x1000
    → limit ≤ hp
    → hp + pages ≤ 2 ^ 36
    → inv.next + 4 * pages ≤ limit
    → Allocated root limit hp pages s inv (mem_heap_allocate (suc (suc depth)) len s)
unfolding mem_heap_allocate
mem_heap_allocate-Allocated {root} depth hp pages len {s} inv heap count above fits room =
    let b =
      heap_loop-Block depth hp pages len above fits count (len / 0x1000 + 2) 0 inv (omega arith)
        (omega arith) (omega arith) heap in
    record {
      after = record b.after { mem_heap_pool = u64 (b.after.mem_heap_pool + pages * 0x1000) };
      returns = rw b.returns (
          ap
            (λ a.
              some (
                a,
                record b.after { mem_heap_pool = u64 (b.after.mem_heap_pool + pages * 0x1000) },
              ))
            heap);
      inv' = record {
        next = b.inv'.next;
        lvl = b.inv'.lvl;
        up = b.inv'.up;
        tree = b.inv'.tree;
        based = b.inv'.based;
        pool = b.inv'.pool;
        bound = b.inv'.bound;
        ready = b.inv'.ready;
      };
      taken = (omega (arith, b.grows), omega (arith, b.little));
      moved = omega (arith, b.heap);
      frames = b.frames;
      hit = λ k h. lookup-table _ root _ b.inv'.based ∙ ap phys (b.hit k (omega arith) h);
      from = λ k h. b.from k (omega arith) h;
      rising = λ k l h c. b.rising k l (omega arith) h c;
      others = λ w p h.
          lookup-table _ root w b.inv'.based
          ∙ ap phys (b.same w (omega (arith, p)) h)
          ∙ sym (lookup-table s root w inv.based);
    }
