-- ===== src/Mem32/Pool.antt =====
-- The pool of unused pages behind the ARMv7 tables: what holds of it, and what a write below a table leaves of it.
use qemu_tztest.Common.{
  ℕ, suc, ◌+◌, ◌*◌, ◌/◌, ◌%◌, ◌^◌, ◌≤◌, ◌<◌, ◌≡◌, ◌≢◌, ◌⊎◌, refl, arith, ap, ◌∙◌, sym, u32,
}
use qemu_tztest.Mem64.{page_size}
use qemu_tztest.Mem32.{MemState, mem_lookup_pa}
use qemu_tztest.Mem32.Decode.{coarse}
use qemu_tztest.Mem32.Lookup.{slot, megabyte, IsTables, entry_of, Present}
use qemu_tztest.Mem32.Map.{OneWord}

-- The pages `next` to `limit` are unused: they are zero where a table would stand, lie apart from the
-- first-level table and from the tables in use, and the megabytes that they lie in have tables.
pub record IsPool (root limit : ℕ) (s : MemState) : Type 0 where
  pub next : ℕ
  pub tables : IsTables root s
  pub pool : s.mem_next_pa ≡ next * 0x1000
  pub bound : limit < 2 ^ 20
  pub away : (n : ℕ) → next ≤ n → n < limit → n / 4 ≢ root
  pub fresh : (n k : ℕ) → next ≤ n → n < limit → k < 256 → s.mem (n * 4096 + k * 4) ≡ 0
  pub old :
      (i : ℕ)
      → i < 4096
      → s.mem (slot root i) % 4 ≢ 0
      → (coarse (s.mem (slot root i)) / 4 < next) ⊎ (limit ≤ coarse (s.mem (slot root i)) / 4)
  pub ready : (n : ℕ) → next ≤ n → n < limit → Present root (n * 0x1000) s

-- A page taken off the pool.
unfoldable pub taken_page :
    {root limit : ℕ} {s : MemState} (inv : IsPool root limit s)
    → inv.next < limit
    → IsPool root limit (record s { mem_next_pa = u32 (s.mem_next_pa + page_size) })
taken_page inv room = record {
  next = suc inv.next;
  tables = record {
    based = inv.tables.based;
    narrow = inv.tables.narrow;
    apart = inv.tables.apart;
    distinct = inv.tables.distinct;
  };
  pool = omega (arith, inv.pool, inv.bound);
  bound = inv.bound;
  away = λ n h b. inv.away n (omega arith) b;
  fresh = λ n k h b c. inv.fresh n k (omega arith) b c;
  old = λ i h p. omega (arith, inv.old i h p);
  ready = λ n h b. inv.ready n (omega arith) b;
}

module _ {root limit : ℕ} {s : MemState} (inv : IsPool root limit s) (v : ℕ)
    (present : Present root v s) where
  -- The entry of a page that has a table lies outside the pool and outside the first-level table.
  pub entry-slot : (i : ℕ) → i < 4096 → entry_of root v s ≢ slot root i
  entry-slot i h same =
      let off = inv.tables.apart (megabyte v) (omega arith) present in off (omega (arith, same, h))

  pub entry-pool :
      (n k : ℕ) → inv.next ≤ n → n < limit → k < 256 → entry_of root v s ≢ n * 4096 + k * 4
  entry-pool n k h b c same =
      let out = inv.old (megabyte v) (omega arith) present in absurd (omega (arith, out, same))

  module _ {after : MemState} (writes : OneWord (entry_of root v s) s after)
      (tables' : IsTables root after) where
    pub slot_kept : (i : ℕ) → i < 4096 → after.mem (slot root i) ≡ s.mem (slot root i)
    slot_kept i h = writes.same (slot root i) (entry-slot i h)

    -- A write of that entry keeps the pool.
    unfoldable pub OneWord-IsPool : IsPool root limit after
    OneWord-IsPool = record {
      next = inv.next;
      tables = tables';
      pool = writes.next ∙ inv.pool;
      bound = inv.bound;
      away = inv.away;
      fresh =
          λ n k h b c. writes.same (n * 4096 + k * 4) (entry-pool n k h b c) ∙ inv.fresh n k h b c;
      old = λ i h p.
          rw (slot_kept i h) (inv.old i h (λ none'. p (ap (λ e. e % 4) (slot_kept i h) ∙ none')));
      ready = λ n h b none'.
          inv.ready n h b
            (sym (ap (λ e. e % 4) (slot_kept (megabyte (n * 0x1000)) (omega arith))) ∙ none');
    }

    pub OneWord-Present : (w : ℕ) → Present root w s → Present root w after
    OneWord-Present w p none' =
        p (sym (ap (λ e. e % 4) (slot_kept (megabyte w) (omega arith))) ∙ none')

-- The pool's counter does not matter to a lookup.
pub mem_lookup_pa-next :
    (w n : ℕ) (s : MemState) → mem_lookup_pa w (record s { mem_next_pa = n }) ≡ mem_lookup_pa w s
unfolding mem_lookup_pa
mem_lookup_pa-next w n s = refl
