-- ===== src/Mem32/Mapping.antt =====
-- mem_map_pa of ARMv7 with and without a table for the megabyte of the address.
use qemu_tztest.Common.{
  ℕ, suc, ◌+◌, ◌*◌, ◌/◌, ◌%◌, ◌^◌, ◌≤◌, ◌<◌, ◌≡◌, ◌≢◌, ◌⊎◌, arith, inl, inr, some, Option, ◌==◌,
  Bool-cases,
}
use qemu_tztest.Mem32.{MemState, mem_map_pa, mem_lookup_pa}
use qemu_tztest.Mem32.Lookup.{slot, megabyte, entry_of, Present}
use qemu_tztest.Mem32.Pool.{IsPool}
use qemu_tztest.Mem32.Left.{Left, mem_map_pa-below, mem_map_pa-grown}

-- What mem_map_pa leaves of the pool and of the lookups.
pub record Pooled (root limit v p : ℕ) (s : MemState) (inv : IsPool root limit s)
    (result : Option MemState) : Type 0 where
  pub after : MemState
  pub returns : result ≡ some after
  pub inv' : IsPool root limit after
  pub taken : (inv.next ≤ inv'.next) × (inv'.next ≤ suc inv.next)
  pub heap : after.mem_heap_pool ≡ s.mem_heap_pool
  pub present : Present root v after
  pub stays : (w : ℕ) → Present root w s → Present root w after
  pub hit :
      (w : ℕ)
      → w < 2 ^ 32
      → w / 4096 ≡ v / 4096
      → mem_lookup_pa w after ≡ p / 4096 * 4096 + w % 4096
  pub others :
      (w : ℕ)
      → w < 2 ^ 32
      → w / 4096 ≢ v / 4096
      → (w / 4096 < inv.next) ⊎ (inv'.next ≤ w / 4096)
      → Present root w s ⊎ (megabyte w ≢ megabyte v)
      → mem_lookup_pa w after ≡ mem_lookup_pa w s

Left-Pooled :
    {k root limit v p : ℕ} {s : MemState} {inv : IsPool root limit s} {result : Option MemState}
    → k ≤ 1
    → Left k root limit v p s inv result
    → Pooled root limit v p s inv result
Left-Pooled few l = record {
  after = l.after;
  returns = l.returns;
  inv' = l.inv';
  taken = (omega (arith, l.next'), omega (arith, l.next', few));
  heap = l.heap;
  present = l.present;
  stays = l.stays;
  hit = l.hit;
  others = l.others;
}

-- With a page left in the pool and two levels of fuel, mem_map_pa returns, whether or not the megabyte of the
-- address has a table: each address of the page is then translated to the same offset of the physical page, at
-- most one page of the pool is taken, every table stays, every lookup outside the page and the page just taken
-- that has a table, or lies in another megabyte, is unchanged, and tables and pool are well formed again.
pub mem_map_pa-Pooled :
    {root limit : ℕ} {s : MemState} (f v p pgattr : ℕ) (inv : IsPool root limit s)
    → v < 2 ^ 32
    → p < 2 ^ 32
    → pgattr < 0x1000
    → inv.next < limit
    → Pooled root limit v p s inv (mem_map_pa (suc (suc f)) v p 0 pgattr s)
mem_map_pa-Pooled {root} {limit} {s} f v p pgattr inv narrow fits small room =
    elim (Bool-cases (s.mem (slot root (megabyte v)) % 4 == 0)) [
      | inl gone ↦
          Left-Pooled (omega arith)
            (mem_map_pa-grown f v p pgattr inv narrow fits small room (ground (arith, gone)))
      | inr there ↦
          Left-Pooled (omega arith)
            (mem_map_pa-below (suc f) v p pgattr inv narrow fits small (ground (arith, there)))
    ]

-- A call that takes `k` pages changes no other word than the first-level entry of the address, the entry of the
-- address in its table, and the entry of the page taken in its table.
pub record Bounded (root limit v : ℕ) (s : MemState) (inv : IsPool root limit s)
    (result : Option MemState) : Type 0 where
  pub after : MemState
  pub returns : result ≡ some after
  pub pages : ℕ
  pub few : pages ≤ 1
  pub counter :
      (after.mem_next_pa ≡ s.mem_next_pa + pages * 0x1000) × (after.mem_next_pa ≤ limit * 0x1000)
  pub words :
      (a : ℕ)
      → slot root (megabyte v) ≢ a
      → entry_of root v after ≢ a
      → (pages ≡ 0) ⊎ (entry_of root (inv.next * 0x1000) s ≢ a)
      → after.mem a ≡ s.mem a

Left-Bounded :
    {k root limit v p : ℕ} {s : MemState} {inv : IsPool root limit s} {result : Option MemState}
    → k ≤ 1
    → inv.next < limit
    → Left k root limit v p s inv result
    → Bounded root limit v s inv result
Left-Bounded {k} {s = s} {inv = inv} few room l = record {
  after = l.after;
  returns = l.returns;
  pages = k;
  few = few;
  counter = (
    omega (arith, l.inv'.pool, inv.pool, l.next'),
    omega (arith, l.inv'.pool, l.next', few, room),
  );
  words = l.words;
}

-- With a page left in the pool and two levels of fuel, mem_map_pa writes no word but three: the first-level
-- entry of the address, its second-level entry, and, if a page is taken for a table, the entry of that page;
-- the pool's counter moves by that page without wrapping around and stays within the pool.
pub mem_map_pa-Bounded :
    {root limit : ℕ} {s : MemState} (f v p pgattr : ℕ) (inv : IsPool root limit s)
    → v < 2 ^ 32
    → p < 2 ^ 32
    → pgattr < 0x1000
    → inv.next < limit
    → Bounded root limit v s inv (mem_map_pa (suc (suc f)) v p 0 pgattr s)
mem_map_pa-Bounded {root} {limit} {s} f v p pgattr inv narrow fits small room =
    elim (Bool-cases (s.mem (slot root (megabyte v)) % 4 == 0)) [
      | inl gone ↦
          Left-Bounded (omega arith) room
            (mem_map_pa-grown f v p pgattr inv narrow fits small room (ground (arith, gone)))
      | inr there ↦
          Left-Bounded (omega arith) room
            (mem_map_pa-below (suc f) v p pgattr inv narrow fits small (ground (arith, there)))
    ]
