-- ===== src/Mem32/Examples.antt =====
-- Tests of mem_util.c for ARMv7, and its theorems at a table with one megabyte in it.
use qemu_tztest.Common.{
  ℕ, ◌+◌, ◌*◌, ◌/◌, ◌%◌, ◌^◌, ◌≤◌, ◌<◌, u32, ◌≡◌, refl, arith, some, [], ◌∷◌, ◌==◌, if◌then◌else◌,
  ◌⊎◌, ◌>>=◌,
}
use qemu_tztest.Mem32.{
  MemState, mem_map_pa, mem_unmap_va, mem_lookup_pa, mem_heap_allocate, heap_loop, mem_map_va,
  mem_allocate_pa, link_new, map_page, store, l1_pte, l2_pte, no_table, pte_user_rw,
}
use qemu_tztest.Mem32.Lookup.{IsTables, slot, Present}
use qemu_tztest.Mem32.Pool.{IsPool}
use qemu_tztest.Mem32.Mapping.{Pooled, Bounded, mem_map_pa-Pooled, mem_map_pa-Bounded}
use qemu_tztest.Mem32.Heap.{map_pages, mem_heap_allocate-map_pages}
use qemu_tztest.Mem32.Map.{Cleared, mem_lookup_pa-mem_unmap_va_arm}

-- The table at 0x8000 holds the page tables' own megabyte and that of 0x80000000.
abbrev pub ram : ℕ → ℕ
ram a = if a == 0x4000 then 0x8001 else if a == 0x6000 then 0x9001 else 0

abbrev pub small : MemState
small = record {
  mem = ram;
  mem_pgtbl_base = 0x4000;
  mem_next_pa = 0x10000;
  mem_heap_pool = 0x80000000;
}

pub small-IsTables : IsTables 1 small
small-IsTables = record {
  based = refl;
  narrow = omega arith;
  apart = λ i h p. ground arith;
  distinct = λ i j h k p q same. ground arith;
}

-- After a page of a table is unmapped, a lookup gives physical page 0.
unmapped_runs : mem_lookup_pa 0x80000123 (mem_unmap_va 0x80000000 small).1 ≡ 0x123
unfolding mem_lookup_pa mem_unmap_va l1_pte l2_pte no_table store
unmapped_runs = refl

-- A new megabyte takes one page of the pool for its table, and the block's page another.
heap_runs :
    (mem_heap_allocate 2 0x800 (record small { mem_heap_pool = 0x90000000 }) >>= λ (a, s).
    some (a ∷ s.mem_heap_pool ∷ s.mem_next_pa ∷ mem_lookup_pa 0x90000123 s ∷ []))
    ≡ some (0x90000000 ∷ 0x90001000 ∷ 0x12000 ∷ 0x10123 ∷ [])
unfolding mem_heap_allocate heap_loop mem_map_va mem_allocate_pa mem_map_pa link_new map_page store
    l1_pte l2_pte no_table mem_lookup_pa
heap_runs = refl

mem_lookup_pa-mem_unmap_va_arm_example :
    ((mem_unmap_va 0x80005000 small ≡ (0xFFFFFFFF, small))
      × (mem_lookup_pa 0x80005000 small ≡ 0xFFFFFFFF))
    ⊎ Cleared 1 0x80005000 small (mem_unmap_va 0x80005000 small)
mem_lookup_pa-mem_unmap_va_arm_example =
    mem_lookup_pa-mem_unmap_va_arm 0x80005000 small-IsTables (omega arith)

-- The end of the pool, behind a definition that no tactic unrolls.
abbrev pub pool_end : ℕ
pool_end = 32

pub ready : (n : ℕ) → 16 ≤ n → n < pool_end → Present 1 (n * 0x1000) small
ready n h b z =
    let low : n * 0x1000 / 2 ^ 20 % 4096 ≡ 0 = omega arith in
    let entry : small.mem (slot 1 (n * 0x1000 / 2 ^ 20 % 4096)) ≡ 0x8001 = rw low refl in
    absurd (omega (arith, entry, z))

abbrev pub small-IsPool : IsPool 1 pool_end small
small-IsPool = record {
  next = 16;
  tables = small-IsTables;
  pool = refl;
  bound = omega arith;
  away = λ n h b e. omega (arith, h, e);
  fresh = λ n k h b c. ground arith;
  old = λ i h p. ground arith;
  ready = ready;
}

-- A page of a megabyte without a table.
mem_map_pa-Pooled_example :
    Pooled 1 pool_end 0xA0000000 0x12345678 small small-IsPool
      (mem_map_pa 2 0xA0000000 0x12345678 0 pte_user_rw small)
mem_map_pa-Pooled_example =
    mem_map_pa-Pooled 0 0xA0000000 0x12345678 pte_user_rw small-IsPool (omega arith) (omega arith)
      (omega arith) (omega arith)

mem_map_pa-Bounded_example :
    Bounded 1 pool_end 0xA0000000 small small-IsPool
      (mem_map_pa 2 0xA0000000 0x12345678 0 pte_user_rw small)
mem_map_pa-Bounded_example =
    mem_map_pa-Bounded 0 0xA0000000 0x12345678 pte_user_rw small-IsPool (omega arith) (omega arith)
      (omega arith) (omega arith)

mem_heap_allocate-map_pages_example : mem_heap_allocate 2 0x1800 small ≡ (
    map_pages 2 2 0x80000000 small >>= λ u.
    some (0x80000000, record u { mem_heap_pool = u32 (u.mem_heap_pool + 2 * 0x1000) }))
mem_heap_allocate-map_pages_example = mem_heap_allocate-map_pages 2 0x1800 small (omega arith)
