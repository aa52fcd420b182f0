-- ===== src/Mem64/Examples.antt =====
-- Tests of mem_util.c for aarch64, and its theorems at a small memory: four tables in frames 1 to 4
-- and a pool of frames from 5 up.
use qemu_tztest.Common.{
  ◌∙◌, ap, List, ℕ, ◌*◌, ◌/◌, ◌%◌, ◌^◌, ◌≤◌, ◌<◌, ◌≡◌, refl, arith, none, some, ◌==◌, if◌then◌else◌,
  ◌>>=◌, [], ◌∷◌,
}
use qemu_tztest.Mem64.{
  MemState, mem_map_pa, mem_lookup_pa, mem_unmap_va, mem_heap_allocate, mem_allocate_pa, store,
  pte_at, pte_off, is_invalid, next_table, link_table, map_level, map_levels, map_page, walk,
  mem_map_va, heap_loop, ptr_minus_one, pte_user_rw,
}
use qemu_tztest.Mem64.Table.{idx, table}
use qemu_tztest.Mem64.Tree.{IsTree}
use qemu_tztest.Mem64.State.{IsMapped}
use qemu_tztest.Mem64.Lookup.{Maps, Unmapped, mem_lookup_pa-mem_map_pa, mem_lookup_pa-mem_unmap_va}
use qemu_tztest.Mem64.Unmap.{unmap_segment, Cleared, unmap_segment-Cleared}
use qemu_tztest.Mem64.Lookup.{phys, lookup-table}
use qemu_tztest.Mem64.Abstract.{
  Call, map_pa, unmap_va, lookup_pa, run, replay, Shows, Refines, View,
}
use qemu_tztest.Mem64.Refinement.{run-Refines}
use qemu_tztest.Mem64.Heap.{Allocated, mem_heap_allocate-Allocated}

abbrev pub ram : ℕ → ℕ
ram a =
    if a == 0x1000
    then 0x2003
    else if a == 0x2000
    then 0x3003
    else if a == 0x3000
    then 0x4003
    else 0

abbrev pub boot : MemState
boot = record {
  mem = ram;
  mem_pgtbl_base = 0x1000;
  mem_next_pa = 0x5000;
  mem_heap_pool = 0x80000000;
}

abbrev pub levels : ℕ → ℕ
levels q = if q == 1 then 0 else if q == 2 then 1 else if q == 3 then 2 else if q == 4 then 3 else 9

abbrev pub parents : ℕ → ℕ
parents q = if q == 2 then 0x1000 else if q == 3 then 0x2000 else if q == 4 then 0x3000 else 0

-- The end of the 32-frame pool, behind a definition that no tactic unrolls.
abbrev pub pool_end : ℕ
pool_end = 32

pub ready : (n : ℕ) → 5 ≤ n → n < pool_end → (q : ℕ) × (table ram 1 (n * 0x1000) 3 ≡ some q)
unfolding table idx
ready n h b =
    let i0 : n * 0x1000 / 2 ^ 39 % 512 ≡ 0 = omega arith in
    let i1 : n * 0x1000 / 2 ^ 30 % 512 ≡ 0 = omega arith in
    let i2 : n * 0x1000 / 2 ^ 21 % 512 ≡ 0 = omega arith in (4, ground arith)

pub boot-IsTree : IsTree ram 1 5 pool_end levels parents
boot-IsTree = record {
  rooted = refl;
  child_lvl = λ q k h b odd. ground arith;
  child_up = λ q k h b odd. ground arith;
  fresh_lvl = λ q h b. ground arith;
  fresh_zero = λ q k h b c. ground arith;
}

abbrev pub boot-IsMapped : IsMapped 1 pool_end boot
boot-IsMapped = record {
  next = 5;
  lvl = levels;
  up = parents;
  tree = boot-IsTree;
  based = refl;
  pool = refl;
  bound = omega arith;
  ready = ready;
}

-- Mapping 0x80000000 takes two tables from the pool and leaves the counter behind them.
map_runs :
    (mem_map_pa 2 0x80000000 0x9000123 0 pte_user_rw boot >>= λ s.
    some (mem_lookup_pa 0x80000abc s ∷ s.mem_next_pa ∷ []))
    ≡ some (0x9000000 ∷ 0x7000 ∷ [])
unfolding mem_map_pa map_levels map_level map_page link_table store mem_allocate_pa pte_at pte_off
    is_invalid next_table mem_lookup_pa walk
map_runs = refl

lookup_misses : mem_lookup_pa 0x80000000 boot ≡ ptr_minus_one
unfolding mem_lookup_pa walk pte_at pte_off is_invalid next_table
lookup_misses = refl

-- With one level of fuel the table's own page cannot be mapped.
too_deep : mem_map_pa 1 0x80000000 0x9000000 0 pte_user_rw boot ≡ none
unfolding mem_map_pa map_levels map_level mem_allocate_pa pte_at pte_off is_invalid next_table
too_deep = refl

heap_runs :
    (mem_heap_allocate 2 0x1001 boot >>= λ (a, s).
    some (a ∷ s.mem_heap_pool ∷ mem_lookup_pa 0x80000000 s ∷ mem_lookup_pa 0x80001000 s ∷ []))
    ≡ some (0x80000000 ∷ 0x80002000 ∷ 0x5000 ∷ 0x8000 ∷ [])
unfolding mem_heap_allocate heap_loop mem_map_va mem_map_pa map_levels map_level map_page link_table
    store mem_allocate_pa pte_at pte_off is_invalid next_table mem_lookup_pa walk
heap_runs = refl

mem_lookup_pa-mem_map_pa_example :
    Maps 1 pool_end 0x80000000 0x9000000 boot boot-IsMapped
      (mem_map_pa 2 0x80000000 0x9000123 0 pte_user_rw boot)
mem_lookup_pa-mem_map_pa_example =
    mem_lookup_pa-mem_map_pa 0x80000000 0x9000123 0 pte_user_rw 0 boot-IsMapped (omega arith)
      (omega arith) (omega arith) (omega arith)

mem_lookup_pa-mem_unmap_va_example :
    Unmapped 1 pool_end 0x5000 boot boot-IsMapped (mem_unmap_va 0x5000 boot)
mem_lookup_pa-mem_unmap_va_example = mem_lookup_pa-mem_unmap_va 0x5000 boot-IsMapped

mem_heap_allocate-Allocated_example :
    Allocated 1 pool_end 0x80000 2 boot boot-IsMapped (mem_heap_allocate 2 0x1001 boot)
mem_heap_allocate-Allocated_example =
    mem_heap_allocate-Allocated 0 0x80000 2 0x1001 boot-IsMapped refl refl (omega arith)
      (omega arith) (omega arith)

unmap_segment-Cleared_example :
    Cleared 1 pool_end 3 6 boot boot-IsMapped (unmap_segment 0x3000 0x2001 boot)
unmap_segment-Cleared_example = unmap_segment-Cleared 3 3 0x2001 boot-IsMapped refl (omega arith)

boot-empty : (w : ℕ) → table ram 1 w 4 ≡ none
unfolding table idx
boot-empty w = ground arith

abbrev nothing : View
nothing k = none

boot-Shows : Shows 5 pool_end boot nothing
boot-Shows = record {
  lookups = λ w out. lookup-table boot 1 w refl ∙ ap phys (boot-empty w);
  small = λ k n e. cc;
}

abbrev calls : List Call
calls =
    map_pa 0x80000000 0x9000123
    ∷ lookup_pa 0x80000abc
    ∷ unmap_va 0x80000000
    ∷ unmap_va 0x80000000
    ∷ lookup_pa 0x80000000
    ∷ []

replies : (replay calls nothing).0 ≡ 0x9000000 ∷ 0 ∷ 0xFFFFFFFF ∷ 0xFFFFFFFFFFFFFFFF ∷ []
unfolding replay
replies = refl

run-Refines_example : Refines 1 5 pool_end (replay calls nothing) (run 2 calls boot)
run-Refines_example =
    run-Refines 0 calls nothing boot-IsMapped (omega arith) (omega arith) (omega arith) boot-Shows
