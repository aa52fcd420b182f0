-- ===== src/Layout/Arm/Heap.antt =====
-- common/arm/memory.h and mem_util.c: the heap of a level stays between its base and its stacks.
use qemu_tztest.Common.{ℕ, suc, ◌+◌, ◌*◌, ◌/◌, ◌^◌, ◌≤◌, ◌<◌, ◌≡◌, arith, Option, some}
use qemu_tztest.Layout.{Level}
use qemu_tztest.Layout.Arm.{layout}
use qemu_tztest.Layout.Arm.Bounds.{
  root_table, pool_start, pool_end, heap_page, stack_end, pool_end-pool_start, heap_page-stack_end,
  stack_end_lt, heap_page-va_heap_base,
}
use qemu_tztest.Mem32.{MemState, mem_heap_allocate}
use qemu_tztest.Mem32.Pool.{IsPool}
use qemu_tztest.Mem32.Block.{mem_heap_allocate-Allocated_arm}

-- A level that runs in its own areas: its tables and pages are the ones of memory.h, and each page that its heap has
-- taken was paid for with a page of the pool.
pub record IsLaidOut (l : Level) (s : MemState) : Type 0 where
  pub inv : IsPool (root_table l) (pool_end l) s
  pub within : inv.next ≤ pool_end l
  pub used : ℕ
  pub heap : s.mem_heap_pool ≡ (heap_page l + used) * 0x1000
  pub paid : pool_start l + used ≤ inv.next

-- The heap pointer stays between the base of the heap and the stacks.
pub IsLaidOut-mem_heap_pool :
    (l : Level) {s : MemState} (laid : IsLaidOut l s)
    → ((layout l).va_heap_base ≤ s.mem_heap_pool) × (s.mem_heap_pool ≤ stack_end l)
IsLaidOut-mem_heap_pool l laid = (
  omega (arith, laid.heap, heap_page-va_heap_base l),
  omega (arith, laid.heap, heap_page-stack_end l, pool_end-pool_start l, laid.paid, laid.within),
)

-- A block of `len` bytes at the heap pointer, which ends before the next one starts.
pub record Placed (l : Level) (len : ℕ) (s : MemState) (laid : IsLaidOut l s)
    (result : Option (ℕ × MemState)) : Type 0 where
  pub after : MemState
  pub returns : result ≡ some (s.mem_heap_pool, after)
  pub laid' : IsLaidOut l after
  pub apart : s.mem_heap_pool + len ≤ after.mem_heap_pool
  pub costs : laid'.inv.next ≤ laid.inv.next + 2 * ((len + 0xFFF) / 0x1000)

pub mem_heap_allocate-Placed :
    (l : Level) (depth len : ℕ) {s : MemState} (laid : IsLaidOut l s)
    → laid.inv.next + 2 * ((len + 0xFFF) / 0x1000) ≤ pool_end l
    → Placed l len s laid (mem_heap_allocate (suc (suc depth)) len s)
mem_heap_allocate-Placed l depth len {s} laid room =
    let fits : s.mem_heap_pool + (len + 0xFFF) / 0x1000 * 0x1000 < 2 ^ 32 =
      omega (
        arith,
        laid.heap,
        heap_page-stack_end l,
        stack_end_lt l,
        pool_end-pool_start l,
        laid.paid,
      ) in
    let a = mem_heap_allocate-Allocated_arm depth len laid.inv fits room in
    record {
      after = a.after;
      returns = a.returns;
      laid' = record {
        inv = a.inv';
        within = omega (arith, a.taken);
        used = laid.used + (len + 0xFFF) / 0x1000;
        heap = omega (arith, a.moved, laid.heap);
        paid = omega (arith, laid.paid, a.taken);
      };
      apart = omega (arith, a.moved);
      costs = a.taken.1;
    }
