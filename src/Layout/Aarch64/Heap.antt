-- ===== src/Layout/Aarch64/Heap.antt =====
-- common/aarch64/memory.h and mem_util.c: the heap of a level stays between its base and its stack.
use qemu_tztest.Common.{
  ℕ, zero, suc, ◌+◌, ◌*◌, ◌/◌, ◌≤◌, ◌<◌, ◌≡◌, refl, arith, Option, some, ◌∙◌, ap, sym,
}
use qemu_tztest.Layout.{Level}
use qemu_tztest.Layout.Aarch64.{layout}
use qemu_tztest.Layout.Aarch64.Bounds.{
  root_frame, pool_end, heap_page, stack_end, pool_end-heap_page, pool_end-root_frame,
  heap_page-stack_end, stack_end_lt, heap_page-va_heap_base,
}
use qemu_tztest.Mem64.{MemState, mem_heap_allocate}
use qemu_tztest.Mem64.State.{IsMapped}
use qemu_tztest.Mem64.Heap.{Allocated, mem_heap_allocate-Allocated}

-- A level that runs in its own areas: its tables and frames are the ones of memory.h, and each page that its heap has
-- taken was paid for with a frame of the pool.
pub record IsLaidOut (l : Level) (s : MemState) : Type 0 where
  pub inv : IsMapped (root_frame l) (pool_end l) s
  pub within : inv.next ≤ pool_end l
  pub used : ℕ
  pub heap : s.mem_heap_pool ≡ (heap_page l + used) * 0x1000
  pub paid : root_frame l + used ≤ inv.next

-- Frames that rise from `from` on are at least as many as the pages they back.
rising_le :
    (frames : ℕ → ℕ) (pages from : ℕ)
    → ((k : ℕ) → k < pages → from ≤ frames k)
    → ((k l : ℕ) → k < l → l < pages → frames k < frames l)
    → (k : ℕ) → k < pages
    → from + k ≤ frames k
rising_le frames pages from low up zero h = omega (arith, low 0 h)
rising_le frames pages from low up (suc k) h =
    omega (arith, rising_le frames pages from low up k (omega arith), up k (suc k) (omega arith) h)

Allocated-pages :
    {root limit hp pages : ℕ} {s : MemState} {inv : IsMapped root limit s}
    {result : Option (ℕ × MemState)} (a : Allocated root limit hp pages s inv result)
    → inv.next + pages ≤ a.inv'.next
Allocated-pages {pages = zero} a = omega (arith, a.taken)
Allocated-pages {pages = suc n} {inv = inv} a = omega (
  arith,
  (a.from n (omega arith)).1,
  rising_le a.frames (suc n) inv.next (λ k h. (a.from k h).0) a.rising n (omega arith),
)

-- The heap pointer stays between the base of the heap and the stack.
pub IsLaidOut-mem_heap_pool :
    (l : Level) {s : MemState} (laid : IsLaidOut l s)
    → ((layout l).va_heap_base ≤ s.mem_heap_pool) × (s.mem_heap_pool ≤ stack_end l)
IsLaidOut-mem_heap_pool l laid = (
  omega (arith, laid.heap, heap_page-va_heap_base l),
  omega (arith, laid.heap, heap_page-stack_end l, pool_end-root_frame l, laid.paid, laid.within),
)

-- A block of `len` bytes at the heap pointer, which ends before the next one starts.
pub record Placed (l : Level) (len : ℕ) (s : MemState) (laid : IsLaidOut l s)
    (result : Option (ℕ × MemState)) : Type 0 where
  pub after : MemState
  pub returns : result ≡ some (s.mem_heap_pool, after)
  pub laid' : IsLaidOut l after
  pub apart : s.mem_heap_pool + len ≤ after.mem_heap_pool
  pub costs : laid'.inv.next ≤ laid.inv.next + 4 * ((len + 0xFFF) / 0x1000)

pub mem_heap_allocate-Placed :
    (l : Level) (depth len : ℕ) {s : MemState} (laid : IsLaidOut l s)
    → laid.inv.next + 4 * ((len + 0xFFF) / 0x1000) ≤ pool_end l
    → Placed l len s laid (mem_heap_allocate (suc (suc depth)) len s)
mem_heap_allocate-Placed l depth len {s} laid room =
    let pages = (len + 0xFFF) / 0x1000 in
    let stack = heap_page-stack_end l in
    let top = stack_end_lt l in
    let root = pool_end-root_frame l in
    let a =
      mem_heap_allocate-Allocated depth (heap_page l + laid.used) pages len laid.inv laid.heap refl
        (omega (arith, pool_end-heap_page l)) (omega (arith, stack, top, root, laid.paid)) room in
    record {
      after = a.after;
      returns = a.returns ∙ ap (λ h. some (h, a.after)) (sym laid.heap);
      laid' = record {
        inv = a.inv';
        within = omega (arith, a.taken);
        used = laid.used + pages;
        heap = a.moved ∙ omega arith;
        paid = omega (arith, laid.paid, Allocated-pages a);
      };
      apart = omega (arith, a.moved, laid.heap);
      costs = a.taken.1;
    }
