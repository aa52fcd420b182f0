-- ===== src/Layout/Arm/Serve.antt =====
-- common/arm/memory.h and mem_util.c: a level is served within its areas.
use qemu_tztest.Common.{
  ℕ, suc, ◌+◌, ◌*◌, ◌/◌, ◌^◌, ◌≤◌, ◌<◌, ◌≡◌, refl, arith, Option, some, List, [], ◌∷◌, ◌>>=◌, ◌∙◌,
}
use qemu_tztest.Layout.{Level}
use qemu_tztest.Layout.Requests.{
  Request, map_pa, unmap_va, heap_allocate, Blocks, Memory, serve, Between, Contract, Served,
  Answered, Fulfils, AreRequests, most, serve-contract,
}
use qemu_tztest.Layout.Arm.{layout}
use qemu_tztest.Layout.Arm.Bounds.{root_table, pool_end, stack_end}
use qemu_tztest.Layout.Arm.Heap.{IsLaidOut, IsLaidOut-mem_heap_pool, mem_heap_allocate-Placed}
use qemu_tztest.Mem32.{MemState, mem_heap_allocate, mem_map_pa, mem_unmap_va}
use qemu_tztest.Mem32.Pool.{IsPool}
use qemu_tztest.Mem32.Mapping.{mem_map_pa-Pooled}
use qemu_tztest.Mem32.Fresh.{mem_unmap_va-Unmapped}

unfoldable pub ask : (depth : ℕ) → Request → MemState → Option (Blocks × MemState)
ask depth (map_pa v p ta pgattr) s = do s' ← mem_map_pa depth v p ta pgattr s; some ([], s')
ask depth (unmap_va v) s = some ([], (mem_unmap_va v s).1)
ask depth (heap_allocate len) s = do
  (a, s') ← mem_heap_allocate depth len s
  some ((a, len) ∷ [], s')

abbrev pub memory : (depth : ℕ) → Memory MemState
memory depth = record { heap_pool = λ s. s.mem_heap_pool; ask = ask depth }

-- Addresses of 32 bits, no attributes of the first level, and attributes of the page that fit below the address bits.
abbrev pub IsRequest : Request → Type 0
IsRequest (map_pa v p ta pgattr) = (ta ≡ 0) × (v < 2 ^ 32) × (p < 2 ^ 32) × (pgattr < 0x1000)
IsRequest (unmap_va v) = v < 2 ^ 32
IsRequest (heap_allocate len) = Unit

abbrev pub cost : Request → ℕ
cost (map_pa v p ta pgattr) = 1
cost (unmap_va v) = 0
cost (heap_allocate len) = 2 * ((len + 0xFFF) / 0x1000)

abbrev pub contract : Level → Contract MemState
contract l = record {
  Laid = IsLaidOut l;
  spent = λ s laid. laid.inv.next;
  limit = pool_end l;
  IsRequest = IsRequest;
  cost = cost;
  low = (layout l).va_heap_base;
  high = stack_end l;
}

-- A change of the tables that takes no heap.
quiet :
    {l : Level} (depth : ℕ) (r : Request) {s t : MemState} {result : Option (Blocks × MemState)}
    (laid : IsLaidOut l s) (inv' : IsPool (root_table l) (pool_end l) t)
    → result ≡ some ([], t)
    → laid.inv.next ≤ inv'.next
    → inv'.next ≤ laid.inv.next + cost r
    → inv'.next ≤ pool_end l
    → t.mem_heap_pool ≡ s.mem_heap_pool
    → Answered (memory depth) (contract l) r s laid result
unfolding Between
quiet {l} depth r {t = t} laid inv' ran grows costs within same =
    let laid' : IsLaidOut l t = record {
      inv = inv';
      within = within;
      used = laid.used;
      heap = same ∙ laid.heap;
      paid = omega (arith, laid.paid);
    } in
    record {
      served = record {
        blocks = [];
        after = t;
        returns = ran;
        laid' = laid';
        apart = omega arith;
        inside = ((IsLaidOut-mem_heap_pool l laid).0, (IsLaidOut-mem_heap_pool l laid').1);
      };
      costs = costs;
    }

memory-answers :
    (l : Level) (depth : ℕ) (r : Request) (s : MemState) (laid : IsLaidOut l s)
    → IsRequest r
    → laid.inv.next + cost r ≤ pool_end l
    → Answered (memory (suc (suc depth))) (contract l) r s laid (ask (suc (suc depth)) r s)
unfolding ask Between
memory-answers l depth (map_pa v p ta pgattr) s laid ok room =
    let m = mem_map_pa-Pooled depth v p pgattr laid.inv ok.1 ok.2 ok.3 (omega arith) in
    rw (ok.0) (
      quiet _ (map_pa v p 0 pgattr) laid m.inv' (rw m.returns refl) m.taken.0
        (omega (arith, m.taken)) (omega (arith, m.taken)) m.heap)
memory-answers l depth (unmap_va v) s laid ok room =
    let u = mem_unmap_va-Unmapped v laid.inv ok in
    quiet _ (unmap_va v) laid u.inv' refl (omega (arith, u.same_next)) (omega (arith, u.same_next))
      (omega (arith, u.same_next, laid.within)) u.same_heap
memory-answers l depth (heap_allocate len) s laid ok room =
    let a = mem_heap_allocate-Placed l depth len laid room in
    record {
      served = record {
        blocks = (s.mem_heap_pool, len) ∷ [];
        after = a.after;
        returns = rw a.returns refl;
        laid' = a.laid';
        apart = (omega arith, a.apart);
        inside = ((IsLaidOut-mem_heap_pool l laid).0, (IsLaidOut-mem_heap_pool l a.laid').1);
      };
      costs = a.costs;
    }

memory-Fulfils : (l : Level) (depth : ℕ) → Fulfils (memory (suc (suc depth))) (contract l)
memory-Fulfils l depth = record {
  inside = λ s laid. IsLaidOut-mem_heap_pool l laid;
  answers = memory-answers l depth;
}

-- On ARMv7, with two levels of fuel, a level that runs in the areas of memory.h is served all
-- its requests, whatever their order, if its mappings have 32-bit addresses, no first-level
-- attributes and others below 0x1000, the addresses it unmaps have 32 bits, and the requests
-- need no more pages than its pool has left: the blocks that the heap gives out do not overlap,
-- they lie between the base of the heap and the stacks, and the level is in its areas again.
pub serve-Served_arm :
    (l : Level) (depth : ℕ) (rs : List Request) (s : MemState) (laid : IsLaidOut l s)
    → AreRequests (contract l) rs
    → laid.inv.next + most (contract l) rs ≤ pool_end l
    → Served (memory (suc (suc depth))) (contract l) s (serve (memory (suc (suc depth))) rs s)
serve-Served_arm l depth rs s laid ok room =
    serve-contract (memory-Fulfils l depth) rs s laid ok room
