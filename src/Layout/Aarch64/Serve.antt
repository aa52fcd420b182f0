-- ===== src/Layout/Aarch64/Serve.antt =====
-- common/aarch64/memory.h and mem_util.c: a level is served within its areas.
use qemu_tztest.Common.{
  ℕ, suc, ◌+◌, ◌*◌, ◌/◌, ◌^◌, ◌≤◌, ◌<◌, ◌≡◌, refl, arith, Option, some, List, [], ◌∷◌, ◌>>=◌, ◌∙◌,
}
use qemu_tztest.Layout.{Level}
use qemu_tztest.Layout.Requests.{
  Request, map_pa, unmap_va, heap_allocate, Blocks, Memory, serve, Between, Contract, Served,
  Answered, Fulfils, AreRequests, most, serve-contract,
}
use qemu_tztest.Layout.Aarch64.{layout}
use qemu_tztest.Layout.Aarch64.Bounds.{root_frame, pool_end, stack_end}
use qemu_tztest.Layout.Aarch64.Heap.{IsLaidOut, IsLaidOut-mem_heap_pool, mem_heap_allocate-Placed}
use qemu_tztest.Mem64.{MemState, mem_heap_allocate, mem_map_pa, mem_unmap_va}
use qemu_tztest.Mem64.State.{IsMapped}
use qemu_tztest.Mem64.Map.{mem_map_pa-Mapping}
use qemu_tztest.Mem64.Lookup.{mem_lookup_pa-mem_unmap_va}

unfoldable pub ask : (depth : ℕ) → Request → MemState → Option (Blocks × MemState)
ask depth (map_pa v p ta pgattr) s = do s' ← mem_map_pa depth v p ta pgattr s; some ([], s')
ask depth (unmap_va v) s = some ([], (mem_unmap_va v s).1)
ask depth (heap_allocate len) s = do
  (a, s') ← mem_heap_allocate depth len s
  some ((a, len) ∷ [], s')

abbrev pub memory : (depth : ℕ) → Memory MemState
memory depth = record { heap_pool = λ s. s.mem_heap_pool; ask = ask depth }

-- Attributes that fit below the address bits, and a physical address of 36 bits.
abbrev pub IsRequest : Request → Type 0
IsRequest (map_pa v p ta pgattr) = (ta < 0x1000) × (pgattr < 0x1000) × (p < 2 ^ 36)
IsRequest (unmap_va v) = Unit
IsRequest (heap_allocate len) = Unit

abbrev pub cost : Request → ℕ
cost (map_pa v p ta pgattr) = 3
cost (unmap_va v) = 0
cost (heap_allocate len) = 4 * ((len + 0xFFF) / 0x1000)

abbrev pub contract : Level → Contract MemState
contract l = record {
  Laid = IsLaidOut l;
  spent = λ s laid. laid.inv.next;
  limit = pool_end l;
  IsRequest = IsRequest;
  cost = cost;
  low = (layout l).va_heap_base;
  high = stack_end l;
}

-- A change of the tables that takes no heap.
quiet :
    {l : Level} (depth : ℕ) (r : Request) {s t : MemState} {result : Option (Blocks × MemState)}
    (laid : IsLaidOut l s) (inv' : IsMapped (root_frame l) (pool_end l) t)
    → result ≡ some ([], t)
    → laid.inv.next ≤ inv'.next
    → inv'.next ≤ laid.inv.next + cost r
    → inv'.next ≤ pool_end l
    → t.mem_heap_pool ≡ s.mem_heap_pool
    → Answered (memory depth) (contract l) r s laid result
unfolding Between
quiet {l} depth r {t = t} laid inv' ran grows costs within same =
    let laid' : IsLaidOut l t = record {
      inv = inv';
      within = within;
      used = laid.used;
      heap = same ∙ laid.heap;
      paid = omega (arith, laid.paid);
    } in
    record {
      served = record {
        blocks = [];
        after = t;
        returns = ran;
        laid' = laid';
        apart = omega arith;
        inside = ((IsLaidOut-mem_heap_pool l laid).0, (IsLaidOut-mem_heap_pool l laid').1);
      };
      costs = costs;
    }

memory-answers :
    (l : Level) (depth : ℕ) (r : Request) (s : MemState) (laid : IsLaidOut l s)
    → IsRequest r
    → laid.inv.next + cost r ≤ pool_end l
    → Answered (memory (suc (suc depth))) (contract l) r s laid (ask (suc (suc depth)) r s)
unfolding ask Between
memory-answers l depth (map_pa v p ta pgattr) s laid ok room =
    let m = mem_map_pa-Mapping v p ta pgattr depth laid.inv ok.0 ok.1 ok.2 (omega arith) in
    quiet _ (map_pa v p ta pgattr) laid m.inv' (rw m.returns refl) m.grows m.little
      (omega (arith, m.little)) m.heap
memory-answers l depth (unmap_va v) s laid ok room =
    let u = mem_lookup_pa-mem_unmap_va v laid.inv in
    quiet _ (unmap_va v) laid u.inv' refl (omega (arith, u.same_next)) (omega (arith, u.same_next))
      (omega (arith, u.same_next, laid.within)) u.same_heap
memory-answers l depth (heap_allocate len) s laid ok room =
    let a = mem_heap_allocate-Placed l depth len laid room in
    record {
      served = record {
        blocks = (s.mem_heap_pool, len) ∷ [];
        after = a.after;
        returns = rw a.returns refl;
        laid' = a.laid';
        apart = (omega arith, a.apart);
        inside = ((IsLaidOut-mem_heap_pool l laid).0, (IsLaidOut-mem_heap_pool l a.laid').1);
      };
      costs = a.costs;
    }

memory-Fulfils : (l : Level) (depth : ℕ) → Fulfils (memory (suc (suc depth))) (contract l)
memory-Fulfils l depth = record {
  inside = λ s laid. IsLaidOut-mem_heap_pool l laid;
  answers = memory-answers l depth;
}

-- On AArch64, with two levels of fuel, a level that runs in the areas of memory.h is served all
-- its requests, whatever their order, if its mappings have attributes below 0x1000 and physical
-- addresses of 36 bits and the requests need no more frames than its pool has left: the blocks
-- that the heap gives out do not overlap, they lie between the base of the heap and the stack,
-- and the level is in its areas again.
pub serve-Served :
    (l : Level) (depth : ℕ) (rs : List Request) (s : MemState) (laid : IsLaidOut l s)
    → AreRequests (contract l) rs
    → laid.inv.next + most (contract l) rs ≤ pool_end l
    → Served (memory (suc (suc depth))) (contract l) s (serve (memory (suc (suc depth))) rs s)
serve-Served l depth rs s laid ok room = serve-contract (memory-Fulfils l depth) rs s laid ok room
