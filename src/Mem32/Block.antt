-- ===== src/Mem32/Block.antt =====
-- mem_heap_allocate of ARMv7 over the pool: each page of a block takes a page of the pool.
use qemu_tztest.Common.{
  ℕ, zero, suc, ◌+◌, ◌*◌, ◌/◌, ◌^◌, ◌≤◌, ◌<◌, ◌≡◌, refl, arith, ◌∙◌, Option, some, u32,
}
use qemu_tztest.Mem32.{MemState, mem_heap_allocate}
use qemu_tztest.Mem32.Pool.{IsPool}
use qemu_tztest.Mem32.Fresh.{Kept, mem_map_va-Fresh}
use qemu_tztest.Mem32.Heap.{map_pages, mem_heap_allocate-map_pages}

-- `n` pages are backed, each by a page of the pool.
record Backed (root limit n : ℕ) (s : MemState) (inv : IsPool root limit s)
    (result : Option MemState) : Type 0 where
  after : MemState
  returns : result ≡ some after
  kept : Kept root limit (2 * n) s inv after
  backs : inv.next + n ≤ kept.inv'.next
  heap : after.mem_heap_pool ≡ s.mem_heap_pool

map_pages-Backed :
    {root limit : ℕ} (n f v : ℕ) {s : MemState} (inv : IsPool root limit s)
    → v + n * 0x1000 < 2 ^ 32
    → inv.next + 2 * n ≤ limit
    → Backed root limit n s inv (map_pages n (suc (suc f)) v s)
unfolding map_pages
map_pages-Backed zero f v {s} inv fits room = record {
  after = s;
  returns = refl;
  kept = record { inv' = inv; taken = (omega arith, omega arith); stays = λ w p. p };
  backs = omega arith;
  heap = refl;
}
map_pages-Backed (suc n) f v {s} inv fits room =
    let p = mem_map_va-Fresh f v inv (omega arith) (omega arith) in
    let b =
      map_pages-Backed n f (u32 (v + 0x1000)) p.kept.inv' (omega arith)
        (omega (arith, p.kept.taken)) in
    record {
      after = b.after;
      returns = rw p.returns b.returns;
      kept = record {
        inv' = b.kept.inv';
        taken =
            (omega (arith, p.kept.taken, b.kept.taken), omega (arith, p.kept.taken, b.kept.taken));
        stays = λ w has. b.kept.stays w (p.kept.stays w has);
      };
      backs = omega (arith, b.backs, p.grows);
      heap = b.heap ∙ p.heap;
    }

-- The block of `pages` pages at the heap pointer.
pub record Allocated (root limit pages : ℕ) (s : MemState) (inv : IsPool root limit s)
    (result : Option (ℕ × MemState)) : Type 0 where
  pub after : MemState
  pub returns : result ≡ some (s.mem_heap_pool, after)
  pub inv' : IsPool root limit after
  pub moved : after.mem_heap_pool ≡ s.mem_heap_pool + pages * 0x1000
  pub taken : (inv.next + pages ≤ inv'.next) × (inv'.next ≤ inv.next + 2 * pages)

pub mem_heap_allocate-Allocated_arm :
    {root limit : ℕ} (depth len : ℕ) {s : MemState} (inv : IsPool root limit s)
    → s.mem_heap_pool + (len + 0xFFF) / 0x1000 * 0x1000 < 2 ^ 32
    → inv.next + 2 * ((len + 0xFFF) / 0x1000) ≤ limit
    → Allocated root limit
        ((len + 0xFFF) / 0x1000)
        s
        inv
        (mem_heap_allocate (suc (suc depth)) len s)
mem_heap_allocate-Allocated_arm {root} {limit} depth len {s} inv fits room =
    let pages = (len + 0xFFF) / 0x1000 in
    let start : u32 s.mem_heap_pool ≡ s.mem_heap_pool = omega arith in
    let b = map_pages-Backed pages depth s.mem_heap_pool inv fits room in
    let moved : u32 (b.after.mem_heap_pool + pages * 0x1000) ≡ s.mem_heap_pool + pages * 0x1000 =
      omega (arith, b.heap) in
    let after = record b.after { mem_heap_pool = u32 (b.after.mem_heap_pool + pages * 0x1000) } in
    record {
      after = after;
      returns =
          mem_heap_allocate-map_pages (suc (suc depth)) len s (omega (arith, inv.bound))
          ∙ rw (start, b.returns) refl;
      inv' = record {
        next = b.kept.inv'.next;
        tables = record {
          based = b.kept.inv'.tables.based;
          narrow = b.kept.inv'.tables.narrow;
          apart = b.kept.inv'.tables.apart;
          distinct = b.kept.inv'.tables.distinct;
        };
        pool = b.kept.inv'.pool;
        bound = b.kept.inv'.bound;
        away = b.kept.inv'.away;
        fresh = b.kept.inv'.fresh;
        old = b.kept.inv'.old;
        ready = b.kept.inv'.ready;
      };
      moved = moved;
      taken = (b.backs, b.kept.taken.1);
    }
