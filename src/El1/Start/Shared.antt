-- ===== src/El1/Start/Shared.antt =====
-- How a kernel gets at the control block and the interop buffer when it starts.
use qemu_tztest.Common.{
  ℕ, suc, ◌+◌, ◌*◌, ◌/◌, ◌^◌, ◌≤◌, ◌<◌, ◌≡◌, ◌≢◌, refl, arith, ◌∙◌, sym, inr, Option, some,
}
use qemu_tztest.Mem64.{mem_lookup_pa, page_size, pte_user_rw}
use qemu_tztest.Mem64.Leaf.{page}
use qemu_tztest.Mem64.State.{IsMapped}
use qemu_tztest.Mem64.Heap.{mem_heap_allocate-Allocated}
use qemu_tztest.Mem64.Lookup.{mem_lookup_pa-mem_map_pa}
use qemu_tztest.El1.{El1State}
use qemu_tztest.El1.Start.{map_shared}

-- The control block is found at the next heap page `hp` and the buffer where the block says, each behind the
-- physical page that the monitor chose.
pub record Shares (root limit hp pa : ℕ) (s : El1State) (result : Option El1State) : Type 0 where
  pub after : El1State
  pub returns : result ≡ some after
  pub inv' : IsMapped root limit after.mm
  pub block_at : after.syscntl_va ≡ hp * 0x1000
  pub block_seen : mem_lookup_pa after.syscntl_va after.mm ≡ pa / 0x1000 * 0x1000
  pub buffer_seen : mem_lookup_pa s.syscntl.buf_va after.mm ≡ s.syscntl.buf_pa / 0x1000 * 0x1000
  pub block_kept : after.syscntl ≡ s.syscntl

-- With ten pages left in the pool, a heap above it and the buffer at another page than the next one of the heap,
-- the kernel's start maps that heap page to the physical page of the control block that it was handed and the
-- buffer's page to the physical one that the block names, keeps the tables well formed and leaves the block as
-- it was.
pub map_shared-Shares :
    {root limit : ℕ} (depth hp pa : ℕ) (s : El1State) (inv : IsMapped root limit s.mm)
    → s.mm.mem_heap_pool ≡ hp * 0x1000
    → limit ≤ hp
    → hp + 1 ≤ 2 ^ 36
    → pa < 2 ^ 36
    → s.syscntl.buf_pa < 2 ^ 36
    → page s.syscntl.buf_va ≢ hp
    → inv.next + 10 ≤ limit
    → Shares root limit hp pa s (map_shared (suc (suc depth)) pa s)
unfolding map_shared
map_shared-Shares {root} {limit} depth hp pa s inv heap above high fits fits' apart room =
    let x =
      mem_heap_allocate-Allocated depth hp 1 page_size inv heap refl above (omega arith)
        (omega arith) in
    let y =
      mem_lookup_pa-mem_map_pa (hp * 0x1000) pa 0 pte_user_rw depth x.inv' (omega arith)
        (omega arith) fits (omega (arith, x.taken)) in
    let z =
      mem_lookup_pa-mem_map_pa s.syscntl.buf_va s.syscntl.buf_pa 0 pte_user_rw depth y.inv'
        (omega arith) (omega arith) fits' (omega (arith, x.taken, y.taken)) in
    let one : page (hp * 0x1000) ≡ hp = omega arith in
    record {
      after = record s { mm = z.after; syscntl_va = hp * 0x1000 };
      returns = rw (x.returns, y.returns, z.returns);
      inv' = z.inv';
      block_at = refl;
      block_seen =
          z.others (hp * 0x1000) (λ same. apart (sym same ∙ one))
            (inr (omega (arith, x.taken, y.taken, z.taken)))
          ∙ y.hit;
      buffer_seen = z.hit;
      block_kept = refl;
    }
