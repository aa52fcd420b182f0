-- ===== src/Layout/Arm/Examples.antt =====
-- Tests of common/arm/memory.h: the nonsecure kernel with one table, that of the pool's own megabyte.
use qemu_tztest.Common.{
  ℕ, ◌*◌, ◌/◌, ◌%◌, ◌^◌, ◌≤◌, ◌<◌, ◌≡◌, refl, arith, ◌==◌, if◌then◌else◌, List, [], ◌∷◌,
}
use qemu_tztest.Layout.{nonsecure_kernel}
use qemu_tztest.Layout.Requests.{Request, map_pa, unmap_va, heap_allocate, serve, Served}
use qemu_tztest.Layout.Arm.Bounds.{root_table, pool_start, pool_end, heap_page}
use qemu_tztest.Layout.Arm.Heap.{IsLaidOut}
use qemu_tztest.Layout.Arm.Serve.{memory, contract, serve-Served_arm}
use qemu_tztest.Mem32.{MemState}
use qemu_tztest.Mem32.Lookup.{IsTables, slot, Present}
use qemu_tztest.Mem32.Pool.{IsPool}

abbrev pub ram : ℕ → ℕ
ram a = if a == 0x48001200 then 0x48004001 else 0

abbrev pub boot : MemState
boot = record {
  mem = ram;
  mem_pgtbl_base = 0x48000000;
  mem_next_pa = 0x48040000;
  mem_heap_pool = 0x51000000;
}

pub pool_end-nonsecure : pool_end nonsecure_kernel ≡ 0x48080
unfolding pool_end
pool_end-nonsecure = refl

pub boot-IsTables : IsTables 0x12000 boot
boot-IsTables = record {
  based = refl;
  narrow = omega arith;
  apart = λ i h p. ground arith;
  distinct = λ i j h k p q same. ground arith;
}

pub ready :
    (n : ℕ) → 0x48040 ≤ n → n < pool_end nonsecure_kernel → Present 0x12000 (n * 0x1000) boot
ready n h b z =
    let e = pool_end-nonsecure in
    let low : n * 0x1000 / 2 ^ 20 % 4096 ≡ 0x480 = omega arith in
    let entry : boot.mem (slot 0x12000 (n * 0x1000 / 2 ^ 20 % 4096)) ≡ 0x48004001 = rw low refl in
    absurd (omega (arith, entry, z))

abbrev pub boot-IsPool : IsPool 0x12000 (pool_end nonsecure_kernel) boot
boot-IsPool = record {
  next = 0x48040;
  tables = boot-IsTables;
  pool = refl;
  bound = omega (arith, pool_end-nonsecure);
  away = λ n h b e. omega (arith, h, e, b, pool_end-nonsecure);
  fresh = λ n k h b c. ground (arith, pool_end-nonsecure);
  old = λ i h p. ground arith;
  ready = ready;
}

abbrev pub boot-IsLaidOut : IsLaidOut nonsecure_kernel boot
unfolding root_table heap_page pool_start
boot-IsLaidOut = record {
  inv = boot-IsPool;
  within = omega (arith, pool_end-nonsecure);
  used = 0;
  heap = refl;
  paid = omega arith;
}

-- Two blocks with a mapping between them, which is then taken out, and an address that has no table.
abbrev pub requests : List Request
requests =
    heap_allocate 0x1001
    ∷ map_pa 0x50800000 0x12345678 0 0x32
    ∷ heap_allocate 0x20
    ∷ unmap_va 0x50800000
    ∷ unmap_va 0x90000000
    ∷ []

serve-Served_arm_example :
    Served (memory 2) (contract nonsecure_kernel) boot (serve (memory 2) requests boot)
unfolding boot-IsLaidOut pool_end
serve-Served_arm_example =
    serve-Served_arm nonsecure_kernel 0 requests boot boot-IsLaidOut
      (tt, ((refl, omega arith, omega arith, omega arith), (tt, (omega arith, (omega arith, tt)))))
      (omega arith)
