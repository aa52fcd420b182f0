-- ===== src/Layout/Aarch64/Examples.antt =====
-- Tests of common/aarch64/memory.h: the monitor as its start-up code leaves it, with four tables of its pool in use.
use qemu_tztest.Common.{
  ℕ, ◌*◌, ◌/◌, ◌%◌, ◌^◌, ◌≤◌, ◌<◌, ◌≡◌, refl, arith, some, ◌==◌, if◌then◌else◌, List, [], ◌∷◌,
}
use qemu_tztest.Layout.{monitor}
use qemu_tztest.Layout.Aarch64.Bounds.{root_frame, pool_end, heap_page}
use qemu_tztest.Layout.Aarch64.Heap.{IsLaidOut}
use qemu_tztest.Layout.Requests.{Request, map_pa, unmap_va, heap_allocate, serve, Served}
use qemu_tztest.Layout.Aarch64.Serve.{memory, contract, serve-Served}
use qemu_tztest.Mem64.{MemState}
use qemu_tztest.Mem64.Table.{idx, table}
use qemu_tztest.Mem64.Tree.{IsTree}

abbrev pub ram : ℕ → ℕ
ram a =
    if a == 0x40040000
    then 0x40041003
    else if a == 0x40041008
    then 0x40042003
    else if a == 0x40042000
    then 0x40043003
    else 0

abbrev pub boot : MemState
boot = record {
  mem = ram;
  mem_pgtbl_base = 0x40040000;
  mem_next_pa = 0x40044000;
  mem_heap_pool = 0xF001000000;
}

abbrev pub levels : ℕ → ℕ
levels q =
    if q == 0x40040
    then 0
    else if q == 0x40041
    then 1
    else if q == 0x40042
    then 2
    else if q == 0x40043
    then 3
    else 9

abbrev pub parents : ℕ → ℕ
parents q =
    if q == 0x40041
    then 0x40040000
    else if q == 0x40042
    then 0x40041008
    else if q == 0x40043
    then 0x40042000
    else 0

pub pool_end-monitor : pool_end monitor ≡ 0x40080
unfolding pool_end
pool_end-monitor = refl

pub ready :
    (n : ℕ)
    → 0x40044 ≤ n
    → n < pool_end monitor
    → (q : ℕ) × (table ram (root_frame monitor) (n * 0x1000) 3 ≡ some q)
unfolding table idx root_frame
ready n h b =
    let e = pool_end-monitor in
    let i0 : n * 0x1000 / 2 ^ 39 % 512 ≡ 0 = omega arith in
    let i1 : n * 0x1000 / 2 ^ 30 % 512 ≡ 1 = omega arith in
    let i2 : n * 0x1000 / 2 ^ 21 % 512 ≡ 0 = omega arith in (0x40043, ground arith)

pub boot-IsTree : IsTree ram (root_frame monitor) 0x40044 (pool_end monitor) levels parents
unfolding root_frame
boot-IsTree = record {
  rooted = refl;
  child_lvl = λ q k h b odd. ground arith;
  child_up = λ q k h b odd. ground arith;
  fresh_lvl = λ q h b. ground arith;
  fresh_zero = λ q k h b c. ground arith;
}

abbrev pub boot-IsLaidOut : IsLaidOut monitor boot
unfolding root_frame heap_page
boot-IsLaidOut = record {
  inv = record {
    next = 0x40044;
    lvl = levels;
    up = parents;
    tree = boot-IsTree;
    based = refl;
    pool = refl;
    bound = omega (arith, pool_end-monitor);
    ready = ready;
  };
  within = omega (arith, pool_end-monitor);
  used = 0;
  heap = refl;
  paid = omega arith;
}

-- Two blocks with a mapping between them, which is then taken out.
abbrev pub requests : List Request
requests =
    heap_allocate 0x1001
    ∷ map_pa 0xFEFFFFF000 0x9000000 0 0x43
    ∷ heap_allocate 0x20
    ∷ unmap_va 0xFEFFFFF000
    ∷ []

serve-Served_example : Served (memory 2) (contract monitor) boot (serve (memory 2) requests boot)
unfolding boot-IsLaidOut pool_end
serve-Served_example =
    serve-Served monitor 0 requests boot boot-IsLaidOut
      (tt, ((omega arith, omega arith, omega arith), (tt, (tt, tt)))) (omega arith)
