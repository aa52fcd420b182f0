-- ===== src/El1/Start.antt =====
-- The start of a kernel: el1_start of el1/el1.c and el1_init_el0 of el1_sec.c and el1_nsec.c.
pub mod Shared
use qemu_tztest.Common.{ℕ, Bool, Option, some, ◌>>=◌}
use qemu_tztest.Mem64.{MemState, page_size, mem_heap_allocate, mem_map_pa, pte_user_rw}
use qemu_tztest.Mem64.Unmap.{unmap_segment}
use qemu_tztest.El1.{El1State}
use qemu_tztest.El1.Loader.{Memory, Libc, Elf, Loading, el1_load_el0}

-- The address of the control block and of the interop buffer, both mapped. `pa` is the physical
-- address that the monitor handed over in `syscntl`; the block behind it says where the buffer is.
unfoldable pub map_shared : (depth pa : ℕ) → El1State → Option El1State
map_shared depth pa s = do
  (va, m1) ← mem_heap_allocate depth page_size s.mm
  m2 ← mem_map_pa depth va pa 0 pte_user_rw m1
  m3 ← mem_map_pa depth s.syscntl.buf_va s.syscntl.buf_pa 0 pte_user_rw m2
  some (record s { mm = m3; syscntl_va = va })

-- `el1_init_el0`: the user program's entry point, to which the kernel returns with SPSR_EL0. The two
-- worlds differ in where the image lies.
unfoldable pub el1_init_el0 :
    (libc : Libc) (exit : Loading → Option Loading) (reads : MemState → ℕ → Bool)
    (depth flash_base : ℕ)
    → Elf
    → Memory
    → El1State
    → Option (ℕ × El1State × Memory)
el1_init_el0 libc exit reads depth flash_base e bytes s = do
  (ok, entry, l) ←
      el1_load_el0 libc exit reads depth flash_base e (record { mm = s.mm; bytes = bytes })
  some (entry, record s { mm = l.mm }, l.bytes)

unfoldable pub el1_start :
    (libc : Libc) (exit : Loading → Option Loading) (reads : MemState → ℕ → Bool)
    (depth flash_base base size pa : ℕ)
    → Elf
    → Memory
    → El1State
    → Option (ℕ × El1State × Memory)
unfolding map_shared el1_init_el0
el1_start libc exit reads depth flash_base base size pa e bytes s = do
  m ← unmap_segment base size s.mm
  s' ← map_shared depth pa (record s { mm = m })
  el1_init_el0 libc exit reads depth flash_base e bytes s'
