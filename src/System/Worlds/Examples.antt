-- ===== src/System/Worlds/Examples.antt =====
-- The whole run on a concrete machine.
use qemu_tztest.Common.{◌+◌, ◌*◌, ◌/◌, ◌≡◌, refl, arith, some, [], u32, ◌==◌, if◌then◌else◌}
use qemu_tztest.Mem64.{MemState, mem_lookup_pa, walk, pte_at, pte_off, is_invalid, next_table}
use qemu_tztest.Mem64.Examples.{ram, boot, boot-IsMapped}
use qemu_tztest.Interop.{Desc, TestControl, svc_op_map, secure, nonsecure}
use qemu_tztest.El3.Examples.{plain, desc, no_svc}
use qemu_tztest.El1.{El1State}
use qemu_tztest.System.Examples.{world}
use qemu_tztest.System.Machine.{view_of}
use qemu_tztest.System.Machine.Examples.{plain-Stores, no_svc1}
use qemu_tztest.System.Worlds.{start, ns_svc}
use qemu_tztest.System.Worlds.Ready.{IsReady}
use qemu_tztest.System.Worlds.Suite.{start-passes}
use qemu_tztest.System.Worlds.Mapping.{Everywhere, svc_of-Everywhere}

abbrev junk : Desc
junk = desc 7 7 7 7 7

-- The nonsecure world runs, the secure one waits.
abbrev machine : El1State
machine = record world { secure_state = 1 }

machine-IsReady : IsReady nonsecure secure (view_of machine)
machine-IsReady = record {
  test = record { fpen = (refl, refl); access = refl; quiet = refl };
  parked_fpen = (refl, refl);
  now = refl;
  away = refl;
}

start-passes_example :
    (t : El1State) × (start plain [] no_svc no_svc1 junk 2 0x80 1 2 3 machine ≡ some t)
    × IsReady nonsecure secure (view_of t)
    × (t.syscntl.test_cntl.test_count ≡ u32 (0 + 81))
    × (t.syscntl.test_cntl.fail_count ≡ 0)
start-passes_example =
    start-passes plain [] no_svc no_svc1 junk 2 0x80 1 2 3 plain-Stores machine machine-IsReady
      (omega arith)

-- A page for counters, five tests of which two failed.
abbrev counters : TestControl
counters = record { test_count = 5; fail_count = 2 }

abbrev with_block : El1State
with_block = record machine { syscntl_va = 0x1000 }

-- The nonsecure kernel's tables, with a page at 0x3000.
abbrev one_page : MemState
one_page = record boot { mem = λ a. if a == 0x4018 then 0x9000003 else ram a }

one_page_lem : mem_lookup_pa 0x3000 one_page ≡ 0x9000000
unfolding mem_lookup_pa walk pte_at pte_off is_invalid next_table
one_page_lem = refl

abbrev share : Desc
share = desc 15 0x1000 0x3000 1 0

svc_of-Everywhere_example :
    Everywhere 0x3000
      (mem_lookup_pa 0x3000 one_page / 0x1000 * 0x1000)
      (record machine { mm = one_page })
      share
      (ns_svc plain [] no_svc no_svc1 junk 2 0x80 1 2 3 svc_op_map share
        (record machine { mm = one_page }))
svc_of-Everywhere_example =
    svc_of-Everywhere plain [] no_svc no_svc1 junk 0 0x80 1 2 3 share
      (record machine { mm = one_page }) boot-IsMapped boot-IsMapped plain-Stores machine-IsReady
      refl (omega arith) (omega (arith, one_page_lem)) (omega arith) (omega arith)
