-- ===== src/System/Worlds/Main.antt =====
-- The nonsecure program from its first instruction to the shutdown: main of el0_nsec.c over both worlds.
use qemu_tztest.Common.{ℕ, Option, none, some, List, ◌==◌, if◌then◌else◌}
use qemu_tztest.Interop.{Desc, TestControl}
use qemu_tztest.Interop.Alloc
use qemu_tztest.Interop.MapMem
use qemu_tztest.Interop.Data
use qemu_tztest.Tztest.Run.{TestFn}
use qemu_tztest.El3.{Reg, Regs, El3State, sys_shutdown}
use qemu_tztest.El1.{El1State}
use qemu_tztest.System.Machine.{enter}
use qemu_tztest.System.Worlds.{ns_svc}

-- `syscntl->test_cntl = p` through a control block at `va`: a write through null faults; afterwards the
-- counters are what the new page holds.
abbrev pub point : TestControl → (va p : ℕ) → El1State → Option El1State
point fresh va p s =
    if va == 0 then none else some (record s { syscntl = record s.syscntl { test_cntl = fresh } })

module _ (msr : Reg → ℕ → Regs → Regs) (tests3 : List (Option (TestFn El3State)))
    (svc3 : ℕ → Desc → El3State → Option (Desc × El3State))
    (svc1 : ℕ → Desc → El1State → Option (Desc × El1State)) (stack : Desc)
    (fuel pc iss far junk : ℕ) where
  abbrev svc_here : ℕ → Desc → El1State → Option (ℕ × Desc × El1State)
  svc_here = ns_svc msr tests3 svc3 svc1 stack fuel pc iss far junk

  -- The machine after the monitor has shut it down.
  abbrev shut : El1State → El1State
  shut s = record s { monitor = record (enter s) { cfgctrl = sys_shutdown; elr = pc }; elr = pc }
