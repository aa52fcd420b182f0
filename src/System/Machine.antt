-- ===== src/System/Machine.antt =====
-- One world's machine for the test functions: its kernel (el1/el1.c) over the monitor (el3/el3.c), with
-- an instruction or register access that traps going through their exception handlers.
pub mod Traps
pub mod Services
pub mod Registers
pub mod UserTests
pub mod UserRuns
pub mod KernelTests
pub mod KernelRuns
pub mod Examples
use qemu_tztest.Common.{
  ℕ, ◌+◌, ◌/◌, ◌%◌, ◌^◌, ◌≡◌, ◌≢◌, Bool, true, false, ◌&&◌, ◌||◌, Option, none, some, List, ◌==◌,
  if◌then◌else◌, u64, ◌>>=◌,
}
use qemu_tztest.Bits.Fields.{bit}
use qemu_tztest.Interop.{Desc, SysControl, ec_unknown, ec_wfi_wfe, ec_simd, ec_sysinsn}
use qemu_tztest.Tztest.Run.{TestFn}
use qemu_tztest.Tztest.Check.{Shared}
use qemu_tztest.Tztest.Cpu.{Cpu, Insn}
use qemu_tztest.Tztest.Cpu.Trace.{View, Route, smc_disabled}
use qemu_tztest.El3.{
  Reg, currentel, cptr_el3, cpacr_el1, scr_el3, sctlr_el1, sder32_el3, Regs, El3State,
  el3_handle_exception,
}
use qemu_tztest.El3.World.{smc_vector}
use qemu_tztest.El1.{El1State, Below, el1_handle_svc, el1_handle_exception}

abbrev pub view_of : El1State → View
view_of s = record {
  scr = s.monitor.regs scr_el3;
  cptr = s.monitor.regs cptr_el3;
  cpacr = s.monitor.regs cpacr_el1;
  sctlr = s.monitor.regs sctlr_el1;
  block = s.syscntl;
  worlds = (s.secure_state, s.parked);
}

-- The monitor and the kernel map one control block: it goes along with a call of the monitor.
abbrev pub enter : El1State → El3State
enter s = record s.monitor { syscntl = s.syscntl }

abbrev pub leave : El3State → El1State → El1State
leave e s = record s { monitor = e; syscntl = e.syscntl }

-- Where a register access at EL1 traps to.
abbrev pub kernel_reg_route : Reg → View → Route
kernel_reg_route scr_el3 v = some (ec_unknown, 1)
kernel_reg_route sder32_el3 v = some (ec_unknown, 1)
kernel_reg_route cptr_el3 v = some (ec_unknown, 1)
kernel_reg_route cpacr_el1 v = if bit 31 v.cptr == 1 then some (ec_sysinsn, 3) else none
kernel_reg_route sctlr_el1 v = none
kernel_reg_route currentel v = none

-- At EL0 none of them may be accessed.
abbrev pub user_reg_route : Reg → View → Route
user_reg_route r v = some (ec_unknown, 1)

abbrev pub block : Shared El1State
block = record { control = λ s. s.syscntl; put = λ c s. record s { syscntl = c } }

-- `msr` is a write to the register file. `tests3`, `svc3`, `tests1`, `svc1` are what the two levels'
-- `run_test` use, `other op` is the other world's turn after an SMC that switches worlds. A trap has
-- the syndrome `iss` and `far`, stands at `pc`, and a read that traps leaves `junk`.
module _ (msr : Reg → ℕ → Regs → Regs) (tests3 : List (Option (TestFn El3State)))
    (svc3 : ℕ → Desc → El3State → Option (Desc × El3State))
    (tests1 : List (Option (TestFn El1State)))
    (svc1 : ℕ → Desc → El1State → Option (Desc × El1State))
    (other : ℕ → El1State → Option (ℕ × El1State)) (stack : Desc) (fuel pc iss far junk : ℕ) where
  -- An undefined SMC goes to the kernel's own handler, whose SMCs are undefined too.
  abbrev pub undefined_smc : El1State → Option (ℕ × El1State)
  undefined_smc s = do
    s' ←
        el1_handle_exception
          (record { read = λ r s. none; write = λ r x s. none; smc = λ op s. none }) ec_unknown iss
          far pc s
    if s'.elr == u64 (pc + 4) then some (junk, s') else none

  -- An SMC of the kernel.
  unfoldable pub call_monitor : ℕ → El1State → Option (ℕ × El1State)
  call_monitor op s =
      let call = (do
        (ret, buf, e) ← smc_vector msr tests3 svc3 stack fuel op s.smc_interop_buf pc (enter s)
        let t = record (leave e s) { smc_interop_buf = buf }
        if ret == 0 then some (0, t) else other ret t) in
      if smc_disabled (s.monitor.regs scr_el3) then undefined_smc s else call

  -- An exception that is taken to EL3 or to EL1. The interrupted code goes on behind the instruction if
  -- the handler returns there; where it returns to the instruction there is no result.
  unfoldable pub trap_to_el3 : ℕ → El1State → Option El1State
  trap_to_el3 ec s =
      let e = el3_handle_exception ec iss far pc (enter s) in
      if e.elr == u64 (pc + 4) then some (leave e s) else none

  -- The EL1 handler makes no register access.
  abbrev pub only_smc : Below
  only_smc = record { read = λ r s. none; write = λ r x s. none; smc = call_monitor }

  unfoldable pub trap_to_el1 : ℕ → El1State → Option El1State
  trap_to_el1 ec s = do
    s' ← el1_handle_exception only_smc ec iss far pc s
    if s'.elr == u64 (pc + 4) then some s' else none

  unfoldable pub trap : (ec el : ℕ) → El1State → Option El1State
  trap ec el s = if el == 3 then trap_to_el3 ec s else trap_to_el1 ec s

  -- The three kinds of access, each executed or trapped as `route` says.
  unfoldable pub exec_at : Route → El1State → Option El1State
  exec_at none s = some s
  exec_at (some (ec, el)) s = trap ec el s

  unfoldable pub read_at : Route → Reg → El1State → Option (ℕ × El1State)
  read_at none r s = some (s.monitor.regs r, s)
  read_at (some (ec, el)) r s = do s' ← trap ec el s; some (junk, s')

  unfoldable pub write_at : Route → Reg → ℕ → El1State → Option El1State
  write_at none r x s =
      some (record s { monitor = record s.monitor { regs = msr r x s.monitor.regs } })
  write_at (some (ec, el)) r x s = trap ec el s

  abbrev pub cpu_at : (Insn → View → Route) → (Reg → View → Route) → Cpu El1State
  cpu_at route reg_route = record {
    shared = block;
    exec = λ i s. exec_at (route i (view_of s)) s;
    mrs = λ r s. read_at (reg_route r (view_of s)) r s;
    msr = λ r x s. write_at (reg_route r (view_of s)) r x s;
  }

  abbrev pub below : Below
  below = record {
    read = λ r s. read_at (kernel_reg_route r (view_of s)) r s;
    write = λ r x s. write_at (kernel_reg_route r (view_of s)) r x s;
    smc = call_monitor;
  }

  -- An SVC of the user program.
  abbrev pub svc_at : ℕ → Desc → El1State → Option (ℕ × Desc × El1State)
  svc_at op desc s = el1_handle_svc below tests1 svc1 stack fuel op desc pc s
