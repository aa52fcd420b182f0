-- ===== src/System/Worlds.antt =====
-- Both worlds on one monitor: the nonsecure program runs on its kernel while the secure program and its
-- kernel wait in their yield, and the other way round. The control block, the buffer and the monitor
-- are shared.
pub mod Local
pub mod Ready
pub mod Remote
pub mod Interop
pub mod Suite
pub mod Mapping
pub mod Main
pub mod Examples
use qemu_tztest.Common.{ℕ, zero, suc, Option, none, some, List, [], ◌==◌, if◌then◌else◌, ◌>>=◌}
use qemu_tztest.Interop.{Desc, secure, nonsecure}
use qemu_tztest.Tztest.Run.{TestFn, run_test}
use qemu_tztest.Tztest.Driver.{tztest_start}
use qemu_tztest.Tztest.Cpu.User.{el0_test_func}
use qemu_tztest.Tztest.Cpu.Kernel.{el1_test_func}
use qemu_tztest.Tztest.Cpu.Trace.{user_route, kernel_route}
use qemu_tztest.El3.{
  Reg, currentel, cptr_el3, cpacr_el1, scr_el3, sctlr_el1, sder32_el3, Regs, El3State,
}
use qemu_tztest.El1.{El1State, Parked}
use qemu_tztest.El0.{loop_switch}
use qemu_tztest.System.Machine.{
  user_reg_route, kernel_reg_route, block, call_monitor, cpu_at, svc_at,
}

-- SCTLR_EL1 and CPACR_EL1 are among what the monitor saves and restores.
abbrev pub banked : Parked → Regs → Regs
banked p regs currentel = regs currentel
banked p regs cptr_el3 = regs cptr_el3
banked p regs cpacr_el1 = p.cpacr
banked p regs scr_el3 = regs scr_el3
banked p regs sctlr_el1 = p.sctlr
banked p regs sder32_el3 = regs sder32_el3

-- The running world and the one that waits change places.
abbrev pub change_places : El1State → El1State
change_places s = record s {
  syscntl_va = s.parked.syscntl_va;
  secure_state = s.parked.secure_state;
  mm = s.parked.mm;
  elr = s.parked.elr;
  monitor = record s.monitor { regs = banked s.parked s.monitor.regs };
  parked = record {
    syscntl_va = s.syscntl_va;
    secure_state = s.secure_state;
    mm = s.mm;
    elr = s.elr;
    sctlr = s.monitor.regs sctlr_el1;
    cpacr = s.monitor.regs cpacr_el1;
  };
}

-- The secure kernel's SMC ends its world's turn.
abbrev pub end_turn : ℕ → El1State → Option (ℕ × El1State)
end_turn op s = some (op, s)

-- The parameters are those of the machine of one world, less what the two worlds are for one another.
module _ (msr : Reg → ℕ → Regs → Regs) (tests3 : List (Option (TestFn El3State)))
    (svc3 : ℕ → Desc → El3State → Option (Desc × El3State))
    (svc1 : ℕ → Desc → El1State → Option (Desc × El1State)) (stack : Desc)
    (fuel pc iss far junk : ℕ) where
  -- `other` is what follows an SMC that switches worlds.
  module _ (other : ℕ → El1State → Option (ℕ × El1State)) where
    -- The test functions of the kernel.
    abbrev pub kernel_tests : List (Option (TestFn El1State))
    kernel_tests =
        el1_test_func
          (cpu_at msr tests3 svc3 [] svc1 other stack fuel pc iss far junk kernel_route
            kernel_reg_route)
          (λ s. s.smc_interop_buf) (λ d s. record s { smc_interop_buf = d })
          (call_monitor msr tests3 svc3 [] svc1 other stack fuel pc iss far junk)

    -- An SVC of the user program.
    abbrev pub svc_of : ℕ → Desc → El1State → Option (ℕ × Desc × El1State)
    svc_of = svc_at msr tests3 svc3 kernel_tests svc1 other stack fuel pc iss far junk

    -- The user program's `run_test`.
    abbrev pub run_of : (world fid el state arg : ℕ) → El1State → Option El1State
    run_of world =
        run_test 0 (λ (s : El1State). world)
          (el0_test_func
            (cpu_at msr tests3 svc3 kernel_tests svc1 other stack fuel pc iss far junk user_route
              user_reg_route)
            svc_of stack)
          (λ op d s. svc_of op d s >>= λ (_, d', s'). some (d', s')) stack

  -- The secure program's loop from an operation that its kernel's SVC returns: it handles the operation and
  -- makes its next SVC, which returns 0 at once unless it yields; that ends the turn. `none` when the rounds
  -- given are over: a round on 0 yields, so two are enough.
  unfoldable pub rounds : (n op : ℕ) → Desc → El1State → Option (ℕ × El1State)
  rounds zero op desc t = none
  rounds (suc n) op desc t = do
    (op', desc', t') ← loop_switch (svc_of end_turn) stack (run_of end_turn secure) op desc t
    (ret, desc'', t'') ← svc_of end_turn op' desc' t'
    let rest = rounds n ret desc'' t''
    if ret == 0 then rest else some (ret, t'')

  -- The secure world's turn, after an SMC of the nonsecure kernel that returns `op` to it: its kernel
  -- returns from the yield with the buffer.
  unfoldable pub secure_turn : ℕ → El1State → Option (ℕ × El1State)
  unfolding rounds
  secure_turn op s = do
    let t = change_places s
    (ret, t') ← rounds 2 op t.smc_interop_buf t
    some (ret, change_places t')

  abbrev pub ns_svc : ℕ → Desc → El1State → Option (ℕ × Desc × El1State)
  ns_svc = svc_of secure_turn

  abbrev pub ns_run : (fid el state arg : ℕ) → El1State → Option El1State
  ns_run = run_of secure_turn nonsecure

  -- `tztest_start` of the nonsecure program, over everything below it.
  unfoldable pub start : El1State → Option El1State
  start s = tztest_start block ns_svc stack ns_run s
