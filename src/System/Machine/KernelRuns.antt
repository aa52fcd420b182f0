-- ===== src/System/Machine/KernelRuns.antt =====
-- A kernel's part of the test table, run through the monitor.
use qemu_tztest.Common.{
  ℕ, zero, suc, ◌^◌, ◌<◌, ◌≡◌, refl, arith, true, false, Option, List, get_elem?, ◌==◌, ==_iff, u32,
}
use qemu_tztest.Bits.Fields.{bit}
use qemu_tztest.Interop.{Desc}
use qemu_tztest.Tztest.Run.{TestFn, call_test, run_test}
use qemu_tztest.Tztest.Cpu.{Cpu}
use qemu_tztest.Tztest.Cpu.Kernel.{el1_test_func}
use qemu_tztest.Tztest.Cpu.Kernel.Passes.{
  Serves, el1_check_smc-passes, el1_check_wfx_trap-passes, el1_check_cpacr_trap-passes,
  el1_check_fp_trap-passes,
}
use qemu_tztest.Tztest.Cpu.Kernel.Registers.{Denied, el1_check_register_access-passes}
use qemu_tztest.Tztest.Cpu.Masks.{Fpen}
use qemu_tztest.Tztest.Cpu.Trace.{View, kernel_route, passes, Ends}
use qemu_tztest.Tztest.Cpu.Steps.{Executes}
use qemu_tztest.El3.{Reg, Regs, El3State}
use qemu_tztest.El1.{El1State}
use qemu_tztest.System.Machine.{view_of, kernel_reg_route, cpu_at, call_monitor}
use qemu_tztest.System.Machine.Registers.{Stores}
use qemu_tztest.System.Machine.Traps.{kernel-Executes, block-Shows}
use qemu_tztest.System.Machine.KernelTests.{buf, set_buf, call_monitor-Serves, cpu_at-Denied}

-- How many checks a test of `tztest_func_id_t` makes at EL1; no test has the number 0.
abbrev pub kernel_checks : ℕ → ℕ
kernel_checks zero = 0
kernel_checks (suc zero) = 1
kernel_checks (suc (suc zero)) = 6
kernel_checks (suc (suc (suc zero))) = 2
kernel_checks (suc (suc (suc (suc zero)))) = 5
kernel_checks (suc (suc (suc (suc (suc n))))) = 6

module _ (msr : Reg → ℕ → Regs → Regs) (tests3 : List (Option (TestFn El3State)))
    (svc3 : ℕ → Desc → El3State → Option (Desc × El3State))
    (other : ℕ → El1State → Option (ℕ × El1State)) (stack : Desc) (fuel pc iss far junk : ℕ)
    (tests1 : List (Option (TestFn El1State)))
    (svc1 : ℕ → Desc → El1State → Option (Desc × El1State)) (stores : Stores msr) where
  abbrev smc_here : ℕ → El1State → Option (ℕ × El1State)
  smc_here = call_monitor msr tests3 svc3 tests1 svc1 other stack fuel pc iss far junk

  abbrev cpu : Cpu El1State
  cpu =
      cpu_at msr tests3 svc3 tests1 svc1 other stack fuel pc iss far junk kernel_route
        kernel_reg_route

  executes : Executes view_of cpu.exec kernel_route
  executes = kernel-Executes msr tests3 svc3 other stack fuel pc iss far junk tests1 svc1

  serves : Serves view_of cpu buf set_buf smc_here
  serves = call_monitor-Serves msr tests3 svc3 other stack fuel pc iss far junk tests1 svc1 stores

  denied : Denied view_of cpu buf set_buf smc_here
  denied = cpu_at-Denied msr tests3 svc3 other stack fuel pc iss far junk tests1 svc1 stores

  -- `run_test` of the kernel of the state's world.
  abbrev pub kernel_run : (fid el state arg : ℕ) → El1State → Option El1State
  kernel_run =
      run_test 1 (λ (s : El1State). s.secure_state) (el1_test_func cpu buf set_buf smc_here) svc1
        stack

  called-passes :
      (fid arg : ℕ) (s : El1State) (v : View)
      → fid < 6
      → view_of s ≡ v
      → Fpen 1 1 v.cpacr
      → bit 31 v.cptr ≡ 0
      → v.block.excp.taken ≡ false
      → Ends view_of
          (call_test (get_elem? (el1_test_func cpu buf set_buf smc_here) (u32 fid)) arg s)
          (passes (kernel_checks fid) v)
  unfolding call_test passes
  called-passes zero arg s v small at fpen access quiet = (s, refl, at)
  called-passes (suc zero) arg s v small at fpen access quiet =
      el1_check_smc-passes view_of cpu buf set_buf smc_here block-Shows executes serves arg s v at
        quiet
  called-passes (suc (suc zero)) arg s v small at fpen access quiet =
      el1_check_register_access-passes view_of cpu buf set_buf smc_here block-Shows denied arg s v
        at
  called-passes (suc (suc (suc zero))) arg s v small at fpen access quiet =
      el1_check_cpacr_trap-passes view_of cpu buf set_buf smc_here block-Shows executes serves arg s
        v at
  called-passes (suc (suc (suc (suc zero)))) arg s v small at fpen access quiet =
      el1_check_wfx_trap-passes view_of cpu buf set_buf smc_here block-Shows executes serves arg s v
        at quiet
  called-passes (suc (suc (suc (suc (suc zero))))) arg s v small at fpen access quiet =
      el1_check_fp_trap-passes view_of cpu buf set_buf smc_here block-Shows executes serves arg s v
        at fpen access quiet
  called-passes (suc (suc (suc (suc (suc (suc n)))))) arg s v small at fpen access quiet =
      absurd (omega arith)

  pub kernel_run-passes :
      (fid arg : ℕ) (s : El1State) (v : View)
      → fid < 6
      → s.secure_state < 2 ^ 32
      → view_of s ≡ v
      → Fpen 1 1 v.cpacr
      → bit 31 v.cptr ≡ 0
      → v.block.excp.taken ≡ false
      → Ends view_of (kernel_run fid 1 s.secure_state arg s) (passes (kernel_checks fid) v)
  unfolding run_test
  kernel_run-passes fid arg s v small narrow at fpen access quiet =
      let here : (u32 s.secure_state == s.secure_state) ≡ true =
        (==_iff (u32 s.secure_state) s.secure_state).1 (omega arith) in
      rw here (called-passes fid (u32 arg) s v small at fpen access quiet)
