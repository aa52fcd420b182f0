-- ===== src/System/Machine/UserRuns.antt =====
-- The user program's part of the test table, run through all levels of its world.
use qemu_tztest.Common.{
  ℕ, zero, suc, ◌^◌, ◌<◌, ◌≡◌, refl, arith, true, false, Option, some, List, get_elem?, ◌==◌,
  ==_iff, u32, ◌>>=◌,
}
use qemu_tztest.Bits.Fields.{bit}
use qemu_tztest.Interop.{Desc}
use qemu_tztest.Tztest.Run.{TestFn, call_test, run_test}
use qemu_tztest.Tztest.Cpu.{Cpu}
use qemu_tztest.Tztest.Cpu.User.{el0_test_func}
use qemu_tztest.Tztest.Cpu.User.Passes.{
  Serves, el0_check_smc-passes, el0_check_wfx_trap-passes, el0_check_cpacr_trap-passes,
  el0_check_fp_trap-passes,
}
use qemu_tztest.Tztest.Cpu.User.Registers.{Denied, el0_check_register_access-passes}
use qemu_tztest.Tztest.Cpu.Masks.{Fpen}
use qemu_tztest.Tztest.Cpu.Trace.{View, user_route, passes, Ends}
use qemu_tztest.Tztest.Cpu.Steps.{Executes}
use qemu_tztest.El3.{Reg, Regs, El3State}
use qemu_tztest.El1.{El1State}
use qemu_tztest.System.Machine.{view_of, user_reg_route, cpu_at, svc_at}
use qemu_tztest.System.Machine.Registers.{Stores}
use qemu_tztest.System.Machine.Traps.{user-Executes, block-Shows}
use qemu_tztest.System.Machine.UserTests.{svc_at-Serves, cpu_at-Denied}

-- How many checks a test of `tztest_func_id_t` makes at EL0; no test has the number 0.
abbrev pub user_checks : ℕ → ℕ
user_checks zero = 0
user_checks (suc zero) = 1
user_checks (suc (suc zero)) = 6
user_checks (suc (suc (suc zero))) = 2
user_checks (suc (suc (suc (suc n)))) = 6

module _ (msr : Reg → ℕ → Regs → Regs) (tests3 : List (Option (TestFn El3State)))
    (svc3 : ℕ → Desc → El3State → Option (Desc × El3State))
    (other : ℕ → El1State → Option (ℕ × El1State)) (stack : Desc) (fuel pc iss far junk : ℕ)
    (tests1 : List (Option (TestFn El1State)))
    (svc1 : ℕ → Desc → El1State → Option (Desc × El1State)) (stores : Stores msr) (world : ℕ) where
  abbrev svc_here : ℕ → Desc → El1State → Option (ℕ × Desc × El1State)
  svc_here = svc_at msr tests3 svc3 tests1 svc1 other stack fuel pc iss far junk

  abbrev cpu : Cpu El1State
  cpu =
      cpu_at msr tests3 svc3 tests1 svc1 other stack fuel pc iss far junk user_route user_reg_route

  executes : Executes view_of cpu.exec user_route
  executes = user-Executes msr tests3 svc3 other stack fuel pc iss far junk tests1 svc1

  serves : Serves view_of cpu svc_here stack
  serves = svc_at-Serves msr tests3 svc3 other stack fuel pc iss far junk tests1 svc1 stores

  denied : Denied view_of cpu svc_here stack
  denied = cpu_at-Denied msr tests3 svc3 other stack fuel pc iss far junk tests1 svc1 stores

  -- `run_test` of the user program of `world`.
  abbrev pub user_run : (fid el state arg : ℕ) → El1State → Option El1State
  user_run =
      run_test 0 (λ (s : El1State). world) (el0_test_func cpu svc_here stack)
        (λ op d s. svc_here op d s >>= λ (_, d', s'). some (d', s')) stack

  abbrev called : ℕ → TestFn El1State
  called fid = call_test (get_elem? (el0_test_func cpu svc_here stack) (u32 fid))

  called-passes :
      (fid arg : ℕ) (s : El1State) (v : View)
      → fid < 6
      → view_of s ≡ v
      → Fpen 1 1 v.cpacr
      → bit 31 v.cptr ≡ 0
      → v.block.excp.taken ≡ false
      → Ends view_of (called fid arg s) (passes (user_checks fid) v)
  unfolding call_test passes
  called-passes zero arg s v small at fpen access quiet = (s, refl, at)
  called-passes (suc zero) arg s v small at fpen access quiet =
      el0_check_smc-passes view_of cpu svc_here stack block-Shows executes serves arg s v at
  called-passes (suc (suc zero)) arg s v small at fpen access quiet =
      el0_check_register_access-passes view_of cpu svc_here stack block-Shows denied arg s v at
  called-passes (suc (suc (suc zero))) arg s v small at fpen access quiet =
      el0_check_cpacr_trap-passes view_of cpu svc_here stack block-Shows executes serves arg s v at
  called-passes (suc (suc (suc (suc zero)))) arg s v small at fpen access quiet =
      el0_check_wfx_trap-passes view_of cpu svc_here stack block-Shows executes serves arg s v at
  called-passes (suc (suc (suc (suc (suc zero))))) arg s v small at fpen access quiet =
      el0_check_fp_trap-passes view_of cpu svc_here stack block-Shows executes serves arg s v at
        fpen access quiet
  called-passes (suc (suc (suc (suc (suc (suc n)))))) arg s v small at fpen access quiet =
      absurd (omega arith)

  -- A test of the table that names EL0 and this world counts its checks as passes and no failure, and
  -- leaves SCR, CPTR_EL3, CPACR and SCTLR as it found them, if floating point is enabled by CPACR, no
  -- access to it is trapped and no exception is on record: with the real handlers of EL1 and EL3 below,
  -- on a processor that does not implement SCR.SMD and traps as the architecture says otherwise.
  pub user_run-passes :
      (fid arg : ℕ) (s : El1State) (v : View)
      → fid < 6
      → world < 2 ^ 32
      → view_of s ≡ v
      → Fpen 1 1 v.cpacr
      → bit 31 v.cptr ≡ 0
      → v.block.excp.taken ≡ false
      → Ends view_of (user_run fid 0 world arg s) (passes (user_checks fid) v)
  unfolding run_test
  user_run-passes fid arg s v small narrow at fpen access quiet =
      let here : (u32 world == world) ≡ true = (==_iff (u32 world) world).1 (omega arith) in
      rw here (called-passes fid (u32 arg) s v small at fpen access quiet)
