-- ===== src/Tztest/Arm/Registers.antt =====
-- The nonsecure kernel may not touch the secure registers: el1_check_register_access of tztest_el1_nsec.c
-- for ARMv7.
use qemu_tztest.Common.{ℕ, ◌≡◌, ◌≢◌, refl}
use qemu_tztest.Interop.{ec_unknown, excp_action_skip}
use qemu_tztest.Tztest.Check.{test_exception}
use qemu_tztest.Tztest.Cpu.{test_exception_value}
use qemu_tztest.Tztest.Cpu.Trace.{
  View, armed, passed, passes, Ends, Gets, Traps, next, get, Shows, expect,
}
use qemu_tztest.Tztest.Cpu.Steps.{expect_value}
use qemu_tztest.Tztest.Arm.{
  ArmCpu, ArmReg, scr_c1, sder_c1, mvbar_c12, nsacr_c1, nsec_check_register_access,
}

module _ {S : Type 0} (view : S → View) (cpu : ArmCpu S) where
  -- An access to a secure register is undefined in nonsecure state, but for a read of NSACR.
  pub record Undefined : Type 0 where
    pub read :
        (r : ArmReg) (s : S) (v : View)
        → r ≢ nsacr_c1
        → view s ≡ v
        → v.block.excp.action ≡ excp_action_skip
        → Traps (λ (t : ℕ × S). view t.1) (cpu.mrc r s) ec_unknown 1 v
    pub write :
        (r : ArmReg) (x : ℕ) (s : S) (v : View)
        → view s ≡ v
        → v.block.excp.action ≡ excp_action_skip
        → Traps view (cpu.mcr r x s) ec_unknown 1 v

  module _ (shows : Shows view cpu.shared) (undefined : Undefined) where
    reads :
        (r : ArmReg) (s : S) (v : View)
        → r ≢ nsacr_c1
        → view s ≡ v
        → (x : ℕ) × Gets view
            (test_exception_value cpu.shared (cpu.mrc r) ec_unknown 1 s)
            x
            (passed v)
    reads r s v off at =
        expect_value view cpu.shared shows ec_unknown 1 (cpu.mrc r) s v at refl
          (λ u seen. undefined.read r u (armed v) off seen refl)

    writes :
        (r : ArmReg) (x : ℕ) (s : S) (v : View)
        → view s ≡ v
        → Ends view (test_exception cpu.shared (cpu.mcr r x) ec_unknown 1 s) (passed v)
    writes r x s v at =
        expect view cpu.shared shows ec_unknown 1 (cpu.mcr r x) s v at refl
          (λ u seen. undefined.write r x u (armed v) seen refl)

    -- With every access to SCR, SDER and MVBAR and the write of NSACR undefined and stepped over, the nonsecure kernel's
    -- el1_check_register_access for ARMv7 counts seven passes and no failure, and leaves the registers as it
    -- found them.
    pub nsec_check_register_access-passes :
        (arg : ℕ) (s : S) (v : View)
        → view s ≡ v
        → Ends view (nsec_check_register_access cpu arg s) (passes 7 v)
    unfolding nsec_check_register_access passes
    nsec_check_register_access-passes arg s v at =
        let scr = reads scr_c1 s _ (λ e. cc) at in
        get view _ _ scr.1 λ s1 a1. next view _ _ (writes scr_c1 _ s1 _ a1) λ s2 a2.
          let sder = reads sder_c1 s2 _ (λ e. cc) a2 in
          get view _ _ sder.1 λ s3 a3. next view _ _ (writes sder_c1 _ s3 _ a3) λ s4 a4.
            let mvbar = reads mvbar_c12 s4 _ (λ e. cc) a4 in
            get view _ _ mvbar.1
              λ s5 a5. next view _ _ (writes mvbar_c12 _ s5 _ a5) λ s6 a6. writes nsacr_c1 0 s6 _ a6
