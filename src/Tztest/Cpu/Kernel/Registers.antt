-- ===== src/Tztest/Cpu/Kernel/Registers.antt =====
-- The kernels may not touch the registers of EL3, in the secure world either.
use qemu_tztest.Common.{ℕ, ◌≡◌, refl, Bool, true, false, Option}
use qemu_tztest.Interop.{Desc, ec_unknown, excp_action_skip}
use qemu_tztest.El3.{Reg, scr_el3, sder32_el3, cptr_el3}
use qemu_tztest.Tztest.Check.{test_exception}
use qemu_tztest.Tztest.Cpu.{Cpu, test_exception_value}
use qemu_tztest.Tztest.Cpu.Kernel.{el1_check_register_access}
use qemu_tztest.Tztest.Cpu.Trace.{
  View, armed, passed, passes, Ends, Gets, Traps, next, get, Shows, expect,
}
use qemu_tztest.Tztest.Cpu.Steps.{expect_value}

abbrev pub is_el3_reg : Reg → Bool
is_el3_reg scr_el3 = true
is_el3_reg sder32_el3 = true
is_el3_reg cptr_el3 = true
is_el3_reg _ = false

module _ {S : Type 0} (view : S → View) (cpu : Cpu S) (smc_interop_buf : S → Desc)
    (set_buf : Desc → S → S) (smc : ℕ → S → Option (ℕ × S)) where
  -- An access to a register of EL3 is undefined at EL1.
  pub record Denied : Type 0 where
    pub read :
        (r : Reg) (s : S) (v : View)
        → is_el3_reg r ≡ true
        → view s ≡ v
        → v.block.excp.action ≡ excp_action_skip
        → Traps (λ (t : ℕ × S). view t.1) (cpu.mrs r s) ec_unknown 1 v
    pub write :
        (r : Reg) (x : ℕ) (s : S) (v : View)
        → is_el3_reg r ≡ true
        → view s ≡ v
        → v.block.excp.action ≡ excp_action_skip
        → Traps view (cpu.msr r x s) ec_unknown 1 v

  module _ (shows : Shows view cpu.shared) (denied : Denied) where
    reads :
        (r : Reg) (s : S) (v : View)
        → is_el3_reg r ≡ true
        → view s ≡ v
        → (x : ℕ) × Gets view
            (test_exception_value cpu.shared (cpu.mrs r) ec_unknown 1 s)
            x
            (passed v)
    reads r s v here at =
        expect_value view cpu.shared shows ec_unknown 1 (cpu.mrs r) s v at refl
          (λ u seen. denied.read r u (armed v) here seen refl)

    writes :
        (r : Reg) (x : ℕ) (s : S) (v : View)
        → is_el3_reg r ≡ true
        → view s ≡ v
        → Ends view (test_exception cpu.shared (cpu.msr r x) ec_unknown 1 s) (passed v)
    writes r x s v here at =
        expect view cpu.shared shows ec_unknown 1 (cpu.msr r x) s v at refl
          (λ u seen. denied.write r x u (armed v) here seen refl)

    -- With every access to a register of EL3 undefined at EL1, `el1_check_register_access` counts six
    -- passes and no failure, and leaves the registers as it found them.
    pub el1_check_register_access-passes :
        (arg : ℕ) (s : S) (v : View)
        → view s ≡ v
        → Ends view (el1_check_register_access cpu smc_interop_buf set_buf smc arg s) (passes 6 v)
    unfolding el1_check_register_access passes
    el1_check_register_access-passes arg s v at =
        let scr = reads scr_el3 s _ refl at in
        get view _ _ scr.1 λ s1 a1. next view _ _ (writes scr_el3 _ s1 _ refl a1) λ s2 a2.
          let sder = reads sder32_el3 s2 _ refl a2 in
          get view _ _ sder.1 λ s3 a3. next view _ _ (writes sder32_el3 _ s3 _ refl a3) λ s4 a4.
            let cptr = reads cptr_el3 s4 _ refl a4 in
            get view _ _ cptr.1 λ s5 a5. writes cptr_el3 _ s5 _ refl a5
