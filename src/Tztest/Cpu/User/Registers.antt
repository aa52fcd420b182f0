-- ===== src/Tztest/Cpu/User/Registers.antt =====
-- The user programs may not touch the registers of EL3.
use qemu_tztest.Common.{ℕ, ◌≡◌, refl, Option}
use qemu_tztest.Interop.{Desc, ec_unknown, excp_action_skip}
use qemu_tztest.El3.{Reg, scr_el3, sder32_el3, cptr_el3}
use qemu_tztest.Tztest.Check.{test_exception}
use qemu_tztest.Tztest.Cpu.{Cpu, read_only}
use qemu_tztest.Tztest.Cpu.User.{el0_check_register_access}
use qemu_tztest.Tztest.Cpu.Trace.{View, armed, passed, passes, Ends, Traps, next, Shows, expect}

module _ {S : Type 0} (view : S → View) (cpu : Cpu S) (svc : ℕ → Desc → S → Option (ℕ × Desc × S))
    (stack : Desc) where
  -- EL0 may access none of the EL3 registers.
  pub record Denied : Type 0 where
    pub read :
        (r : Reg) (s : S) (v : View)
        → view s ≡ v
        → v.block.excp.action ≡ excp_action_skip
        → Traps view (read_only cpu r s) ec_unknown 1 v
    pub write :
        (r : Reg) (x : ℕ) (s : S) (v : View)
        → view s ≡ v
        → v.block.excp.action ≡ excp_action_skip
        → Traps view (cpu.msr r x s) ec_unknown 1 v

  -- With every access to an EL3 register undefined at EL0, `el0_check_register_access` counts six passes
  -- and no failure, and leaves the registers as it found them.
  pub el0_check_register_access-passes :
      (shows : Shows view cpu.shared) (denied : Denied) (arg : ℕ) (s : S) (v : View)
      → view s ≡ v
      → Ends view (el0_check_register_access cpu svc stack arg s) (passes 6 v)
  unfolding el0_check_register_access passes
  el0_check_register_access-passes shows denied arg s v at =
      let reads : (r : Reg) (s : S) (v : View)
          → view s ≡ v
          → Ends view (test_exception cpu.shared (read_only cpu r) ec_unknown 1 s) (passed v) =
        λ r s v at.
          expect view cpu.shared shows ec_unknown 1 (read_only cpu r) s v at refl
            (λ u seen. denied.read r u (armed v) seen refl) in
      let writes : (r : Reg) (s : S) (v : View)
          → view s ≡ v
          → Ends view (test_exception cpu.shared (cpu.msr r 0) ec_unknown 1 s) (passed v) =
        λ r s v at.
          expect view cpu.shared shows ec_unknown 1 (cpu.msr r 0) s v at refl
            (λ u seen. denied.write r 0 u (armed v) seen refl) in
      next view _ _ (reads scr_el3 s _ at) λ s1 a1. next view _ _ (writes scr_el3 s1 _ a1) λ s2 a2.
        next view _ _ (reads sder32_el3 s2 _ a2) λ s3 a3.
          next view _ _ (writes sder32_el3 s3 _ a3)
            λ s4 a4. next view _ _ (reads cptr_el3 s4 _ a4) λ s5 a5. writes cptr_el3 s5 _ a5
