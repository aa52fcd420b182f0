-- ===== src/Tztest/Arm/Secure.antt =====
-- The secure kernel may access the secure registers: el1_check_register_access of tztest_el1_sec.c for ARMv7.
use qemu_tztest.Common.{ℕ, ◌≡◌, refl, ap, ◌∙◌, true, false, not}
use qemu_tztest.Tztest.Check.{
  modify, enable_excp_log, excp_reset, count_verdict, test_condition, test_no_exception,
}
use qemu_tztest.Tztest.Check.Laws.{settle_quiet}
use qemu_tztest.Tztest.Cpu.{with_local}
use qemu_tztest.Tztest.Cpu.Trace.{
  View, with_block, armed, passed, passes, Ends, Gets, next, get, Shows, modify-armed, settle,
  expect_none,
}
use qemu_tztest.Tztest.Arm.{
  ArmCpu, ArmReg, scr_c1, sder_c1, mvbar_c12, nsacr_c1, no_exception_value,
  sec_check_register_access,
}

-- The view shows SCR alone of these registers.
abbrev pub Holds : ArmReg → ℕ → View → Type 0
Holds r x v = r ≡ scr_c1 → x ≡ v.scr

module _ {S : Type 0} (view : S → View) (cpu : ArmCpu S) where
  -- Reads and writes are executed; a write of SCR's own value, or to one of the other registers, changes
  -- nothing that the view shows.
  pub record Accessible : Type 0 where
    pub read :
        (r : ArmReg) (s : S) (v : View)
        → view s ≡ v
        → (x : ℕ) × Gets view (cpu.mrc r s) x v × Holds r x v
    pub write :
        (r : ArmReg) (x : ℕ) (s : S) (v : View)
        → view s ≡ v
        → Holds r x v
        → Ends view (cpu.mcr r x s) v

  module _ (shows : Shows view cpu.shared) (accessible : Accessible) where
    reads :
        (r : ArmReg) (s : S) (v : View)
        → view s ≡ v
        → v.block.excp.taken ≡ false
        → (x : ℕ) × Gets view (no_exception_value cpu.shared (cpu.mrc r) s) x (passed v)
          × Holds r x v
    unfolding no_exception_value test_no_exception with_local test_condition enable_excp_log
    reads r s v at quiet =
        let (x, (u, e, seen), holds) =
          accessible.read r (modify cpu.shared enable_excp_log s) (armed v)
            (modify-armed view cpu.shared shows s v at) in
        (
          x,
          (
            modify cpu.shared excp_reset (test_condition cpu.shared (λ c. not c.excp.taken) u),
            rw e,
            settle view cpu.shared shows (λ c. not c.excp.taken) u _ seen
                ∙ ap (λ b. with_block (excp_reset (count_verdict (not b) (armed v).block)) v) quiet
                ∙ ap (λ c. with_block c v) (settle_quiet true v.block),
          ),
          holds,
        )

    writes :
        (r : ArmReg) (x : ℕ) (s : S) (v : View)
        → view s ≡ v
        → v.block.excp.taken ≡ false
        → Holds r x v
        → Ends view (test_no_exception cpu.shared (cpu.mcr r x) s) (passed v)
    writes r x s v at quiet holds =
        expect_none view cpu.shared shows (cpu.mcr r x) s v at quiet
          (λ u seen. accessible.write r x u (armed v) seen holds)

    -- With SCR, SDER, MVBAR and NSACR accessible and no exception on record, the secure kernel's
    -- el1_check_register_access for ARMv7 counts seven passes and no failure, and leaves the registers of the
    -- view as it found them.
    pub sec_check_register_access-passes :
        (arg : ℕ) (s : S) (v : View)
        → view s ≡ v
        → v.block.excp.taken ≡ false
        → Ends view (sec_check_register_access cpu arg s) (passes 7 v)
    unfolding sec_check_register_access passes
    sec_check_register_access-passes arg s v at quiet =
        let scr = reads scr_c1 s _ at quiet in
        get view _ _ scr.1 λ s1 a1. next view _ _ (writes scr_c1 _ s1 _ a1 refl scr.2) λ s2 a2.
          let sder = reads sder_c1 s2 _ a2 refl in
          get view _ _ sder.1 λ s3 a3.
            next view _ _ (writes sder_c1 _ s3 _ a3 refl (λ h. cc)) λ s4 a4.
              let mvbar = reads mvbar_c12 s4 _ a4 refl in
              get view _ _ mvbar.1 λ s5 a5.
                next view _ _ (writes mvbar_c12 _ s5 _ a5 refl (λ h. cc))
                  λ s6 a6. writes nsacr_c1 0 s6 _ a6 refl (λ h. cc)
