-- ===== src/Tztest/Cpu/User/Passes.antt =====
-- On a processor that routes its traps as the architecture says, and with levels below that serve the
-- register requests, the user programs' tests pass and leave the registers as they found them.
use qemu_tztest.Common.{
  ℕ, ◌+◌, ◌<◌, ◌≡◌, refl, arith, ◌∙◌, true, false, ◌&&◌, Option, some, ◌==◌, u32, bit_and, bit_or,
}
use qemu_tztest.Bits.Fields.{bit}
use qemu_tztest.Interop.{
  Desc, key_cptr_el3, key_cpacr, key_scr, key_sctlr, ec_unknown, ec_sysinsn, excp_action_skip,
}
use qemu_tztest.Tztest.Check.{test_exception}
use qemu_tztest.Tztest.Cpu.{
  Cpu, Insn, smc, wfe, wfi, fcmp, check_fp, cptr_tfp, not_cptr_tfp, cpacr_fpen3, not_cpacr_fpen3,
}
use qemu_tztest.Tztest.Cpu.User.{
  svc_get_reg, svc_set_reg, el0_check_smc, el0_check_cpacr_trap, el0_check_fp_trap,
  el0_check_wfx_trap,
}
use qemu_tztest.Tztest.Cpu.Trace.{
  View, with_block, with_fp, armed, passed, passes, Ends, Gets, Traps, next, get, Shows, user_route,
  expect,
}
use qemu_tztest.Tztest.Cpu.Steps.{Executes, expect_value, expect_insn, expect_executed, expect_fp}
use qemu_tztest.Tztest.Cpu.Masks.{
  wait_route-el1, wait_route-el3, ntwe_clear, ntwe_set, ntwi_clear, ntwi_set, twe_set, twi_set,
  tcpac_set, tfp_set, tfp_clear, tfp_clear-tcpac, tfp_set-tcpac, Fpen, fpen3_set, fpen3_clear,
  fpen2_clear, fpen1_clear, user_route-Fpen, user_route-tfp, user_route-fp,
}

module _ {S : Type 0} (view : S → View) (cpu : Cpu S) (svc : ℕ → Desc → S → Option (ℕ × Desc × S))
    (stack : Desc) where
  -- What the levels below do for a register request: a read gives the register and a write sets it,
  -- but an access to CPACR traps to EL3 while CPTR_EL3.TCPAC is set.
  pub record Serves : Type 0 where
    pub get_cptr :
        (s : S) (v : View)
        → view s ≡ v
        → Gets view (svc_get_reg cpu svc stack key_cptr_el3 3 s) v.cptr v
    pub get_scr :
        (s : S) (v : View) → view s ≡ v → Gets view (svc_get_reg cpu svc stack key_scr 3 s) v.scr v
    pub get_sctlr :
        (s : S) (v : View)
        → view s ≡ v
        → Gets view (svc_get_reg cpu svc stack key_sctlr 1 s) v.sctlr v
    pub get_cpacr :
        (s : S) (v : View)
        → view s ≡ v
        → bit 31 v.cptr ≡ 0
        → Gets view (svc_get_reg cpu svc stack key_cpacr 1 s) v.cpacr v
    pub set_cptr :
        (x : ℕ) (s : S) (v : View)
        → view s ≡ v
        → Ends view (svc_set_reg cpu svc stack key_cptr_el3 3 x s) (record v { cptr = x })
    pub set_scr :
        (x : ℕ) (s : S) (v : View)
        → view s ≡ v
        → Ends view (svc_set_reg cpu svc stack key_scr 3 x s) (record v { scr = x })
    pub set_sctlr :
        (x : ℕ) (s : S) (v : View)
        → view s ≡ v
        → Ends view (svc_set_reg cpu svc stack key_sctlr 1 x s) (record v { sctlr = x })
    pub set_cpacr :
        (x : ℕ) (s : S) (v : View)
        → view s ≡ v
        → bit 31 v.cptr ≡ 0
        → Ends view (svc_set_reg cpu svc stack key_cpacr 1 x s) (record v { cpacr = x })
    pub get_trapped :
        (s : S) (v : View)
        → view s ≡ v
        → v.block.excp.action ≡ excp_action_skip
        → bit 31 v.cptr ≡ 1
        → Traps (λ (t : ℕ × S). view t.1) (svc_get_reg cpu svc stack key_cpacr 1 s) ec_sysinsn 3 v
    pub set_trapped :
        (x : ℕ) (s : S) (v : View)
        → view s ≡ v
        → v.block.excp.action ≡ excp_action_skip
        → bit 31 v.cptr ≡ 1
        → Traps view (svc_set_reg cpu svc stack key_cpacr 1 x s) ec_sysinsn 3 v

  module _ (shows : Shows view cpu.shared) (executes : Executes view cpu.exec user_route)
      (serves : Serves) where
    trap :
        (i : Insn) (ec el : ℕ) (s : S) (v : View)
        → view s ≡ v
        → ((el == el) && (u32 ec == ec)) ≡ true
        → user_route i (armed v) ≡ some (ec, el)
        → Ends view (test_exception cpu.shared (cpu.exec i) ec el s) (passed v)
    trap = expect_insn view cpu shows user_route executes

    -- `smc #0` at EL0 is undefined: the test counts one pass.
    pub el0_check_smc-passes :
        (arg : ℕ) (s : S) (v : View)
        → view s ≡ v
        → Ends view (el0_check_smc cpu svc stack arg s) (passed v)
    unfolding el0_check_smc
    el0_check_smc-passes arg s v at = trap smc ec_unknown 1 s v at refl refl

    -- From any state, `el0_check_wfx_trap` counts six passes and no failure, and leaves SCR, SCTLR and the
    -- other registers as it found them.
    pub el0_check_wfx_trap-passes :
        (arg : ℕ) (s : S) (v : View)
        → view s ≡ v
        → Ends view (el0_check_wfx_trap cpu svc stack arg s) (passes 6 v)
    unfolding el0_check_wfx_trap passes
    el0_check_wfx_trap-passes arg s v at = get view _ _ (serves.get_scr s v at) λ s1 a1.
        get view _ _ (serves.get_sctlr s1 v a1) λ s2 a2.
          next view _ _ (serves.set_sctlr _ s2 _ a2) λ s3 a3.
            next view _ _ (trap wfe _ 1 s3 _ a3 refl (wait_route-el1 _ _ (ntwe_clear v.sctlr)))
              λ s4 a4. next view _ _ (serves.set_scr _ s4 _ a4) λ s5 a5.
                next view _ _ (trap wfe _ 1 s5 _ a5 refl (wait_route-el1 _ _ (ntwe_clear v.sctlr)))
                  λ s6 a6. next view _ _ (serves.set_sctlr _ s6 _ a6) λ s7 a7.
                    next view _ _
                      (trap wfe _ 3 s7 _ a7 refl
                        (wait_route-el3 _ _ (ntwe_set v.sctlr) (twe_set v.scr)))
                      λ s8 a8. next view _ _ (serves.set_scr _ s8 _ a8) λ s9 a9.
                        next view _ _ (serves.set_sctlr _ s9 _ a9) λ s10 a10.
                          next view _ _
                            (trap wfi _ 1 s10 _ a10 refl (wait_route-el1 _ _ (ntwi_clear v.sctlr)))
                            λ s11 a11. next view _ _ (serves.set_scr _ s11 _ a11) λ s12 a12.
                              next view _ _
                                (trap wfi _ 1 s12 _ a12 refl
                                  (wait_route-el1 _ _ (ntwi_clear v.sctlr)))
                                λ s13 a13. next view _ _ (serves.set_sctlr _ s13 _ a13) λ s14 a14.
                                  next view _ _
                                    (trap wfi _ 3 s14 _ a14 refl
                                      (wait_route-el3 _ _ (ntwi_set v.sctlr) (twi_set v.scr)))
                                    λ s15 a15.
                                      next view _ _ (serves.set_sctlr _ s15 _ a15)
                                        λ s16 a16. serves.set_scr _ s16 _ a16

    -- With CPTR_EL3.TCPAC clear at the start, `el0_check_cpacr_trap` counts two passes and no failure, and
    -- leaves the registers as it found them.
    pub el0_check_cpacr_trap-passes :
        (arg : ℕ) (s : S) (v : View)
        → view s ≡ v
        → Ends view (el0_check_cpacr_trap cpu svc stack arg s) (passes 2 v)
    unfolding el0_check_cpacr_trap passes
    el0_check_cpacr_trap-passes arg s v at = get view _ _ (serves.get_cptr s v at) λ s1 a1.
        next view _ _ (serves.set_cptr _ s1 _ a1) λ s2 a2.
          let value =
            expect_value view cpu.shared shows ec_sysinsn 3 (svc_get_reg cpu svc stack key_cpacr 1)
              s2 _ a2 refl (λ u seen. serves.get_trapped u _ seen refl (tcpac_set v.cptr)) in
          get view _ _ value.1 λ s3 a3.
            next view _ _
              (expect view cpu.shared shows ec_sysinsn 3
                (svc_set_reg cpu svc stack key_cpacr 1 value.0) s3 _ a3 refl
                (λ u seen. serves.set_trapped _ u _ seen refl (tcpac_set v.cptr)))
              λ s4 a4. serves.set_cptr _ s4 _ a4

    -- A check with floating point disabled by CPACR, which is set back to `x` before the verdict.
    reenabled :
        (x : ℕ) (s : S) (v : View)
        → view s ≡ v
        → bit 31 v.cptr ≡ 0
        → (low high : ℕ) → Fpen low high v.cpacr
        → low + high < 2
        → Ends view
            (check_fp cpu (svc_set_reg cpu svc stack key_cpacr 1 x) 1 s)
            (passed (record v { cpacr = x }))
    reenabled x s v at access low high fpen small =
        expect_fp view cpu shows user_route executes (svc_set_reg cpu svc stack key_cpacr 1 x) 1 s v
          (record v { cpacr = x }) at refl (user_route-Fpen v low high fpen small) refl
          (λ u c seen. serves.set_cpacr x u (with_block c v) seen access)

    -- With floating point enabled by CPACR, no access to it trapped and no exception on record,
    -- `el0_check_fp_trap` counts six passes and no failure, and leaves the registers as it found them.
    pub el0_check_fp_trap-passes :
        (arg : ℕ) (s : S) (v : View)
        → view s ≡ v
        → Fpen 1 1 v.cpacr
        → bit 31 v.cptr ≡ 0
        → v.block.excp.taken ≡ false
        → Ends view (el0_check_fp_trap cpu svc stack arg s) (passes 6 v)
    unfolding el0_check_fp_trap passes
    el0_check_fp_trap-passes arg s v at fpen access quiet =
        let clear = tfp_clear-tcpac v.cptr ∙ access in
        let closed = tfp_set-tcpac v.cptr ∙ access in
        let off = bit_and v.cptr not_cptr_tfp in
        let on = bit_or v.cptr cptr_tfp in
        get view _ _ (serves.get_cptr s v at) λ s1 a1.
          get view _ _ (serves.get_cpacr s1 v a1 access) λ s2 a2.
            next view _ _ (serves.set_cpacr _ s2 _ a2 access) λ s3 a3.
              next view _ _ (serves.set_cptr _ s3 _ a3) λ s4 a4.
                next view _ _
                  (expect_executed view cpu shows user_route executes fcmp s4 _ a4 quiet (
                    user_route-fp (with_fp off (bit_or v.cpacr cpacr_fpen3) v) (fpen3_set v.cpacr)
                      (tfp_clear v.cptr)))
                  λ s5 a5. next view _ _ (serves.set_cpacr _ s5 _ a5 clear) λ s6 a6.
                    next view _ _
                      (reenabled v.cpacr s6 (with_fp off _ (passes 1 v)) a6 clear 0 0
                        (fpen3_clear v.cpacr) (omega arith))
                      λ s7 a7. next view _ _ (serves.set_cpacr _ s7 _ a7 clear) λ s8 a8.
                        next view _ _
                          (reenabled v.cpacr s8 (with_fp off _ (passes 2 v)) a8 clear 1 0
                            (fpen2_clear v.cpacr fpen) (omega arith))
                          λ s9 a9. next view _ _ (serves.set_cpacr _ s9 _ a9 clear) λ s10 a10.
                            next view _ _
                              (reenabled v.cpacr s10 (with_fp off _ (passes 3 v)) a10 clear 0 1
                                (fpen1_clear v.cpacr fpen) (omega arith))
                              λ s11 a11.
                                next view _ _ (serves.set_cpacr _ s11 _ a11 clear) λ s12 a12.
                                  next view _ _ (serves.set_cptr _ s12 _ a12) λ s13 a13.
                                    next view _ _
                                      (expect_fp view cpu shows user_route executes _ 1 s13
                                        (with_fp on (bit_and v.cpacr not_cpacr_fpen3) (passes 4 v))
                                        (passes 4 v) a13 refl
                                        (user_route-Fpen (with_fp on _ v) 0 0 (fpen3_clear v.cpacr)
                                          (omega arith))
                                        refl
                                        (λ u c seen.
                                          next view _ _ (serves.set_cpacr _ u _ seen closed)
                                            λ t b. serves.set_cptr _ t _ b))
                                      λ s14 a14.
                                        next view _ _ (serves.set_cptr _ s14 _ a14) λ s15 a15.
                                          next view _ _
                                            (expect_fp view cpu shows user_route executes _ 3 s15
                                              (with_fp on v.cpacr (passes 5 v)) (passes 5 v) a15
                                              refl
                                              (user_route-tfp (with_fp on v.cpacr v) fpen
                                                (tfp_set v.cptr))
                                              refl (λ u c seen. serves.set_cptr _ u _ seen))
                                            λ s16 a16.
                                              next view _ _ (serves.set_cpacr _ s16 _ a16 access)
                                                λ s17 a17. serves.set_cptr _ s17 _ a17
