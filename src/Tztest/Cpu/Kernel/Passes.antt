-- ===== src/Tztest/Cpu/Kernel/Passes.antt =====
-- On a processor that routes its traps as the architecture says, and with a monitor that serves the
-- register requests, the kernels' tests pass and leave the registers as they found them.
use qemu_tztest.Common.{ℕ, ◌≡◌, refl, ◌∙◌, false, Option, some, bit_and, bit_or}
use qemu_tztest.Bits.Fields.{bit}
use qemu_tztest.Interop.{Desc, key_cptr_el3, key_scr, ec_wfi_wfe, ec_sysinsn, excp_action_skip}
use qemu_tztest.El3.{cpacr_el1, sctlr_el1}
use qemu_tztest.Tztest.Check.{test_exception}
use qemu_tztest.Tztest.Cpu.{
  Cpu, Insn, wfe, wfi, fcmp, check_fp, cptr_tfp, not_cptr_tfp, cpacr_fpen3,
}
use qemu_tztest.Tztest.Cpu.Kernel.{
  el1_check_smc, el1_check_cpacr_trap, el1_check_wfx_trap, el1_check_fp_trap,
}
use qemu_tztest.Tztest.Cpu.Smc.{smc_get_reg, smc_set_reg, smc_noop}
use qemu_tztest.Tztest.Cpu.Trace.{
  View, with_block, with_fp, armed, passed, passes, Ends, Gets, Traps, next, get, Shows,
  kernel_route, expect, expect_none,
}
use qemu_tztest.Tztest.Cpu.Steps.{Executes, expect_value, expect_insn, expect_executed, expect_fp}
use qemu_tztest.Tztest.Cpu.Masks.{
  wait_route-el3, wait_route-none, twe_set, twe_clear, twi_set, tcpac_set, tfp_set, tfp_clear,
  tfp_clear-tcpac, tfp_set-tcpac, Fpen, fpen3_set, fpen3_clear, fpen2_clear, fpen1_clear,
  kernel_route-fpen, kernel_route-tfp, kernel_route-fp,
}

module _ {S : Type 0} (view : S → View) (cpu : Cpu S) (smc_interop_buf : S → Desc)
    (set_buf : Desc → S → S) (smc : ℕ → S → Option (ℕ × S)) where
  abbrev read : (key : ℕ) → S → Option (ℕ × S)
  read key = smc_get_reg smc_interop_buf set_buf smc key 3

  abbrev write : (key x : ℕ) → S → Option S
  write key = smc_set_reg smc_interop_buf set_buf smc key 3

  -- What EL3 does for a register request, and what EL1's own accesses do: an access to CPACR traps to
  -- EL3 while CPTR_EL3.TCPAC is set, and the registers of EL3 are undefined at EL1. An SMC goes through
  -- whatever SCR.SMD holds.
  pub record Serves : Type 0 where
    pub get_cptr : (s : S) (v : View) → view s ≡ v → Gets view (read key_cptr_el3 s) v.cptr v
    pub get_scr : (s : S) (v : View) → view s ≡ v → Gets view (read key_scr s) v.scr v
    pub set_cptr :
        (x : ℕ) (s : S) (v : View)
        → view s ≡ v
        → Ends view (write key_cptr_el3 x s) (record v { cptr = x })
    pub set_scr :
        (x : ℕ) (s : S) (v : View)
        → view s ≡ v
        → Ends view (write key_scr x s) (record v { scr = x })
    pub noop :
        (s : S) (v : View) → view s ≡ v → Ends view (smc_noop smc_interop_buf set_buf smc s) v
    pub get_sctlr : (s : S) (v : View) → view s ≡ v → Gets view (cpu.mrs sctlr_el1 s) v.sctlr v
    pub set_sctlr :
        (x : ℕ) (s : S) (v : View)
        → view s ≡ v
        → Ends view (cpu.msr sctlr_el1 x s) (record v { sctlr = x })
    pub get_cpacr :
        (s : S) (v : View)
        → view s ≡ v
        → bit 31 v.cptr ≡ 0
        → Gets view (cpu.mrs cpacr_el1 s) v.cpacr v
    pub set_cpacr :
        (x : ℕ) (s : S) (v : View)
        → view s ≡ v
        → bit 31 v.cptr ≡ 0
        → Ends view (cpu.msr cpacr_el1 x s) (record v { cpacr = x })
    pub get_trapped :
        (s : S) (v : View)
        → view s ≡ v
        → v.block.excp.action ≡ excp_action_skip
        → bit 31 v.cptr ≡ 1
        → Traps (λ (t : ℕ × S). view t.1) (cpu.mrs cpacr_el1 s) ec_sysinsn 3 v
    pub set_trapped :
        (x : ℕ) (s : S) (v : View)
        → view s ≡ v
        → v.block.excp.action ≡ excp_action_skip
        → bit 31 v.cptr ≡ 1
        → Traps view (cpu.msr cpacr_el1 x s) ec_sysinsn 3 v

  module _ (shows : Shows view cpu.shared) (executes : Executes view cpu.exec kernel_route)
      (serves : Serves) where
    trap :
        (i : Insn) (s : S) (v : View)
        → view s ≡ v
        → kernel_route i (armed v) ≡ some (ec_wfi_wfe, 3)
        → Ends view (test_exception cpu.shared (cpu.exec i) ec_wfi_wfe 3 s) (passed v)
    trap i s v at = expect_insn view cpu shows kernel_route executes i ec_wfi_wfe 3 s v at refl

    -- With no exception on record, `el1_check_smc` counts one pass and leaves SCR as it found it.
    pub el1_check_smc-passes :
        (arg : ℕ) (s : S) (v : View)
        → view s ≡ v
        → v.block.excp.taken ≡ false
        → Ends view (el1_check_smc cpu smc_interop_buf set_buf smc arg s) (passes 1 v)
    unfolding el1_check_smc passes
    el1_check_smc-passes arg s v at quiet = get view _ _ (serves.get_scr s v at) λ s1 a1.
        next view _ _ (serves.set_scr _ s1 _ a1) λ s2 a2.
          next view _ _
            (expect_none view cpu.shared shows (smc_noop smc_interop_buf set_buf smc) s2 _ a2 quiet
              (λ u seen. serves.noop u _ seen))
            λ s3 a3. serves.set_scr _ s3 _ a3

    -- `el1_check_cpacr_trap` counts two passes and no failure, and leaves the registers as it found them.
    pub el1_check_cpacr_trap-passes :
        (arg : ℕ) (s : S) (v : View)
        → view s ≡ v
        → Ends view (el1_check_cpacr_trap cpu smc_interop_buf set_buf smc arg s) (passes 2 v)
    unfolding el1_check_cpacr_trap passes
    el1_check_cpacr_trap-passes arg s v at = get view _ _ (serves.get_cptr s v at) λ s1 a1.
        next view _ _ (serves.set_cptr _ s1 _ a1) λ s2 a2.
          let value =
            expect_value view cpu.shared shows ec_sysinsn 3 (cpu.mrs cpacr_el1) s2 _ a2 refl
              (λ u seen. serves.get_trapped u _ seen refl (tcpac_set v.cptr)) in
          get view _ _ value.1 λ s3 a3.
            next view _ _
              (expect view cpu.shared shows ec_sysinsn 3 (cpu.msr cpacr_el1 value.0) s3 _ a3 refl
                (λ u seen. serves.set_trapped _ u _ seen refl (tcpac_set v.cptr)))
              λ s4 a4. serves.set_cptr _ s4 _ a4

    -- With no exception on record, `el1_check_wfx_trap` counts five passes and no failure, and leaves the
    -- registers as it found them.
    pub el1_check_wfx_trap-passes :
        (arg : ℕ) (s : S) (v : View)
        → view s ≡ v
        → v.block.excp.taken ≡ false
        → Ends view (el1_check_wfx_trap cpu smc_interop_buf set_buf smc arg s) (passes 5 v)
    unfolding el1_check_wfx_trap passes
    el1_check_wfx_trap-passes arg s v at quiet = get view _ _ (serves.get_scr s v at) λ s1 a1.
        get view _ _ (serves.get_sctlr s1 v a1) λ s2 a2.
          next view _ _ (serves.set_sctlr _ s2 _ a2) λ s3 a3.
            next view _ _ (serves.set_scr _ s3 _ a3) λ s4 a4.
              next view _ _
                (expect_executed view cpu shows kernel_route executes wfe s4 _ a4 quiet
                  (wait_route-none 1 _ refl (twe_clear v.scr)))
                λ s5 a5. next view _ _ (serves.set_scr _ s5 _ a5) λ s6 a6.
                  next view _ _ (trap wfe s6 _ a6 (wait_route-el3 1 _ refl (twe_set v.scr)))
                    λ s7 a7. next view _ _ (serves.set_sctlr _ s7 _ a7) λ s8 a8.
                      next view _ _ (trap wfe s8 _ a8 (wait_route-el3 1 _ refl (twe_set v.scr)))
                        λ s9 a9. next view _ _ (serves.set_scr _ s9 _ a9) λ s10 a10.
                          next view _ _
                            (trap wfi s10 _ a10 (wait_route-el3 1 _ refl (twi_set v.scr)))
                            λ s11 a11. next view _ _ (serves.set_sctlr _ s11 _ a11) λ s12 a12.
                              next view _ _
                                (trap wfi s12 _ a12 (wait_route-el3 1 _ refl (twi_set v.scr)))
                                λ s13 a13.
                                  next view _ _ (serves.set_sctlr _ s13 _ a13)
                                    λ s14 a14. serves.set_scr _ s14 _ a14

    -- A check with floating point disabled by CPACR, which is set back to `x` before the verdict.
    reenabled :
        (x : ℕ) (s : S) (v : View)
        → view s ≡ v
        → bit 31 v.cptr ≡ 0
        → bit 20 v.cpacr ≡ 0
        → Ends view (check_fp cpu (cpu.msr cpacr_el1 x) 1 s) (passed (record v { cpacr = x }))
    reenabled x s v at access fpen =
        expect_fp view cpu shows kernel_route executes (cpu.msr cpacr_el1 x) 1 s v
          (record v { cpacr = x }) at refl (kernel_route-fpen v fpen) refl
          (λ u c seen. serves.set_cpacr x u (with_block c v) seen access)

    -- With floating point enabled by CPACR, no access to it trapped and no exception on record,
    -- `el1_check_fp_trap` counts six passes and no failure, and leaves the registers as it found them.
    pub el1_check_fp_trap-passes :
        (arg : ℕ) (s : S) (v : View)
        → view s ≡ v
        → Fpen 1 1 v.cpacr
        → bit 31 v.cptr ≡ 0
        → v.block.excp.taken ≡ false
        → Ends view (el1_check_fp_trap cpu smc_interop_buf set_buf smc arg s) (passes 6 v)
    unfolding el1_check_fp_trap passes
    el1_check_fp_trap-passes arg s v at fpen access quiet =
        let clear = tfp_clear-tcpac v.cptr ∙ access in
        let closed = tfp_set-tcpac v.cptr ∙ access in
        let off = bit_and v.cptr not_cptr_tfp in
        let on = bit_or v.cptr cptr_tfp in
        let executed = expect_executed view cpu shows kernel_route executes fcmp in
        get view _ _ (serves.get_cptr s v at) λ s1 a1.
          get view _ _ (serves.get_cpacr s1 v a1 access) λ s2 a2.
            next view _ _ (serves.set_cpacr _ s2 _ a2 access) λ s3 a3.
              next view _ _ (serves.set_cptr _ s3 _ a3) λ s4 a4.
                next view _ _
                  (executed s4 _ a4 quiet (
                    kernel_route-fp (with_fp off (bit_or v.cpacr cpacr_fpen3) v)
                      (fpen3_set v.cpacr).0 (tfp_clear v.cptr)))
                  λ s5 a5. next view _ _ (serves.set_cpacr _ s5 _ a5 clear) λ s6 a6.
                    next view _ _
                      (reenabled v.cpacr s6 (with_fp off _ (passes 1 v)) a6 clear
                        (fpen3_clear v.cpacr).0)
                      λ s7 a7. next view _ _ (serves.set_cpacr _ s7 _ a7 clear) λ s8 a8.
                        next view _ _
                          (executed s8 (with_fp off _ (passes 2 v)) a8 refl (
                            kernel_route-fp (with_fp off _ v) (fpen2_clear v.cpacr fpen).0
                              (tfp_clear v.cptr)))
                          λ s9 a9. next view _ _ (serves.set_cpacr _ s9 _ a9 clear) λ s10 a10.
                            next view _ _
                              (reenabled v.cpacr s10 (with_fp off _ (passes 3 v)) a10 clear
                                (fpen1_clear v.cpacr fpen).0)
                              λ s11 a11.
                                next view _ _ (serves.set_cpacr _ s11 _ a11 clear) λ s12 a12.
                                  next view _ _ (serves.set_cptr _ s12 _ a12) λ s13 a13.
                                    next view _ _
                                      (expect_fp view cpu shows kernel_route executes _ 1 s13
                                        (with_fp on _ (passes 4 v)) (passes 4 v) a13 refl
                                        (kernel_route-fpen (with_fp on _ v) (fpen3_clear v.cpacr).0)
                                        refl
                                        (λ u c seen.
                                          next view _ _ (serves.set_cpacr _ u _ seen closed)
                                            λ t b. serves.set_cptr _ t _ b))
                                      λ s14 a14.
                                        next view _ _ (serves.set_cptr _ s14 _ a14) λ s15 a15.
                                          next view _ _
                                            (expect_fp view cpu shows kernel_route executes _ 3 s15
                                              (with_fp on _ (passes 5 v)) (passes 5 v) a15 refl
                                              (kernel_route-tfp (with_fp on _ v) fpen.0
                                                (tfp_set v.cptr))
                                              refl (λ u c seen. serves.set_cptr _ u _ seen))
                                            λ s16 a16.
                                              next view _ _ (serves.set_cpacr _ s16 _ a16 access)
                                                λ s17 a17. serves.set_cptr _ s17 _ a17
