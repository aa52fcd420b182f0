-- ===== src/Tztest/Cpu/Kernel.antt =====
-- tztest/el1/: the test functions of the kernels, for AArch64, without DEBUG and FP_TEST.
-- Printing is left out.
pub mod Passes
pub mod Registers
use qemu_tztest.Common.{ℕ, Option, none, some, List, [], ◌∷◌, bit_and, bit_or, ◌>>=◌}
use qemu_tztest.Interop.{Desc, key_cptr_el3, key_scr, ec_unknown, ec_wfi_wfe, ec_sysinsn}
use qemu_tztest.El3.{scr_el3, sder32_el3, cptr_el3, cpacr_el1, sctlr_el1}
use qemu_tztest.Tztest.Run.{TestFn}
use qemu_tztest.Tztest.Cpu.Smc.{smc_get_reg, smc_set_reg, smc_noop}
use qemu_tztest.Tztest.Check.{test_exception, test_no_exception}
use qemu_tztest.Tztest.Cpu.{
  Cpu, smc, wfe, wfi, fcmp, check_fp, test_exception_value, scr_smd, scr_twi, scr_twe, not_scr_twe,
  sctlr_ntwe, not_sctlr_ntwe, cptr_tfp, not_cptr_tfp, cptr_tcpac, cpacr_fpen3, not_cpacr_fpen3,
  not_cpacr_fpen2, not_cpacr_fpen1,
}

-- `smc op` is `__smc(op, smc_interop_buf)`, or `__smc(op, NULL)`; the buffer is part of the state.
module _ {S : Type 0} (cpu : Cpu S) (smc_interop_buf : S → Desc) (set_buf : Desc → S → S)
    (smc : ℕ → S → Option (ℕ × S)) where
  unfoldable pub el1_check_smc : TestFn S
  unfolding smc_get_reg smc_set_reg smc_noop
  el1_check_smc arg s = do
    (scr, s1) ← smc_get_reg smc_interop_buf set_buf smc key_scr 3 s
    s2 ← smc_set_reg smc_interop_buf set_buf smc key_scr 3 (bit_or scr scr_smd) s1
    s3 ← test_no_exception cpu.shared (smc_noop smc_interop_buf set_buf smc) s2
    smc_set_reg smc_interop_buf set_buf smc key_scr 3 scr s3

  unfoldable pub el1_check_cpacr_trap : TestFn S
  unfolding smc_get_reg smc_set_reg test_exception_value
  el1_check_cpacr_trap arg s = do
    (cptr, s1) ← smc_get_reg smc_interop_buf set_buf smc key_cptr_el3 3 s
    s2 ← smc_set_reg smc_interop_buf set_buf smc key_cptr_el3 3 (bit_or cptr cptr_tcpac) s1
    (cpacr, s3) ← test_exception_value cpu.shared (cpu.mrs cpacr_el1) ec_sysinsn 3 s2
    s4 ← test_exception cpu.shared (cpu.msr cpacr_el1 cpacr) ec_sysinsn 3 s3
    smc_set_reg smc_interop_buf set_buf smc key_cptr_el3 3 cptr s4

  unfoldable pub el1_check_wfx_trap : TestFn S
  unfolding smc_get_reg smc_set_reg
  el1_check_wfx_trap arg s = do
    (scr, s1) ← smc_get_reg smc_interop_buf set_buf smc key_scr 3 s
    (sctlr, s2) ← cpu.mrs sctlr_el1 s1
    s3 ← cpu.msr sctlr_el1 (bit_and sctlr not_sctlr_ntwe) s2
    s4 ← smc_set_reg smc_interop_buf set_buf smc key_scr 3 (bit_and scr not_scr_twe) s3
    s5 ← test_no_exception cpu.shared (cpu.exec wfe) s4
    s6 ← smc_set_reg smc_interop_buf set_buf smc key_scr 3 (bit_or scr scr_twe) s5
    s7 ← test_exception cpu.shared (cpu.exec wfe) ec_wfi_wfe 3 s6
    s8 ← cpu.msr sctlr_el1 (bit_or sctlr sctlr_ntwe) s7
    s9 ← test_exception cpu.shared (cpu.exec wfe) ec_wfi_wfe 3 s8
    s10 ← smc_set_reg smc_interop_buf set_buf smc key_scr 3 (bit_or scr scr_twi) s9
    s11 ← test_exception cpu.shared (cpu.exec wfi) ec_wfi_wfe 3 s10
    s12 ← cpu.msr sctlr_el1 (bit_or sctlr sctlr_ntwe) s11
    s13 ← test_exception cpu.shared (cpu.exec wfi) ec_wfi_wfe 3 s12
    s14 ← cpu.msr sctlr_el1 sctlr s13
    smc_set_reg smc_interop_buf set_buf smc key_scr 3 scr s14

  unfoldable pub el1_check_fp_trap : TestFn S
  unfolding smc_get_reg smc_set_reg check_fp
  el1_check_fp_trap arg s = do
    (cptr, s1) ← smc_get_reg smc_interop_buf set_buf smc key_cptr_el3 3 s
    (cpacr, s2) ← cpu.mrs cpacr_el1 s1
    let reenable = cpu.msr cpacr_el1 cpacr
    let restore = smc_set_reg smc_interop_buf set_buf smc key_cptr_el3 3 cptr
    s3 ← cpu.msr cpacr_el1 (bit_or cpacr cpacr_fpen3) s2
    s4 ← smc_set_reg smc_interop_buf set_buf smc key_cptr_el3 3 (bit_and cptr not_cptr_tfp) s3
    s5 ← test_no_exception cpu.shared (cpu.exec fcmp) s4
    s6 ← cpu.msr cpacr_el1 (bit_and cpacr not_cpacr_fpen3) s5
    s7 ← check_fp cpu reenable 1 s6
    s8 ← cpu.msr cpacr_el1 (bit_and cpacr not_cpacr_fpen2) s7
    s9 ← test_no_exception cpu.shared (cpu.exec fcmp) s8
    s10 ← cpu.msr cpacr_el1 (bit_and cpacr not_cpacr_fpen1) s9
    s11 ← check_fp cpu reenable 1 s10
    s12 ← cpu.msr cpacr_el1 (bit_and cpacr not_cpacr_fpen3) s11
    s13 ← smc_set_reg smc_interop_buf set_buf smc key_cptr_el3 3 (bit_or cptr cptr_tfp) s12
    s14 ← check_fp cpu (λ t. reenable t >>= restore) 1 s13
    s15 ← smc_set_reg smc_interop_buf set_buf smc key_cptr_el3 3 (bit_or cptr cptr_tfp) s14
    s16 ← check_fp cpu restore 3 s15
    s17 ← cpu.msr cpacr_el1 cpacr s16
    smc_set_reg smc_interop_buf set_buf smc key_cptr_el3 3 cptr s17

  -- `el1_check_register_access` of either world: the AArch64 statements are the same.
  unfoldable pub el1_check_register_access : TestFn S
  unfolding test_exception_value
  el1_check_register_access arg s = do
    (scr, s1) ← test_exception_value cpu.shared (cpu.mrs scr_el3) ec_unknown 1 s
    s2 ← test_exception cpu.shared (cpu.msr scr_el3 scr) ec_unknown 1 s1
    (sder, s3) ← test_exception_value cpu.shared (cpu.mrs sder32_el3) ec_unknown 1 s2
    s4 ← test_exception cpu.shared (cpu.msr sder32_el3 sder) ec_unknown 1 s3
    (cptr, s5) ← test_exception_value cpu.shared (cpu.mrs cptr_el3) ec_unknown 1 s4
    test_exception cpu.shared (cpu.msr cptr_el3 cptr) ec_unknown 1 s5

  -- `test_func` of tztest_el1_nsec.c and tztest_el1_sec.c.
  abbrev pub el1_test_func : List (Option (TestFn S))
  el1_test_func =
      none
      ∷ some el1_check_smc
      ∷ some el1_check_register_access
      ∷ some el1_check_cpacr_trap
      ∷ some el1_check_wfx_trap
      ∷ some el1_check_fp_trap
      ∷ []
