-- ===== src/Tztest/Cpu/User.antt =====
-- tztest/el0/tztest_el0.c: the test functions of the user programs, for AArch64 and without DEBUG, and
-- the register access macros of common/svc.h. Printing is left out.
pub mod Passes
pub mod Registers
use qemu_tztest.Common.{ℕ, Option, none, some, List, [], ◌∷◌, bit_and, bit_or, ◌>>=◌}
use qemu_tztest.Interop.{
  Desc, svc_op_get_reg, svc_op_set_reg, key_cptr_el3, key_cpacr, key_scr, key_sctlr, ec_unknown,
  ec_wfi_wfe, ec_sysinsn,
}
use qemu_tztest.Interop.Data
use qemu_tztest.El3.{scr_el3, sder32_el3, cptr_el3}
use qemu_tztest.Tztest.Run.{TestFn}
use qemu_tztest.Tztest.Check.{test_exception, test_no_exception}
use qemu_tztest.Tztest.Cpu.{
  Cpu, smc, wfe, wfi, fcmp, read_only, check_fp, test_exception_value, scr_twi, scr_twe, sctlr_ntwi,
  not_sctlr_ntwi, sctlr_ntwe, not_sctlr_ntwe, cptr_tfp, not_cptr_tfp, cptr_tcpac, cpacr_fpen3,
  not_cpacr_fpen3, not_cpacr_fpen2, not_cpacr_fpen1,
}

module _ {S : Type 0} (cpu : Cpu S) (svc : ℕ → Desc → S → Option (ℕ × Desc × S))
    (stack : Desc) where
  -- SVC_GET_REG and SVC_SET_REG, with a descriptor on the stack.
  unfoldable pub svc_get_reg : (key el : ℕ) → S → Option (ℕ × S)
  svc_get_reg key el s = do
    (_, desc, s') ← svc svc_op_get_reg (Data.set_el el (Data.set_key key stack)) s
    some (Data.value desc, s')

  unfoldable pub svc_set_reg : (key el val : ℕ) → S → Option S
  svc_set_reg key el val s = do
    (_, _, s') ← svc svc_op_set_reg (Data.set_value val (Data.set_el el (Data.set_key key stack))) s
    some s'

  unfoldable pub el0_check_smc : TestFn S
  el0_check_smc arg s = test_exception cpu.shared (cpu.exec smc) ec_unknown 1 s

  unfoldable pub el0_check_register_access : TestFn S
  unfolding read_only
  el0_check_register_access arg s = do
    s1 ← test_exception cpu.shared (read_only cpu scr_el3) ec_unknown 1 s
    s2 ← test_exception cpu.shared (cpu.msr scr_el3 0) ec_unknown 1 s1
    s3 ← test_exception cpu.shared (read_only cpu sder32_el3) ec_unknown 1 s2
    s4 ← test_exception cpu.shared (cpu.msr sder32_el3 0) ec_unknown 1 s3
    s5 ← test_exception cpu.shared (read_only cpu cptr_el3) ec_unknown 1 s4
    test_exception cpu.shared (cpu.msr cptr_el3 0) ec_unknown 1 s5

  unfoldable pub el0_check_cpacr_trap : TestFn S
  unfolding svc_get_reg svc_set_reg test_exception_value
  el0_check_cpacr_trap arg s = do
    (cptr, s1) ← svc_get_reg key_cptr_el3 3 s
    s2 ← svc_set_reg key_cptr_el3 3 (bit_or cptr cptr_tcpac) s1
    (cpacr, s3) ← test_exception_value cpu.shared (svc_get_reg key_cpacr 1) ec_sysinsn 3 s2
    s4 ← test_exception cpu.shared (svc_set_reg key_cpacr 1 cpacr) ec_sysinsn 3 s3
    svc_set_reg key_cptr_el3 3 cptr s4

  unfoldable pub el0_check_fp_trap : TestFn S
  unfolding svc_get_reg svc_set_reg check_fp
  el0_check_fp_trap arg s = do
    (cptr, s1) ← svc_get_reg key_cptr_el3 3 s
    (cpacr, s2) ← svc_get_reg key_cpacr 1 s1
    let reenable = svc_set_reg key_cpacr 1 cpacr
    let restore = svc_set_reg key_cptr_el3 3 cptr
    s3 ← svc_set_reg key_cpacr 1 (bit_or cpacr cpacr_fpen3) s2
    s4 ← svc_set_reg key_cptr_el3 3 (bit_and cptr not_cptr_tfp) s3
    s5 ← test_no_exception cpu.shared (cpu.exec fcmp) s4
    s6 ← svc_set_reg key_cpacr 1 (bit_and cpacr not_cpacr_fpen3) s5
    s7 ← check_fp cpu reenable 1 s6
    s8 ← svc_set_reg key_cpacr 1 (bit_and cpacr not_cpacr_fpen2) s7
    s9 ← check_fp cpu reenable 1 s8
    s10 ← svc_set_reg key_cpacr 1 (bit_and cpacr not_cpacr_fpen1) s9
    s11 ← check_fp cpu reenable 1 s10
    s12 ← svc_set_reg key_cpacr 1 (bit_and cpacr not_cpacr_fpen3) s11
    s13 ← svc_set_reg key_cptr_el3 3 (bit_or cptr cptr_tfp) s12
    s14 ← check_fp cpu (λ t. reenable t >>= restore) 1 s13
    s15 ← svc_set_reg key_cptr_el3 3 (bit_or cptr cptr_tfp) s14
    s16 ← check_fp cpu restore 3 s15
    s17 ← svc_set_reg key_cpacr 1 cpacr s16
    svc_set_reg key_cptr_el3 3 cptr s17

  unfoldable pub el0_check_wfx_trap : TestFn S
  unfolding svc_get_reg svc_set_reg
  el0_check_wfx_trap arg s = do
    (scr, s1) ← svc_get_reg key_scr 3 s
    (sctlr, s2) ← svc_get_reg key_sctlr 1 s1
    s3 ← svc_set_reg key_sctlr 1 (bit_and sctlr not_sctlr_ntwe) s2
    s4 ← test_exception cpu.shared (cpu.exec wfe) ec_wfi_wfe 1 s3
    s5 ← svc_set_reg key_scr 3 (bit_or scr scr_twe) s4
    s6 ← test_exception cpu.shared (cpu.exec wfe) ec_wfi_wfe 1 s5
    s7 ← svc_set_reg key_sctlr 1 (bit_or sctlr sctlr_ntwe) s6
    s8 ← test_exception cpu.shared (cpu.exec wfe) ec_wfi_wfe 3 s7
    s9 ← svc_set_reg key_scr 3 scr s8
    s10 ← svc_set_reg key_sctlr 1 (bit_and sctlr not_sctlr_ntwi) s9
    s11 ← test_exception cpu.shared (cpu.exec wfi) ec_wfi_wfe 1 s10
    s12 ← svc_set_reg key_scr 3 (bit_or scr scr_twi) s11
    s13 ← test_exception cpu.shared (cpu.exec wfi) ec_wfi_wfe 1 s12
    s14 ← svc_set_reg key_sctlr 1 (bit_or sctlr sctlr_ntwi) s13
    s15 ← test_exception cpu.shared (cpu.exec wfi) ec_wfi_wfe 3 s14
    s16 ← svc_set_reg key_sctlr 1 sctlr s15
    svc_set_reg key_scr 3 scr s16

  -- `test_func` of tztest_el0_sec.c and tztest_el0_nsec.c.
  abbrev pub el0_test_func : List (Option (TestFn S))
  el0_test_func =
      none
      ∷ some el0_check_smc
      ∷ some el0_check_register_access
      ∷ some el0_check_cpacr_trap
      ∷ some el0_check_wfx_trap
      ∷ some el0_check_fp_trap
      ∷ []
