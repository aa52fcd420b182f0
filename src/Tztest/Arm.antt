-- ===== src/Tztest/Arm.antt =====
-- The test functions that are compiled for ARMv7 alone, in tztest/el1/nonsecure/tztest_el1_nsec.c,
-- tztest/el1/secure/tztest_el1_sec.c and tztest/el3/tztest_el3.c. Printing is left out.
pub mod Monitor
pub mod Registers
pub mod Secure
use qemu_tztest.Common.{ℕ, Bool, Option, some, ◌==◌, bit_and, bit_or, not, ◌>>=◌}
use qemu_tztest.Interop.{Desc, key_scr, ec_unknown}
use qemu_tztest.Tztest.Run.{TestFn}
use qemu_tztest.Tztest.Check.{Shared, test_condition, test_exception, test_no_exception}
use qemu_tztest.Tztest.Cpu.{test_exception_value, with_local}
use qemu_tztest.Tztest.Cpu.Smc.{smc_get_reg, smc_set_reg}

-- The coprocessor registers that the tests access.
pub data ArmReg : Type 0 where
  scr_c1 sder_c1 mvbar_c12 nsacr_c1 : ArmReg

-- A CPSR that the running mode may access, and accesses to registers that may trap.
pub record ArmCpu (S : Type 0) : Type 0 where
  pub shared : Shared S
  pub read_cpsr : S → ℕ
  pub write_cpsr : ℕ → S → S
  pub mrc : ArmReg → S → Option (ℕ × S)
  pub mcr : ArmReg → ℕ → S → Option S

abbrev pub cpsr_m_mon : ℕ
cpsr_m_mon = 0x16

abbrev pub cpsr_f : ℕ
cpsr_f = 0x40

abbrev pub cpsr_i : ℕ
cpsr_i = 0x80

abbrev pub cpsr_a : ℕ
cpsr_a = 0x100

abbrev pub scr_fw : ℕ
scr_fw = 0x10

abbrev pub scr_aw : ℕ
scr_aw = 0x20

module _ {S : Type 0} where
  -- TEST_FUNCTION: the condition is evaluated after the statement.
  unfoldable pub test_function : Shared S → (S → S) → (S → Bool) → S → S
  unfolding test_condition
  test_function sh fn cond s = let s' = fn s in test_condition sh (λ c. cond s') s'

  -- TEST_NO_EXCEPTION over an assignment to a local variable.
  unfoldable pub no_exception_value : Shared S → (S → Option (ℕ × S)) → S → Option (ℕ × S)
  unfolding with_local
  no_exception_value sh fn s = test_no_exception (with_local sh) (λ t. fn t.1) (0, s)

  module _ (cpu : ArmCpu S) where
    unfoldable pub el3_check_smc : TestFn S
    unfolding test_condition
    el3_check_smc arg s =
        let cpsr = cpu.read_cpsr s in
        let s1 = test_condition cpu.shared (λ c. cpsr_m_mon == bit_and cpsr cpsr_m_mon) s in
        let s2 = test_condition cpu.shared (λ c. cpsr_f == bit_and cpsr_f cpsr) s1 in
        let s3 = test_condition cpu.shared (λ c. cpsr_i == bit_and cpsr_i cpsr) s2 in
        some (test_condition cpu.shared (λ c. cpsr_a == bit_and cpsr_a cpsr) s3)

    -- `el1_check_register_access` of the nonsecure world.
    unfoldable pub nsec_check_register_access : TestFn S
    unfolding test_exception_value
    nsec_check_register_access arg s = do
      (scr, s1) ← test_exception_value cpu.shared (cpu.mrc scr_c1) ec_unknown 1 s
      s2 ← test_exception cpu.shared (cpu.mcr scr_c1 scr) ec_unknown 1 s1
      (sder, s3) ← test_exception_value cpu.shared (cpu.mrc sder_c1) ec_unknown 1 s2
      s4 ← test_exception cpu.shared (cpu.mcr sder_c1 sder) ec_unknown 1 s3
      (mvbar, s5) ← test_exception_value cpu.shared (cpu.mrc mvbar_c12) ec_unknown 1 s4
      s6 ← test_exception cpu.shared (cpu.mcr mvbar_c12 mvbar) ec_unknown 1 s5
      test_exception cpu.shared (cpu.mcr nsacr_c1 0) ec_unknown 1 s6

    -- `el1_check_register_access` of the secure world.
    unfoldable pub sec_check_register_access : TestFn S
    unfolding no_exception_value
    sec_check_register_access arg s = do
      (scr, s1) ← no_exception_value cpu.shared (cpu.mrc scr_c1) s
      s2 ← test_no_exception cpu.shared (cpu.mcr scr_c1 scr) s1
      (sder, s3) ← no_exception_value cpu.shared (cpu.mrc sder_c1) s2
      s4 ← test_no_exception cpu.shared (cpu.mcr sder_c1 sder) s3
      (mvbar, s5) ← no_exception_value cpu.shared (cpu.mrc mvbar_c12) s4
      s6 ← test_no_exception cpu.shared (cpu.mcr mvbar_c12 mvbar) s5
      test_no_exception cpu.shared (cpu.mcr nsacr_c1 0) s6

    -- `smc` is an SMC with the buffer, as for the AArch64 tests.
    module _ (smc_interop_buf : S → Desc) (set_buf : Desc → S → S)
        (smc : ℕ → S → Option (ℕ × S)) where
      unfoldable pub check_mask_bits : TestFn S
      unfolding smc_get_reg smc_set_reg test_function
      check_mask_bits arg s = do
        let cpsr = cpu.read_cpsr s
        (scr, s1) ← smc_get_reg smc_interop_buf set_buf smc key_scr 3 s
        s2 ←
            smc_set_reg smc_interop_buf set_buf smc key_scr 3 (bit_or scr (bit_or scr_aw scr_fw)) s1
        let val_f = bit_or cpsr cpsr_f
        let s3 = test_function cpu.shared (cpu.write_cpsr val_f) (λ t. cpu.read_cpsr t == val_f) s2
        let s4 = cpu.write_cpsr cpsr s3
        let val_a = bit_or cpsr cpsr_a
        let s5 = test_function cpu.shared (cpu.write_cpsr val_a) (λ t. cpu.read_cpsr t == val_a) s4
        let s6 = cpu.write_cpsr cpsr s5
        s7 ← smc_set_reg smc_interop_buf set_buf smc key_scr 3 scr s6
        let s8 =
            test_function cpu.shared (cpu.write_cpsr val_f) (λ t. not (cpu.read_cpsr t == val_f)) s7
        let s9 = cpu.write_cpsr cpsr s8
        let s10 =
            test_function cpu.shared (cpu.write_cpsr val_a) (λ t. not (cpu.read_cpsr t == val_a)) s9
        some (cpu.write_cpsr cpsr s10)
