-- ===== src/Tztest/Cpu.antt =====
-- What the test functions of either level run on: the control block, the instructions that they execute
-- and the access to system registers, each of which may trap; and the masks of
-- common/aarch64/cpu.h, as 64-bit patterns of `int` constants.
pub mod Trace
pub mod Steps
pub mod Masks
pub mod User
pub mod Smc
pub mod Kernel
use qemu_tztest.Common.{ℕ, ◌&&◌, ◌==◌, Option, some, ◌>>=◌}
use qemu_tztest.Interop.{SysControl, ec_simd}
use qemu_tztest.El3.{Reg}
use qemu_tztest.Tztest.Check.{
  Shared, modify, enable_excp_log, excp_reset, saw_exception, test_condition, test_exception,
}

pub data Insn : Type 0 where
  smc wfe wfi fcmp : Insn

-- An instruction and a register access with all that a trap to the levels above does.
pub record Cpu (S : Type 0) : Type 0 where
  pub shared : Shared S
  pub exec : Insn → S → Option S
  pub mrs : Reg → S → Option (ℕ × S)
  pub msr : Reg → ℕ → S → Option S

abbrev pub scr_smd : ℕ
scr_smd = 0x80

abbrev pub scr_twi : ℕ
scr_twi = 0x1000

abbrev pub not_scr_twe : ℕ
not_scr_twe = 0xFFFFFFFFFFFFDFFF

abbrev pub scr_twe : ℕ
scr_twe = 0x2000

abbrev pub sctlr_ntwi : ℕ
sctlr_ntwi = 0x10000

abbrev pub not_sctlr_ntwi : ℕ
not_sctlr_ntwi = 0xFFFFFFFFFFFEFFFF

abbrev pub sctlr_ntwe : ℕ
sctlr_ntwe = 0x40000

abbrev pub not_sctlr_ntwe : ℕ
not_sctlr_ntwe = 0xFFFFFFFFFFFBFFFF

abbrev pub cptr_tfp : ℕ
cptr_tfp = 0x400

abbrev pub not_cptr_tfp : ℕ
not_cptr_tfp = 0xFFFFFFFFFFFFFBFF

-- `1 << 31` is a negative `int`, and is sign-extended.
abbrev pub cptr_tcpac : ℕ
cptr_tcpac = 0xFFFFFFFF80000000

-- `CPACR_FPEN(3)`, and the complements of `CPACR_FPEN(3)`, `CPACR_FPEN(2)` and `CPACR_FPEN(1)`.
abbrev pub cpacr_fpen3 : ℕ
cpacr_fpen3 = 0x300000

abbrev pub not_cpacr_fpen3 : ℕ
not_cpacr_fpen3 = 0xFFFFFFFFFFCFFFFF

abbrev pub not_cpacr_fpen2 : ℕ
not_cpacr_fpen2 = 0xFFFFFFFFFFDFFFFF

abbrev pub not_cpacr_fpen1 : ℕ
not_cpacr_fpen1 = 0xFFFFFFFFFFEFFFFF

module _ {S : Type 0} where
  -- The control block beside a local variable of the test.
  unfoldable pub with_local : Shared S → Shared (ℕ × S)
  with_local sh = record { control = λ t. sh.control t.1; put = λ c t. (t.0, sh.put c t.1) }

  -- TEST_EXCEPTION over an assignment to a local variable, which holds nothing before.
  unfoldable pub test_exception_value :
      Shared S → (S → Option (ℕ × S)) → (excp el : ℕ) → S → Option (ℕ × S)
  unfolding with_local
  test_exception_value sh fn excp el s = test_exception (with_local sh) (λ t. fn t.1) excp el (0, s)

  module _ (cpu : Cpu S) where
    -- A read whose value is dropped.
    unfoldable pub read_only : Reg → S → Option S
    read_only r s = do (_, s') ← cpu.mrs r s; some s'

    -- A disabled floating-point instruction, with the tests' output enabled again before the verdict:
    -- the block of statements that `el0_check_fp_trap` and `el1_check_fp_trap` repeat.
    unfoldable pub check_fp : (restore : S → Option S) (el : ℕ) → S → Option S
    check_fp restore el s = do
      s1 ← cpu.exec fcmp (modify cpu.shared enable_excp_log s)
      s2 ← restore s1
      some (modify cpu.shared excp_reset (test_condition cpu.shared (saw_exception ec_simd el) s2))
