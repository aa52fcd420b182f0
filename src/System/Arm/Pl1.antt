-- ===== src/System/Arm/Pl1.antt =====
-- A nonsecure kernel with a CPSR, over the monitor. The descriptors have their AArch64 layout, and the monitor is
-- the one of the AArch64 sources, whose cases for SCR are the same.
use qemu_tztest.Common.{ℕ, ◌≡◌, ap, ◌∙◌, sym, inl, inr, Option-cases, Option, none, some, ◌>>=◌}
use qemu_tztest.Interop.{Desc, smc_op_get_reg, smc_op_set_reg}
use qemu_tztest.Interop.Data
use qemu_tztest.Tztest.Cpu.Smc.{smc_get_reg, smc_set_reg}
use qemu_tztest.Tztest.Arm.{ArmCpu}
use qemu_tztest.El3.{scr_el3}
use qemu_tztest.El1.{El1State}
use qemu_tztest.System.Machine.KernelTests.{buf, set_buf}

-- The kernel beside its CPSR.
pub record Pl1 : Type 0 where
  pub cpsr : ℕ
  pub kernel : El1State

abbrev pub scr_of : Pl1 → ℕ
scr_of s = s.kernel.monitor.regs scr_el3

-- `write val scr cpsr` is the CPSR after MSR CPSR; the other registers are not accessed by this test.
abbrev pub pl1_cpu : ((val scr cpsr : ℕ) → ℕ) → ArmCpu Pl1
pl1_cpu write = record {
  shared = record {
    control = λ s. s.kernel.syscntl;
    put = λ c s. record s { kernel = record s.kernel { syscntl = c } };
  };
  read_cpsr = λ s. s.cpsr;
  write_cpsr = λ v s. record s { cpsr = write v (scr_of s) s.cpsr };
  mrc = λ r s. none;
  mcr = λ r v s. none;
}

abbrev pub pl1_buf : Pl1 → Desc
pl1_buf s = buf s.kernel

abbrev pub pl1_set_buf : Desc → Pl1 → Pl1
pl1_set_buf d s = record s { kernel = set_buf d s.kernel }

abbrev pub beside : ℕ → El1State → Pl1
beside c k = record { cpsr = c; kernel = k }

module _ (smc : ℕ → El1State → Option (ℕ × El1State)) where
  abbrev pub pl1_smc : ℕ → Pl1 → Option (ℕ × Pl1)
  pl1_smc op s = smc op s.kernel >>= λ (r, k). some (r, beside s.cpsr k)

  -- The macros on the kernel, beside a CPSR that they leave alone.
  pub smc_get_reg-beside :
      (key el x c : ℕ) (k k' : El1State)
      → smc_get_reg buf set_buf smc key el k ≡ some (x, k')
      → smc_get_reg pl1_buf pl1_set_buf pl1_smc key el (beside c k) ≡ some (x, beside c k')
  unfolding smc_get_reg
  smc_get_reg-beside key el x c k k' e =
      let call = smc smc_op_get_reg (set_buf (Data.set_el el (Data.set_key key (buf k))) k) in
      elim (Option-cases call) [
        | inl stuck ↦ absurd (cc (stuck, e))
        | inr ((r, t), e') ↦
            let same = ap (λ m. m >>= λ p. some (Data.value (buf p.1), p.1)) (sym e') ∙ e in
            rw e' (ap (λ o. o >>= λ q. some (q.0, beside c q.1)) same)
      ]

  pub smc_set_reg-beside :
      (key el x c : ℕ) (k k' : El1State)
      → smc_set_reg buf set_buf smc key el x k ≡ some k'
      → smc_set_reg pl1_buf pl1_set_buf pl1_smc key el x (beside c k) ≡ some (beside c k')
  unfolding smc_set_reg
  smc_set_reg-beside key el x c k k' e =
      let call =
        smc smc_op_set_reg
          (set_buf (Data.set_value x (Data.set_el el (Data.set_key key (buf k)))) k) in
      elim (Option-cases call) [
        | inl stuck ↦ absurd (cc (stuck, e))
        | inr ((r, t), e') ↦
            let same = ap (λ m. m >>= λ p. some p.1) (sym e') ∙ e in
            rw e' (ap (λ o. o >>= λ q. some (beside c q)) same)
      ]
