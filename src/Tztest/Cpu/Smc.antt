-- ===== src/Tztest/Cpu/Smc.antt =====
-- The register access macros of common/smc.h, as the kernels' tests use them.
use qemu_tztest.Common.{ℕ, Option, some, ◌>>=◌}
use qemu_tztest.Interop.{Desc, smc_op_noop, smc_op_get_reg, smc_op_set_reg}
use qemu_tztest.Interop.Data

-- `smc op` is `__smc(op, smc_interop_buf)`, or `__smc(op, NULL)`; the buffer is part of the state.
module _ {S : Type 0} (smc_interop_buf : S → Desc) (set_buf : Desc → S → S)
    (smc : ℕ → S → Option (ℕ × S)) where
  -- SMC_GET_REG and SMC_SET_REG.
  unfoldable pub smc_get_reg : (key el : ℕ) → S → Option (ℕ × S)
  smc_get_reg key el s = do
    (_, s') ← smc smc_op_get_reg (set_buf (Data.set_el el (Data.set_key key (smc_interop_buf s))) s)
    some (Data.value (smc_interop_buf s'), s')

  unfoldable pub smc_set_reg : (key el val : ℕ) → S → Option S
  smc_set_reg key el val s = do
    (_, s') ←
        smc smc_op_set_reg
          (set_buf (Data.set_value val (Data.set_el el (Data.set_key key (smc_interop_buf s)))) s)
    some s'

  -- `__smc(SMC_OP_NOOP, NULL)`.
  unfoldable pub smc_noop : S → Option S
  smc_noop s = do (_, s') ← smc smc_op_noop s; some s'
