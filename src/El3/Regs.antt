-- ===== src/El3/Regs.antt =====
-- SMC_OP_SET_REG followed by SMC_OP_GET_REG.
use qemu_tztest.Common.{ℕ, ◌≡◌, refl, arith, ap, Option, some, List}
use qemu_tztest.Interop.{Desc, smc_op_get_reg, smc_op_set_reg}
use qemu_tztest.Interop.Data
use qemu_tztest.Tztest.Run.{TestFn}
use qemu_tztest.El3.{
  Reg, currentel, Regs, El3State, set_reg, smc_set_reg, smc_switch, smc_return, el3_handle_smc,
}
use qemu_tztest.El3.Smc.{reg_of, fetched, smc_get_reg_lem}

module _ (msr : Reg → ℕ → Regs → Regs) (tests : List (Option (TestFn El3State)))
    (svc : ℕ → Desc → El3State → Option (Desc × El3State)) (stack : Desc) (fuel : ℕ) where
  -- The registers after the value is written to one of them; the code never writes CURRENTEL.
  abbrev pub written : Reg → ℕ → Regs → Regs
  written currentel value regs = regs
  written r value regs = msr r value regs

  set_reg-written :
      (desc : Desc) (regs : Regs) (r : Reg)
      → reg_of (Data.key desc) ≡ some r
      → set_reg msr desc regs ≡ written r (Data.value desc) regs
  unfolding set_reg
  set_reg-written desc regs r e = ground arith

  -- For a register key at EL3, whatever the processor makes of a write, SMC_OP_SET_REG writes the value to the
  -- register of the key, and SMC_OP_GET_REG with the same key then returns what that register holds after the write
  -- and changes no register; for CURRENTEL nothing is written, and the value it held is returned.
  pub smc_op_get_reg-smc_op_set_reg :
      (set get : Desc) (elr : ℕ) (s : El3State) (r : Reg)
      → reg_of (Data.key set) ≡ some r
      → Data.el set ≡ 3
      → Data.el get ≡ 3
      → Data.key get ≡ Data.key set
      → (t : El3State) × (el3_handle_smc msr tests svc stack fuel smc_op_set_reg set elr s
          ≡ some (0, set, t))
        × (t.regs ≡ written r (Data.value set) s.regs)
        × (el3_handle_smc msr tests svc stack fuel smc_op_get_reg get elr t
            ≡ some (0, Data.set_value (written r (Data.value set) s.regs r) get, t))
  unfolding el3_handle_smc smc_switch smc_return
  smc_op_get_reg-smc_op_set_reg set get elr s r named at at' same =
      let t = record (smc_set_reg msr set s) { elr = elr } in
      let regs : t.regs ≡ written r (Data.value set) s.regs =
        unfold smc_set_reg in rw at (set_reg-written set s.regs r named) in
      let got : fetched t.regs get ≡ written r (Data.value set) s.regs r =
        rw (at', same, named) (ap (λ f. f r) regs) in
      (t, refl, regs, rw (smc_get_reg_lem get t, got))
