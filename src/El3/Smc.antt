-- ===== src/El3/Smc.antt =====
-- The SMC handler of el3/el3.c: when it asks for a world switch, and what its requests do.
use qemu_tztest.Common.{
  ℕ, ◌+◌, ◌≡◌, refl, arith, inl, inr, Bool, ◌&&◌, ◌||◌, Option, none, some, List, bit_and, bit_xor,
  ◌==◌, if◌then◌else◌, u32, ◌>>>◌, Bool-cases, not,
}
use qemu_tztest.Interop.{
  Desc, smc_op_yield, smc_op_map, smc_op_test, smc_op_dispatch, svc_op_test, key_currentel,
  key_cptr_el3, key_cpacr, key_scr, key_sctlr, op_map_sec_el1,
}
use qemu_tztest.Interop.Test
use qemu_tztest.Interop.Data
use qemu_tztest.Interop.Disp
use qemu_tztest.Interop.MapMem
use qemu_tztest.Tztest.Run.{TestFn}
use qemu_tztest.El3.{
  Reg, currentel, cptr_el3, cpacr_el1, scr_el3, sctlr_el1, Regs, El3State, el3, Outcome, map_on,
  el3_map_mem, get_reg, smc_get_reg, test_step, smc_dispatch, smc_switch, smc_return,
  el3_handle_smc,
}

-- The operations that hand control to the other world, read off the documentation of smc.h: a
-- yield, an interop test, a mapping for secure EL1, a dispatch that is not for EL3 in this world.
abbrev pub is_switching : ℕ → Desc → El3State → Bool
is_switching op desc s =
    (op == smc_op_yield)
    || (op == smc_op_test)
    || ((op == smc_op_map) && (bit_and (MapMem.type desc) op_map_sec_el1 == op_map_sec_el1))
    || ((op == smc_op_dispatch)
        && not ((Disp.el desc == el3) && (Disp.state desc == bit_and (s.regs scr_el3) 1)))

-- What one step of the interop test does to the four fields.
pub test_step_lem :
    (desc : Desc)
    → (Test.orig (test_step desc) ≡ Test.orig desc)
      × (Test.val (test_step desc) ≡ Test.val desc >>> 1)
      × (Test.count (test_step desc) ≡ u32 (Test.count desc + 1))
      × (Test.fail (test_step desc) ≡ (
          if Test.val desc == Test.orig desc >>> Test.count desc
          then Test.fail desc
          else u32 (Test.fail desc + 1)))
unfolding test_step
test_step_lem desc = elim (Bool-cases (Test.val desc == Test.orig desc >>> Test.count desc)) [
  | inl e ↦ rw e (refl, refl, omega arith, omega arith)
  | inr e ↦ rw e (refl, refl, omega arith, omega arith)
]

-- The register that a key names.
abbrev pub reg_of : ℕ → Option Reg
reg_of key =
    if key == key_currentel
    then some currentel
    else if key == key_cptr_el3
    then some cptr_el3
    else if key == key_cpacr
    then some cpacr_el1
    else if key == key_scr
    then some scr_el3
    else if key == key_sctlr
    then some sctlr_el1
    else none

abbrev pub read_or : Regs → Option Reg → ℕ → ℕ
read_or regs none other = other
read_or regs (some r) other = regs r

-- `SMC_OP_GET_REG` stores the register that the key names, if the request is for EL3.
abbrev pub fetched : Regs → Desc → ℕ
fetched regs desc =
    if Data.el desc == 3
    then read_or regs (reg_of (Data.key desc)) (Data.value desc)
    else Data.value desc

pub smc_get_reg_lem :
    (desc : Desc) (s : El3State) → smc_get_reg desc s ≡ Data.set_value (fetched s.regs desc) desc
unfolding smc_get_reg get_reg
smc_get_reg_lem desc s = ground arith

module _ (msr : Reg → ℕ → Regs → Regs) (tests : List (Option (TestFn El3State)))
    (svc : ℕ → Desc → El3State → Option (Desc × El3State)) (stack : Desc) (fuel : ℕ) where
  abbrev handle : ℕ → Desc → ℕ → El3State → Outcome
  handle = el3_handle_smc msr tests svc stack fuel

  -- Whenever the SMC handler returns, its result is nonzero exactly for the operations that switch
  -- worlds, it is then the operation's SVC code, and the exception returns to the given address.
  pub el3_handle_smc-is_switching :
      (op : ℕ) (desc : Desc) (elr : ℕ) (s : El3State) (ret : ℕ) (desc' : Desc) (s' : El3State)
      → handle op desc elr s ≡ some (ret, desc', s')
      → (ret ≡ (if is_switching op desc s then op else 0)) × (s'.elr ≡ elr)
  unfolding el3_handle_smc smc_switch smc_return smc_dispatch el3_map_mem map_on
  el3_handle_smc-is_switching op desc elr s ret desc' s' h = ground arith

  -- `SMC_OP_TEST` steps the test and then, for want of a `break`, runs `SMC_OP_GET_REG` on the same
  -- bytes, in which the test's count is the request's level and its original value the key. So the
  -- value that it leaves is that of a register where the count was 2 and the original value is a
  -- register key, and the halved value otherwise; it always asks for a world switch.
  pub smc_op_test-fetched :
      (desc : Desc) (elr : ℕ) (s : El3State)
      → (desc' : Desc) × (handle smc_op_test desc elr s
          ≡ some
              (svc_op_test, desc', record s { secure_state = bit_xor s.secure_state 1; elr = elr }))
        × (Test.val desc' ≡ (
            if Test.count desc == 2
            then read_or s.regs (reg_of (Test.orig desc)) (Test.val desc >>> 1)
            else Test.val desc >>> 1))
        × (Test.count desc' ≡ u32 (Test.count desc + 1))
        × (Test.fail desc' ≡ (
            if Test.val desc == Test.orig desc >>> Test.count desc
            then Test.fail desc
            else u32 (Test.fail desc + 1)))
  unfolding el3_handle_smc smc_switch smc_return
  smc_op_test-fetched desc elr s =
      let t = test_step_lem desc in
      let level : (Data.el (test_step desc) == 3) ≡ (Test.count desc == 2) = ground (arith, t) in
      (
        smc_get_reg (test_step desc) s,
        refl,
        rw (smc_get_reg_lem (test_step desc) s, level, t.0, t.1),
        rw (smc_get_reg_lem (test_step desc) s) t.2,
        rw (smc_get_reg_lem (test_step desc) s) t.3,
      )
