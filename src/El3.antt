-- ===== src/El3.antt =====
-- el3/el3.c: the secure monitor. Its handlers as functions on the state that they share; AArch64.
pub mod Smc
pub mod World
pub mod Regs
pub mod Exception
pub mod Map
pub mod Start
pub mod Examples
use qemu_tztest.Common.{
  ℕ, ◌+◌, ◌%◌, ◌^◌, Bool, true, false, ◌&&◌, Option, none, some, List, bit_and, bit_xor, ◌==◌,
  if◌then◌else◌, u32, u64, ◌>>=◌, ◌>>>◌,
}
use qemu_tztest.Mem64.{MemState, mem_map_pa, mem_heap_allocate, pte_priv_rw}
use qemu_tztest.Interop.{
  Desc, SysControl, Excp, smc_op_noop, smc_op_yield, smc_op_exit, smc_op_map, smc_op_get_reg,
  smc_op_set_reg, smc_op_test, smc_op_dispatch, svc_op_yield, svc_op_map, svc_op_test,
  svc_op_dispatch, key_currentel, key_cptr_el3, key_cpacr, key_scr, key_sctlr, op_map_el3,
  op_map_sec_el1, excp_action_skip, ec_smc64, ec_smc32, ec_iabort_lower, ec_iabort, ec_dabort_lower,
  ec_dabort, ec_sysinsn, ec_wfi_wfe, ec_simd,
}
use qemu_tztest.Interop.Test
use qemu_tztest.Interop.Data
use qemu_tztest.Interop.Disp
use qemu_tztest.Interop.MapMem
use qemu_tztest.Interop.Alloc
use qemu_tztest.Tztest.Run.{TestFn, run_test}

-- The system registers that the handlers and the tests read and write.
pub data Reg : Type 0 where
  currentel cptr_el3 cpacr_el1 scr_el3 sctlr_el1 sder32_el3 : Reg

abbrev pub Regs : Type 0
Regs = Reg → ℕ

pub record El3State : Type 0 where
  pub regs : Regs
  pub secure_state : ℕ
  pub syscntl : SysControl
  pub mm : MemState
  -- ELR_EL3, where the exception returns to.
  pub elr : ℕ
  -- The word at SYSREG_BASE + SYSREG_CFGCTRL.
  pub cfgctrl : ℕ

abbrev pub el3 : ℕ
el3 = 3

-- `SYS_SHUTDOWN` has type `int` and is negative: it is sign-extended on the way to the register.
abbrev pub sys_shutdown : ℕ
sys_shutdown = 0xFFFFFFFFC0800000

unfoldable pub el3_shutdown : El3State → El3State
el3_shutdown s = record s { cfgctrl = sys_shutdown }

-- What a handler returns: its result, the descriptor and the state. `none` is a fault, or a fuel
-- that ran out.
abbrev pub Outcome : Type 0
Outcome = Option (ℕ × Desc × El3State)

unfoldable pub el3_alloc_mem : ℕ → Desc → El3State → Option (Desc × El3State)
el3_alloc_mem fuel alloc s = do
  (addr, mm') ← mem_heap_allocate fuel (Alloc.len alloc) s.mm
  some (Alloc.set_addr addr alloc, record s { mm = mm' })

-- The second half of `el3_map_mem`; `~OP_MAP_EL3` is a mask of 32 bits.
unfoldable pub map_on : Desc → El3State → ℕ × Desc × El3State
map_on map s =
    if bit_and (MapMem.type map) op_map_sec_el1 == op_map_sec_el1
    then (svc_op_map, MapMem.set_type (bit_and (MapMem.type map) 0xFFFFFFF7) map, s)
    else (0, map, s)

unfoldable pub el3_map_mem : ℕ → Desc → El3State → Outcome
unfolding map_on
el3_map_mem fuel map s =
    if bit_and (MapMem.type map) op_map_el3 == op_map_el3
    then (do
      mm' ← mem_map_pa fuel (MapMem.va map) (MapMem.pa map) 0 pte_priv_rw s.mm
      some (map_on map (record s { mm = mm' })))
    else some (map_on map s)

-- The inner switch of `SMC_OP_GET_REG`.
unfoldable pub get_reg : Regs → Desc → Desc
get_reg regs desc =
    let key = Data.key desc in
    if key == key_currentel
    then Data.set_value (regs currentel) desc
    else if key == key_cptr_el3
    then Data.set_value (regs cptr_el3) desc
    else if key == key_cpacr
    then Data.set_value (regs cpacr_el1) desc
    else if key == key_scr
    then Data.set_value (regs scr_el3) desc
    else if key == key_sctlr
    then Data.set_value (regs sctlr_el1) desc
    else desc

unfoldable pub smc_get_reg : Desc → El3State → Desc
unfolding get_reg
smc_get_reg desc s = if Data.el desc == 3 then get_reg s.regs desc else desc

-- `if (test->val != test->orig >> test->count) test->fail++; test->val >>= 1; test->count++;`
unfoldable pub test_step : Desc → Desc
test_step test =
    let checked =
      (if Test.val test == Test.orig test >>> Test.count test
        then test
        else Test.set_fail (Test.fail test + 1) test) in
    Test.set_count (Test.count checked + 1) (Test.set_val (Test.val checked >>> 1) checked)

-- `msr r v regs` is the register file after a write of `v` to `r`, which the CPU decides.
module _ (msr : Reg → ℕ → Regs → Regs) where
  -- The inner switch of `SMC_OP_SET_REG`. `WRITE_CURRENTEL` of builtins.h calls `read_currentel`.
  unfoldable pub set_reg : Desc → Regs → Regs
  set_reg desc regs =
      let key = Data.key desc in
      if key == key_currentel
      then regs
      else if key == key_cptr_el3
      then msr cptr_el3 (Data.value desc) regs
      else if key == key_cpacr
      then msr cpacr_el1 (Data.value desc) regs
      else if key == key_scr
      then msr scr_el3 (Data.value desc) regs
      else if key == key_sctlr
      then msr sctlr_el1 (Data.value desc) regs
      else regs

  unfoldable pub smc_set_reg : Desc → El3State → El3State
  unfolding set_reg
  smc_set_reg desc s = if Data.el desc == 3 then record s { regs = set_reg desc s.regs } else s

  -- `tests` is `test_func` of EL3, `svc` an SVC issued at EL3 and `stack` the stack's content.
  module _ (tests : List (Option (TestFn El3State)))
      (svc : ℕ → Desc → El3State → Option (Desc × El3State)) (stack : Desc) (fuel : ℕ) where
    unfoldable pub smc_dispatch : Desc → El3State → Outcome
    smc_dispatch desc s =
        if (Disp.el desc == el3) && (Disp.state desc == bit_and (s.regs scr_el3) 1)
        then (do
          s' ←
              run_test el3 (λ (t : El3State). t.secure_state) tests svc stack (Disp.fid desc)
                (Disp.el desc) (Disp.state desc) (Disp.arg desc) s
          some (0, desc, s'))
        else some (svc_op_dispatch, desc, s)

    -- The switch of `el3_handle_smc`. `SMC_OP_TEST` has no `break`: it goes on with `SMC_OP_GET_REG`.
    unfoldable pub smc_switch : ℕ → Desc → El3State → Outcome
    unfolding smc_dispatch smc_set_reg smc_get_reg test_step el3_map_mem el3_shutdown
    smc_switch op desc s =
        if op == smc_op_yield
        then some (svc_op_yield, desc, s)
        else if op == smc_op_map
        then el3_map_mem fuel desc s
        else if op == smc_op_noop
        then some (0, desc, s)
        else if op == smc_op_exit
        then some (0, desc, el3_shutdown s)
        else if op == smc_op_dispatch
        then smc_dispatch desc s
        else if op == smc_op_test
        then some (svc_op_test, smc_get_reg (test_step desc) s, s)
        else if op == smc_op_get_reg
        then some (0, smc_get_reg desc s, s)
        else if op == smc_op_set_reg
        then some (0, desc, smc_set_reg desc s)
        else some (0, desc, el3_shutdown s)

    -- What follows the switch: `if (ret) secure_state ^= 1; __set_exception_return(elr);`.
    unfoldable pub smc_return : ℕ → ℕ × Desc × El3State → ℕ × Desc × El3State
    smc_return elr (ret, desc, s) = (
      ret,
      desc,
      record s {
        secure_state = if ret == 0 then s.secure_state else bit_xor s.secure_state 1;
        elr = elr;
      },
    )

    unfoldable pub el3_handle_smc : (op : ℕ) → Desc → (elr : ℕ) → El3State → Outcome
    unfolding smc_switch smc_return
    el3_handle_smc op desc elr s = do r ← smc_switch op desc s; some (smc_return elr r)

-- The record of an exception in the control block: `uint32_t` fields.
unfoldable pub log_exception : (ec iss far el state : ℕ) → SysControl → SysControl
log_exception ec iss far el state c =
    if c.excp.log
    then record c {
      excp = record c.excp {
        taken = true;
        ec = u32 ec;
        iss = u32 iss;
        far = u32 far;
        el = el;
        state = state;
      };
    }
    else c

-- The exceptions that may be stepped over, at EL3.
unfoldable pub is_skippable : ℕ → Bool
is_skippable ec =
    if ec == ec_sysinsn then true else if ec == ec_wfi_wfe then true else ec == ec_simd

unfoldable pub el3_handle_exception : (ec iss far elr : ℕ) → El3State → El3State
unfolding log_exception el3_shutdown is_skippable
el3_handle_exception ec iss far elr s =
    let logged = record s { syscntl = log_exception ec iss far el3 0 s.syscntl } in
    if ec == ec_smc64
    then record logged { elr = elr }
    else if ec == ec_smc32
    then record logged { elr = elr }
    else if ec == ec_iabort_lower
    then record (el3_shutdown logged) { elr = elr }
    else if ec == ec_iabort
    then record (el3_shutdown logged) { elr = elr }
    else if ec == ec_dabort_lower
    then record (el3_shutdown logged) { elr = elr }
    else if ec == ec_dabort
    then record (el3_shutdown logged) { elr = elr }
    else if is_skippable ec
    then record logged {
      elr = if s.syscntl.excp.action == excp_action_skip then u64 (elr + 4) else elr;
    }
    else record (el3_shutdown logged) { elr = elr }
