-- ===== src/El1.antt =====
-- el1/el1.c: the kernel of either world. Its handlers as functions on the state that they share;
-- AArch64. A value of `El1State` belongs to one world, which `secure_state` names.
pub mod Svc
pub mod Loader
pub mod LoaderArm
pub mod Start
use qemu_tztest.Common.{
  ℕ, ◌+◌, ◌%◌, ◌^◌, Bool, true, false, ◌&&◌, Option, none, some, List, bit_and, ◌==◌, if◌then◌else◌,
  u32, u64, ◌>>=◌,
}
use qemu_tztest.Mem64.{MemState, mem_map_pa, mem_heap_allocate, mem_lookup_pa, pte_user_rw}
use qemu_tztest.Interop.{
  Desc, SysControl, smc_op_yield, smc_op_exit, smc_op_map, smc_op_get_reg, smc_op_set_reg,
  smc_op_test, smc_op_dispatch, svc_op_yield, svc_op_exit, svc_op_map, svc_op_get_reg,
  svc_op_set_reg, svc_op_test, svc_op_dispatch, svc_op_get_syscntl, svc_op_alloc, key_currentel,
  key_cptr_el3, key_cpacr, key_scr, key_sctlr, op_map_el3, excp_action_skip, ec_unknown,
  ec_iabort_lower, ec_iabort, ec_dabort_lower, ec_dabort, ec_wfi_wfe, ec_simd,
}
use qemu_tztest.Interop.Data
use qemu_tztest.Interop.Disp
use qemu_tztest.Interop.MapMem
use qemu_tztest.Interop.Alloc
use qemu_tztest.Tztest.Run.{TestFn, run_test}
use qemu_tztest.El3.{
  El3State, Reg, currentel, cptr_el3, cpacr_el1, scr_el3, sctlr_el1, test_step, log_exception,
}

-- The other world while it waits in its SMC_OP_YIELD: its kernel, and the registers that the monitor
-- keeps for it.
pub record Parked : Type 0 where
  pub syscntl_va : ℕ
  pub secure_state : ℕ
  pub mm : MemState
  pub elr : ℕ
  pub sctlr : ℕ
  pub cpacr : ℕ

pub record El1State : Type 0 where
  -- What `smc_interop_buf` points to, and the address in `syscntl` with the block behind it.
  pub smc_interop_buf : Desc
  pub syscntl_va : ℕ
  pub syscntl : SysControl
  pub secure_state : ℕ
  pub mm : MemState
  -- ELR_EL1, where the exception returns to.
  pub elr : ℕ
  -- The machine below, which only the operations of `Below` change.
  pub monitor : El3State
  pub parked : Parked

abbrev pub el1 : ℕ
el1 = 1

-- The result of a handler, with the caller's descriptor; `none` is a fault, or fuel that ran out.
abbrev pub Outcome : Type 0
Outcome = Option (ℕ × Desc × El1State)

-- What the levels around EL1 do. `read` and `write` are a system register access, which may trap, and
-- `smc op` is `__smc(op, smc_interop_buf)` or `__smc(op, NULL)`, with its effect on the buffer.
pub record Below : Type 0 where
  pub read : Reg → El1State → Option (ℕ × El1State)
  pub write : Reg → ℕ → El1State → Option El1State
  pub smc : ℕ → El1State → Option (ℕ × El1State)

unfoldable pub el1_alloc_mem : ℕ → Desc → El1State → Outcome
el1_alloc_mem fuel alloc s = do
  (addr, mm') ← mem_heap_allocate fuel (Alloc.len alloc) s.mm
  some (0, Alloc.set_addr addr alloc, record s { mm = mm' })

-- Registers by key; at EL1 there is no case for CPSR.
unfoldable pub get_own_reg : Below → Desc → El1State → Outcome
get_own_reg below desc s =
    let key = Data.key desc in
    let fetch = λ (r : Reg).
      (let found : Outcome = (do (v, s') ← below.read r s; some (0, Data.set_value v desc, s')) in
        found) in
    if key == key_currentel
    then fetch currentel
    else if key == key_cptr_el3
    then fetch cptr_el3
    else if key == key_cpacr
    then fetch cpacr_el1
    else if key == key_scr
    then fetch scr_el3
    else if key == key_sctlr
    then fetch sctlr_el1
    else some (0, desc, s)

-- `WRITE_CURRENTEL` of builtins.h reads the register.
unfoldable pub set_own_reg : Below → Desc → El1State → Outcome
set_own_reg below desc s =
    let key = Data.key desc in
    let write = λ (r : Reg).
      (let written : Outcome = (do s' ← below.write r (Data.value desc) s; some (0, desc, s')) in
        written) in
    let read_back = (do (_, s') ← below.read currentel s; some (0, desc, s')) in
    if key == key_currentel
    then read_back
    else if key == key_cptr_el3
    then write cptr_el3
    else if key == key_cpacr
    then write cpacr_el1
    else if key == key_scr
    then write scr_el3
    else if key == key_sctlr
    then write sctlr_el1
    else some (0, desc, s)

-- `memcpy(smc_interop_buf, desc, …); __smc(op, smc_interop_buf);`, and the same with the copy back.
unfoldable pub send : Below → ℕ → Desc → El1State → Option El1State
send below op desc s = do (_, s') ← below.smc op (record s { smc_interop_buf = desc }); some s'

unfoldable pub exchange : Below → ℕ → Desc → El1State → Outcome
unfolding send
exchange below op desc s = do s' ← send below op desc s; some (0, s'.smc_interop_buf, s')

-- The request that `el1_map_secure` writes to the buffer for EL3.
unfoldable pub map_request : Desc → El1State → Desc
map_request map s =
    let copied = MapMem.copy s.smc_interop_buf map in
    if MapMem.pa copied == 0
    then copied
    else MapMem.set_pa (mem_lookup_pa (MapMem.va copied) s.mm) copied

unfoldable pub el1_map_secure : Below → ℕ → Desc → El1State → Outcome
unfolding map_request send
el1_map_secure below fuel map s =
    if bit_and (MapMem.type map) op_map_el3 == op_map_el3
    then (do s' ← send below smc_op_map (map_request map s) s; some (0, map, s'))
    else (do
      mm' ← mem_map_pa fuel (MapMem.va map) (MapMem.pa map) 0 pte_user_rw s.mm
      some (0, map, record s { mm = mm' }))

unfoldable pub el1_interop_test : Below → Desc → El1State → Outcome
unfolding test_step
el1_interop_test below desc s = do
  (_, s') ← below.smc smc_op_test (record s { smc_interop_buf = test_step desc })
  let s'' = record s' { smc_interop_buf = test_step s'.smc_interop_buf }
  some (0, s''.smc_interop_buf, s'')

-- `tests` is `test_func` of this EL1, `svc` an SVC issued at EL1 and `stack` the stack's content.
module _ (below : Below) (tests : List (Option (TestFn El1State)))
    (svc : ℕ → Desc → El1State → Option (Desc × El1State)) (stack : Desc) (fuel : ℕ) where
  unfoldable pub svc_exit : Desc → El1State → Outcome
  svc_exit desc s = do (_, s') ← below.smc smc_op_exit s; some (0, desc, s')

  unfoldable pub svc_yield : Desc → El1State → Outcome
  svc_yield desc s = do (ret, s') ← below.smc smc_op_yield s; some (ret, s'.smc_interop_buf, s')

  unfoldable pub svc_get_reg : Desc → El1State → Outcome
  unfolding get_own_reg exchange
  svc_get_reg desc s =
      if Data.el desc == 1
      then get_own_reg below desc s
      else if Data.el desc == 3
      then exchange below smc_op_get_reg desc s
      else some (0, desc, s)

  unfoldable pub svc_set_reg : Desc → El1State → Outcome
  unfolding set_own_reg send
  svc_set_reg desc s =
      if Data.el desc == 1
      then set_own_reg below desc s
      else if Data.el desc == 3
      then (do s' ← send below smc_op_set_reg desc s; some (0, desc, s'))
      else some (0, desc, s)

  unfoldable pub svc_dispatch : Desc → El1State → Outcome
  unfolding exchange
  svc_dispatch desc s =
      if (Disp.el desc == el1) && (Disp.state desc == s.secure_state)
      then (do
        s' ←
            run_test el1 (λ (t : El1State). t.secure_state) tests svc stack (Disp.fid desc)
              (Disp.el desc) (Disp.state desc) (Disp.arg desc) s
        some (0, desc, s'))
      else exchange below smc_op_dispatch desc s

  unfoldable pub svc_switch : ℕ → Desc → El1State → Outcome
  unfolding svc_exit svc_yield el1_alloc_mem el1_map_secure svc_get_reg svc_set_reg el1_interop_test
      svc_dispatch
  svc_switch op desc s =
      if op == svc_op_exit
      then svc_exit desc s
      else if op == svc_op_yield
      then svc_yield desc s
      else if op == svc_op_alloc
      then el1_alloc_mem fuel desc s
      else if op == svc_op_map
      then el1_map_secure below fuel desc s
      else if op == svc_op_get_syscntl
      then some (0, Data.set_value s.syscntl_va desc, s)
      else if op == svc_op_get_reg
      then svc_get_reg desc s
      else if op == svc_op_set_reg
      then svc_set_reg desc s
      else if op == svc_op_test
      then el1_interop_test below desc s
      else if op == svc_op_dispatch
      then svc_dispatch desc s
      else some (0, desc, s)

  unfoldable pub el1_handle_svc : (op : ℕ) → Desc → (elr : ℕ) → El1State → Outcome
  unfolding svc_switch
  el1_handle_svc op desc elr s = do
    (ret, desc', s') ← svc_switch (u32 op) desc s
    some (u32 ret, desc', record s' { elr = elr })

-- The exceptions that EL1 may step over.
unfoldable pub is_el1_skippable : ℕ → Bool
is_el1_skippable ec =
    if ec == ec_unknown then true else if ec == ec_wfi_wfe then true else ec == ec_simd

unfoldable pub el1_handle_exception : Below → (ec iss far elr : ℕ) → El1State → Option El1State
unfolding log_exception is_el1_skippable
el1_handle_exception below ec iss far elr s =
    let logged = record s { syscntl = log_exception ec iss far el1 s.secure_state s.syscntl } in
    if is_el1_skippable ec
    then some (record logged {
      elr = if s.syscntl.excp.action == excp_action_skip then u64 (elr + 4) else elr;
    })
    else (do (_, s') ← below.smc smc_op_exit logged; some (record s' { elr = elr }))
