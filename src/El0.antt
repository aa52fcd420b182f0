-- ===== src/El0.antt =====
-- el0/: the user programs of both worlds, on a state `S` that holds what they and the levels below
-- share. `svc op desc` is `__svc(op, &desc)`: the result, the descriptor and the state after it.
use qemu_tztest.Common.{ℕ, zero, suc, Option, none, some, ◌==◌, if◌then◌else◌, ◌>>=◌}
use qemu_tztest.Interop.{
  Desc, svc_op_yield, svc_op_exit, svc_op_map, svc_op_test, svc_op_dispatch, svc_op_alloc,
  svc_op_get_syscntl, op_map_all,
}
use qemu_tztest.Interop.Alloc
use qemu_tztest.Interop.MapMem
use qemu_tztest.Interop.Disp
use qemu_tztest.Interop.Data
use qemu_tztest.El3.{test_step}

-- `stack` is what a descriptor on the stack holds before it is filled in; it also stands for the
-- descriptor of a call with NULL, which no operation reads.
module _ {S : Type 0} (svc : ℕ → Desc → S → Option (ℕ × Desc × S)) (stack : Desc) where
  -- el0/el0.c
  unfoldable pub alloc_mem : (type len : ℕ) → S → Option (ℕ × S)
  alloc_mem type len s = do
    (_, op, s') ←
        svc svc_op_alloc (Alloc.set_addr 0 (Alloc.set_len len (Alloc.set_type type stack))) s
    some (Alloc.addr op, s')

  unfoldable pub map_va : (va len type : ℕ) → S → Option S
  map_va va len type s = do
    (_, _, s') ←
        svc svc_op_map (MapMem.set_type type (MapMem.set_len len (MapMem.set_va va stack))) s
    some s'

  -- The switch of `el0_sec_loop`: the operation to issue next. `run` is `run_test` of this level.
  module _ (run : (fid el state arg : ℕ) → S → Option S) where
    unfoldable pub loop_switch : ℕ → Desc → S → Option (ℕ × Desc × S)
    loop_switch op desc s =
        if op == svc_op_map
        then some (svc_op_map, desc, s)
        else if op == svc_op_yield
        then some (svc_op_yield, desc, s)
        else if op == svc_op_test
        then some (svc_op_yield, test_step desc, s)
        else if op == svc_op_dispatch
        then (do
          s' ← run (Disp.fid desc) (Disp.el desc) (Disp.state desc) (Disp.arg desc) s
          some (svc_op_yield, desc, s'))
        else if op == 0
        then some (svc_op_yield, desc, s)
        else some (svc_op_exit, desc, s)

    -- The loop; `none` also when the rounds given as fuel are over.
    unfoldable pub sec_loop : (fuel op : ℕ) → Desc → S → Option S
    sec_loop zero op desc s = none
    sec_loop (suc fuel) op desc s =
        let round = (do
          (op', desc', s') ← loop_switch op desc s
          (op'', desc'', s'') ← svc op' desc' s'
          sec_loop fuel op'' desc'' s'') in
        let leave = (do (_, _, s') ← svc svc_op_exit stack s; some s') in
        if op == svc_op_exit then leave else round

    unfoldable pub el0_sec_loop : ℕ → S → Option S
    el0_sec_loop fuel s = sec_loop fuel svc_op_yield stack s

    -- `main` of el0_sec.c; the loop runs also after a null control block, if the exit returns.
    unfoldable pub sec_main : ℕ → S → Option S
    unfolding el0_sec_loop
    sec_main fuel s = do
      (_, desc, s') ← svc svc_op_get_syscntl stack s
      s'' ←
          (if Data.value desc == 0
            then (do (_, _, t) ← svc svc_op_exit stack s'; some t)
            else some s')
      el0_sec_loop fuel s''

  -- `main` of el0_nsec.c. `put va p` is `syscntl->test_cntl = p` through a control block at `va`, and
  -- `start` is `tztest_start`. The null test comes behind the block's first use.
  unfoldable pub nsec_main : (put : (va p : ℕ) → S → Option S) (start : S → Option S) → S → Option S
  unfolding alloc_mem map_va
  nsec_main put start s = do
    (_, desc, s1) ← svc svc_op_get_syscntl stack s
    let syscntl = Data.value desc
    (test_cntl, s2) ← alloc_mem 0 0x1000 s1
    s3 ← put syscntl test_cntl s2
    s4 ← map_va test_cntl 0x1000 op_map_all s3
    s5 ← (if syscntl == 0 then (do (_, _, t) ← svc svc_op_exit desc s4; some t) else some s4)
    s6 ← start s5
    (_, _, s7) ← svc svc_op_exit stack s6
    some s7
