-- ===== src/System/Machine/Services.antt =====
-- Register requests through the SVC and SMC handlers.
use qemu_tztest.Common.{ℕ, ◌≡◌, refl, arith, Option, some, List, u32}
use qemu_tztest.Interop.{
  Desc, low, set_low, key_cpacr, key_sctlr, smc_op_get_reg, smc_op_set_reg, svc_op_get_reg,
  svc_op_set_reg,
}
use qemu_tztest.Interop.Data
use qemu_tztest.Tztest.Run.{TestFn}
use qemu_tztest.El3.{
  Reg, cpacr_el1, sctlr_el1, Regs, El3State, smc_switch, smc_return, el3_handle_smc, set_reg,
  smc_set_reg,
}
use qemu_tztest.El3.Smc.{reg_of, smc_get_reg_lem}
use qemu_tztest.El1.{
  El1State, el1_handle_svc, svc_switch, get_own_reg, set_own_reg, svc_get_reg, svc_set_reg,
  exchange, send,
}
use qemu_tztest.System.Machine.{
  view_of, kernel_reg_route, enter, call_monitor, read_at, write_at, svc_at,
}

pub low-set_low : (w x : ℕ) → low (set_low w x) ≡ u32 x
low-set_low w x = omega arith

module _ (msr : Reg → ℕ → Regs → Regs) (tests3 : List (Option (TestFn El3State)))
    (svc3 : ℕ → Desc → El3State → Option (Desc × El3State))
    (other : ℕ → El1State → Option (ℕ × El1State)) (stack : Desc) (fuel pc iss far junk : ℕ)
    (tests1 : List (Option (TestFn El1State)))
    (svc1 : ℕ → Desc → El1State → Option (Desc × El1State)) where
  abbrev monitor_here : ℕ → El1State → Option (ℕ × El1State)
  monitor_here = call_monitor msr tests3 svc3 tests1 svc1 other stack fuel pc iss far junk

  -- The machine after a request that EL3 answers, with `regs` and the buffer as it leaves them.
  abbrev pub answered : Regs → Desc → El1State → El1State
  answered regs d s = record s {
    monitor = record (enter s) { regs = regs; elr = pc };
    smc_interop_buf = d;
  }

  pub call_monitor-get :
      (r : Reg) (s : El1State)
      → Data.el s.smc_interop_buf ≡ 3
      → reg_of (Data.key s.smc_interop_buf) ≡ some r
      → monitor_here smc_op_get_reg s
        ≡ some (0, answered s.monitor.regs (Data.set_value (s.monitor.regs r) s.smc_interop_buf) s)
  unfolding call_monitor el3_handle_smc smc_switch smc_return
  call_monitor-get r s at named = rw (smc_get_reg_lem s.smc_interop_buf (enter s), at, named)

  pub call_monitor-set :
      (s : El1State)
      → Data.el s.smc_interop_buf ≡ 3
      → monitor_here smc_op_set_reg s
        ≡ some (0, answered (set_reg msr s.smc_interop_buf s.monitor.regs) s.smc_interop_buf s)
  unfolding call_monitor el3_handle_smc smc_switch smc_return smc_set_reg
  call_monitor-set s at = rw at

  abbrev svc_here : ℕ → Desc → El1State → Option (ℕ × Desc × El1State)
  svc_here = svc_at msr tests3 svc3 tests1 svc1 other stack fuel pc iss far junk

  abbrev request : (key el : ℕ) → Desc
  request key el = Data.set_el el (Data.set_key key stack)

  -- A user's read and write of a register of EL3: the kernel hands it on.
  pub svc_at-get :
      (key : ℕ) (r : Reg) (s : El1State)
      → reg_of key ≡ some r
      → (d : Desc) × (t : El1State) × (svc_here svc_op_get_reg (request key 3) s ≡ some (0, d, t))
        × (Data.value d ≡ s.monitor.regs r)
        × (view_of t ≡ view_of s)
  unfolding el1_handle_svc svc_switch svc_get_reg exchange send
  svc_at-get key r s named =
      let d = request key 3 in
      let el = low-set_low stack.w2 3 in
      let d' = Data.set_value (s.monitor.regs r) d in
      (
        d',
        record (answered s.monitor.regs d' s) { elr = pc },
        rw (el, call_monitor-get r (record s { smc_interop_buf = d }) el named),
        refl,
        refl,
      )

  pub svc_at-set :
      (key x : ℕ) (s : El1State)
      → (d : Desc) × (t : El1State) × (svc_here svc_op_set_reg (Data.set_value x (request key 3)) s
          ≡ some (0, d, t))
        × (t.monitor.regs ≡ set_reg msr (Data.set_value x (request key 3)) s.monitor.regs)
        × (t.syscntl ≡ s.syscntl)
        × (t.secure_state ≡ s.secure_state)
        × (t.parked ≡ s.parked)
  unfolding el1_handle_svc svc_switch svc_set_reg exchange send
  svc_at-set key x s =
      let d = Data.set_value x (request key 3) in
      let el = low-set_low stack.w2 3 in
      (
        d,
        record (answered (set_reg msr d s.monitor.regs) d s) { elr = pc },
        rw (el, call_monitor-set (record s { smc_interop_buf = d }) el),
        refl,
        refl,
        refl,
        refl,
      )

  -- A user's read and write of a register of EL1: the kernel makes the access, which may trap.
  abbrev own_read : Reg → El1State → Option (ℕ × El1State)
  own_read r s =
      read_at msr tests3 svc3 tests1 svc1 other stack fuel pc iss far junk
        (kernel_reg_route r (view_of s)) r s

  abbrev own_write : Reg → ℕ → El1State → Option El1State
  own_write r x s =
      write_at msr tests3 svc3 tests1 svc1 other stack fuel pc iss far junk
        (kernel_reg_route r (view_of s)) r x s

  pub svc_at-get_cpacr :
      (s t : El1State) (x : ℕ)
      → own_read cpacr_el1 s ≡ some (x, t)
      → svc_here svc_op_get_reg (request key_cpacr 1) s
        ≡ some (0, Data.set_value x (request key_cpacr 1), record t { elr = pc })
  unfolding el1_handle_svc svc_switch svc_get_reg get_own_reg
  svc_at-get_cpacr s t x e = rw (low-set_low stack.w2 1, e)

  pub svc_at-set_cpacr :
      (s t : El1State) (x : ℕ)
      → own_write cpacr_el1 x s ≡ some t
      → svc_here svc_op_set_reg (Data.set_value x (request key_cpacr 1)) s
        ≡ some (0, Data.set_value x (request key_cpacr 1), record t { elr = pc })
  unfolding el1_handle_svc svc_switch svc_set_reg set_own_reg
  svc_at-set_cpacr s t x e = rw (low-set_low stack.w2 1, e)

  pub svc_at-get_sctlr :
      (s t : El1State) (x : ℕ)
      → own_read sctlr_el1 s ≡ some (x, t)
      → svc_here svc_op_get_reg (request key_sctlr 1) s
        ≡ some (0, Data.set_value x (request key_sctlr 1), record t { elr = pc })
  unfolding el1_handle_svc svc_switch svc_get_reg get_own_reg
  svc_at-get_sctlr s t x e = rw (low-set_low stack.w2 1, e)

  pub svc_at-set_sctlr :
      (s t : El1State) (x : ℕ)
      → own_write sctlr_el1 x s ≡ some t
      → svc_here svc_op_set_reg (Data.set_value x (request key_sctlr 1)) s
        ≡ some (0, Data.set_value x (request key_sctlr 1), record t { elr = pc })
  unfolding el1_handle_svc svc_switch svc_set_reg set_own_reg
  svc_at-set_sctlr s t x e = rw (low-set_low stack.w2 1, e)
