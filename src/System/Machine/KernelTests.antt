-- ===== src/System/Machine/KernelTests.antt =====
-- The machine serves the kernels' tests as their theorems ask.
use mathlib.Core.Path.{subst}
use qemu_tztest.Common.{ℕ, ◌≡◌, ◌⊎◌, inl, inr, refl, arith, ap, ◌∙◌, true, Option, none, some, List}
use qemu_tztest.Bits.Fields.{bit}
use qemu_tztest.Interop.{Desc, key_cptr_el3, key_scr, ec_sysinsn, ec_unknown, excp_action_skip}
use qemu_tztest.Interop.Data
use qemu_tztest.Tztest.Run.{TestFn}
use qemu_tztest.Tztest.Cpu.{Cpu}
use qemu_tztest.Tztest.Cpu.Smc.{smc_get_reg, smc_set_reg, smc_noop}
use qemu_tztest.Tztest.Cpu.Kernel.Passes.{Serves}
use qemu_tztest.Tztest.Cpu.Kernel.Registers.{Denied, is_el3_reg}
use qemu_tztest.Tztest.Cpu.Trace.{View, kernel_route, Ends, Gets, Traps}
use qemu_tztest.El3.{
  Reg, currentel, cptr_el3, cpacr_el1, scr_el3, sctlr_el1, sder32_el3, Regs, El3State, set_reg,
  el3_handle_smc, smc_switch, smc_return,
}
use qemu_tztest.El3.Smc.{reg_of}
use qemu_tztest.El1.{El1State}
use qemu_tztest.System.Machine.{
  view_of, kernel_reg_route, enter, trap, read_at, write_at, cpu_at, call_monitor,
}
use qemu_tztest.System.Machine.Registers.{
  Stores, written, written-scr, written-cptr, written-cpacr, written-sctlr,
}
use qemu_tztest.System.Machine.Traps.{trap-Traps}
use qemu_tztest.System.Machine.Services.{low-set_low, call_monitor-get, call_monitor-set}

abbrev pub set_buf : Desc → El1State → El1State
set_buf d s = record s { smc_interop_buf = d }

abbrev pub buf : El1State → Desc
buf s = s.smc_interop_buf

module _ (msr : Reg → ℕ → Regs → Regs) (tests3 : List (Option (TestFn El3State)))
    (svc3 : ℕ → Desc → El3State → Option (Desc × El3State))
    (other : ℕ → El1State → Option (ℕ × El1State)) (stack : Desc) (fuel pc iss far junk : ℕ)
    (tests1 : List (Option (TestFn El1State)))
    (svc1 : ℕ → Desc → El1State → Option (Desc × El1State)) (stores : Stores msr) where
  abbrev cpu : Cpu El1State
  cpu =
      cpu_at msr tests3 svc3 tests1 svc1 other stack fuel pc iss far junk kernel_route
        kernel_reg_route

  abbrev smc_here : ℕ → El1State → Option (ℕ × El1State)
  smc_here = call_monitor msr tests3 svc3 tests1 svc1 other stack fuel pc iss far junk

  pub get_el3 :
      (key : ℕ) (r : Reg) (s : El1State)
      → reg_of key ≡ some r
      → Gets view_of (smc_get_reg buf set_buf smc_here key 3 s) (s.monitor.regs r) (view_of s)
  unfolding smc_get_reg
  get_el3 key r s named =
      let d = Data.set_el 3 (Data.set_key key s.smc_interop_buf) in
      (
        record s {
          monitor = record (enter s) { elr = pc };
          smc_interop_buf = Data.set_value (s.monitor.regs r) d;
        },
        rw (
            call_monitor-get msr tests3 svc3 other stack fuel pc iss far junk tests1 svc1 r
              (set_buf d s) (low-set_low s.smc_interop_buf.w2 3) named),
        refl,
      )

  set_el3 :
      (key x : ℕ) (r : Reg) (s : El1State)
      → set_reg msr
          (Data.set_value x (Data.set_el 3 (Data.set_key key s.smc_interop_buf)))
          s.monitor.regs
        ≡ msr r x s.monitor.regs
      → Ends view_of (smc_set_reg buf set_buf smc_here key 3 x s) (written msr r x s)
  unfolding smc_set_reg
  set_el3 key x r s named =
      let d = Data.set_value x (Data.set_el 3 (Data.set_key key s.smc_interop_buf)) in
      (
        record s {
          monitor = record (enter s) { regs = set_reg msr d s.monitor.regs; elr = pc };
          smc_interop_buf = d;
        },
        rw (
            call_monitor-set msr tests3 svc3 other stack fuel pc iss far junk tests1 svc1
              (set_buf d s) (low-set_low s.smc_interop_buf.w2 3)),
        rw named,
      )

  pub serves_scr :
      (x : ℕ) (s : El1State)
      → Ends view_of
          (smc_set_reg buf set_buf smc_here key_scr 3 x s)
          (record (view_of s) { scr = x })
  unfolding set_reg
  serves_scr x s =
      subst (Ends view_of (smc_set_reg buf set_buf smc_here key_scr 3 x s))
        (written-scr msr stores x s) (set_el3 key_scr x scr_el3 s refl)

  serves_cptr :
      (x : ℕ) (s : El1State)
      → Ends view_of
          (smc_set_reg buf set_buf smc_here key_cptr_el3 3 x s)
          (record (view_of s) { cptr = x })
  unfolding set_reg
  serves_cptr x s =
      subst (Ends view_of (smc_set_reg buf set_buf smc_here key_cptr_el3 3 x s))
        (written-cptr msr stores x s) (set_el3 key_cptr_el3 x cptr_el3 s refl)

  serves_noop : (s : El1State) → Ends view_of (smc_noop buf set_buf smc_here s) (view_of s)
  unfolding smc_noop call_monitor el3_handle_smc smc_switch smc_return
  serves_noop s = (record s { monitor = record (enter s) { elr = pc } }, refl, refl)

  open_cpacr :
      (s : El1State)
      → bit 31 (s.monitor.regs cptr_el3) ≡ 0
      → kernel_reg_route cpacr_el1 (view_of s) ≡ none
  open_cpacr s e = rw e

  closed_cpacr :
      (s : El1State)
      → bit 31 (s.monitor.regs cptr_el3) ≡ 1
      → kernel_reg_route cpacr_el1 (view_of s) ≡ some (ec_sysinsn, 3)
  closed_cpacr s e = rw e

  serves_cpacr :
      (x : ℕ) (s : El1State)
      → bit 31 (s.monitor.regs cptr_el3) ≡ 0
      → Ends view_of (cpu.msr cpacr_el1 x s) (record (view_of s) { cpacr = x })
  unfolding write_at
  serves_cpacr x s e = (
    record s { monitor = record s.monitor { regs = msr cpacr_el1 x s.monitor.regs } },
    rw (open_cpacr s e),
    written-cpacr msr stores x s,
  )

  get_cpacr :
      (s : El1State)
      → bit 31 (s.monitor.regs cptr_el3) ≡ 0
      → Gets view_of (cpu.mrs cpacr_el1 s) (s.monitor.regs cpacr_el1) (view_of s)
  unfolding read_at
  get_cpacr s e = (s, rw (open_cpacr s e), refl)

  trapped :
      (ec el : ℕ) (s : El1State) (v : View)
      → view_of s ≡ v
      → v.block.excp.action ≡ excp_action_skip
      → ((ec ≡ ec_sysinsn) × (el ≡ 3)) ⊎ ((ec ≡ ec_unknown) × (el ≡ 1))
      → Traps view_of
          (trap msr tests3 svc3 tests1 svc1 other stack fuel pc iss far junk ec el s)
          ec
          el
          v
  trapped ec el s v at skip which =
      trap-Traps msr tests3 svc3 other stack fuel pc iss far junk tests1 svc1 ec el s v at skip
        (ground arith)

  -- A trapped read leaves `junk`.
  read_trapped :
      (r : Reg) (ec el : ℕ) (s : El1State) (v : View)
      → kernel_reg_route r (view_of s) ≡ some (ec, el)
      → Traps view_of
          (trap msr tests3 svc3 tests1 svc1 other stack fuel pc iss far junk ec el s)
          ec
          el
          v
      → Traps (λ (t : ℕ × El1State). view_of t.1) (cpu.mrs r s) ec el v
  unfolding read_at
  read_trapped r ec el s v route (t, i, f, st, ran, seen) =
      ((junk, t), i, f, st, rw (route, ran), seen)

  write_trapped :
      (r : Reg) (x ec el : ℕ) (s : El1State) (v : View)
      → kernel_reg_route r (view_of s) ≡ some (ec, el)
      → Traps view_of
          (trap msr tests3 svc3 tests1 svc1 other stack fuel pc iss far junk ec el s)
          ec
          el
          v
      → Traps view_of (cpu.msr r x s) ec el v
  unfolding write_at
  write_trapped r x ec el s v route (t, i, f, st, ran, seen) = (t, i, f, st, rw (route, ran), seen)

  -- EL3 and EL1's own accesses serve the kernel's tests.
  pub call_monitor-Serves : Serves view_of cpu buf set_buf smc_here
  unfolding read_at write_at
  call_monitor-Serves = record {
    get_cptr = λ s v at.
        subst (λ w. Gets view_of (smc_get_reg buf set_buf smc_here key_cptr_el3 3 s) w.cptr w) at
          (get_el3 key_cptr_el3 cptr_el3 s refl);
    get_scr = λ s v at.
        subst (λ w. Gets view_of (smc_get_reg buf set_buf smc_here key_scr 3 s) w.scr w) at
          (get_el3 key_scr scr_el3 s refl);
    set_cptr = λ x s v at.
        subst
          (λ w.
            Ends view_of (smc_set_reg buf set_buf smc_here key_cptr_el3 3 x s)
              (record w { cptr = x }))
          at (serves_cptr x s);
    set_scr = λ x s v at.
        subst
          (λ w.
            Ends view_of (smc_set_reg buf set_buf smc_here key_scr 3 x s) (record w { scr = x }))
          at (serves_scr x s);
    noop = λ s v at. subst (Ends view_of (smc_noop buf set_buf smc_here s)) at (serves_noop s);
    get_sctlr = λ s v at. (s, ap (λ (w : View). some (w.sctlr, s)) at, at);
    set_sctlr = λ x s v at.
        subst (λ w. Ends view_of (cpu.msr sctlr_el1 x s) (record w { sctlr = x })) at
          (
            record s { monitor = record s.monitor { regs = msr sctlr_el1 x s.monitor.regs } },
            refl,
            written-sctlr msr stores x s,
          );
    get_cpacr = λ s v at e.
        subst (λ w. Gets view_of (cpu.mrs cpacr_el1 s) w.cpacr w) at
          (get_cpacr s (ap (λ (w : View). bit 31 w.cptr) at ∙ e));
    set_cpacr = λ x s v at e.
        subst (λ w. Ends view_of (cpu.msr cpacr_el1 x s) (record w { cpacr = x })) at
          (serves_cpacr x s (ap (λ (w : View). bit 31 w.cptr) at ∙ e));
    get_trapped = λ s v at skip e.
        read_trapped cpacr_el1 ec_sysinsn 3 s v
          (closed_cpacr s (ap (λ (w : View). bit 31 w.cptr) at ∙ e))
          (trapped ec_sysinsn 3 s v at skip (inl (refl, refl)));
    set_trapped = λ x s v at skip e.
        write_trapped cpacr_el1 x ec_sysinsn 3 s v
          (closed_cpacr s (ap (λ (w : View). bit 31 w.cptr) at ∙ e))
          (trapped ec_sysinsn 3 s v at skip (inl (refl, refl)));
  }

  denied_route :
      (r : Reg) (v : View) → is_el3_reg r ≡ true → kernel_reg_route r v ≡ some (ec_unknown, 1)
  denied_route scr_el3 v h = refl
  denied_route sder32_el3 v h = refl
  denied_route cptr_el3 v h = refl
  denied_route cpacr_el1 v h = cc
  denied_route sctlr_el1 v h = cc
  denied_route currentel v h = cc

  -- An access of EL1 to a register of EL3 goes to the kernel's own handler.
  pub cpu_at-Denied : Denied view_of cpu buf set_buf smc_here
  cpu_at-Denied = record {
    read = λ r s v here at skip.
        read_trapped r ec_unknown 1 s v (denied_route r _ here)
          (trapped ec_unknown 1 s v at skip (inr (refl, refl)));
    write = λ r x s v here at skip.
        write_trapped r x ec_unknown 1 s v (denied_route r _ here)
          (trapped ec_unknown 1 s v at skip (inr (refl, refl)));
  }
