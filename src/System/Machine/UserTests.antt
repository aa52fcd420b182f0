-- ===== src/System/Machine/UserTests.antt =====
-- The machine serves the user programs' tests as their theorems ask.
use mathlib.Core.Path.{subst}
use qemu_tztest.Common.{ℕ, ◌≡◌, refl, ap, ◌∙◌, Option, none, some, List}
use qemu_tztest.Bits.Fields.{bit}
use qemu_tztest.Interop.{
  Desc, key_cptr_el3, key_cpacr, key_scr, key_sctlr, ec_sysinsn, ec_unknown, excp_action_skip,
}
use qemu_tztest.Interop.Data
use qemu_tztest.Tztest.Run.{TestFn}
use qemu_tztest.Tztest.Cpu.{Cpu, read_only}
use qemu_tztest.Tztest.Cpu.User.{svc_get_reg, svc_set_reg}
use qemu_tztest.Tztest.Cpu.User.Passes.{Serves}
use qemu_tztest.Tztest.Cpu.User.Registers.{Denied}
use qemu_tztest.Tztest.Cpu.Trace.{View, user_route, Ends, Gets, Traps}
use qemu_tztest.El3.{Reg, cptr_el3, cpacr_el1, scr_el3, sctlr_el1, Regs, El3State, set_reg}
use qemu_tztest.El3.Smc.{reg_of}
use qemu_tztest.El1.{El1State}
use qemu_tztest.System.Machine.{
  view_of, user_reg_route, kernel_reg_route, trap, read_at, write_at, cpu_at, svc_at,
}
use qemu_tztest.System.Machine.Registers.{
  Stores, written, written-scr, written-cptr, written-cpacr, written-sctlr,
}
use qemu_tztest.System.Machine.Traps.{trap-Traps}
use qemu_tztest.System.Machine.Services.{
  svc_at-get, svc_at-set, svc_at-get_cpacr, svc_at-set_cpacr, svc_at-get_sctlr, svc_at-set_sctlr,
}

module _ (msr : Reg → ℕ → Regs → Regs) (tests3 : List (Option (TestFn El3State)))
    (svc3 : ℕ → Desc → El3State → Option (Desc × El3State))
    (other : ℕ → El1State → Option (ℕ × El1State)) (stack : Desc) (fuel pc iss far junk : ℕ)
    (tests1 : List (Option (TestFn El1State)))
    (svc1 : ℕ → Desc → El1State → Option (Desc × El1State)) (stores : Stores msr) where
  abbrev cpu : Cpu El1State
  cpu =
      cpu_at msr tests3 svc3 tests1 svc1 other stack fuel pc iss far junk user_route user_reg_route

  abbrev svc_here : ℕ → Desc → El1State → Option (ℕ × Desc × El1State)
  svc_here = svc_at msr tests3 svc3 tests1 svc1 other stack fuel pc iss far junk

  get_el3 :
      (key : ℕ) (r : Reg) (s : El1State)
      → reg_of key ≡ some r
      → Gets view_of (svc_get_reg cpu svc_here stack key 3 s) (s.monitor.regs r) (view_of s)
  unfolding svc_get_reg
  get_el3 key r s named =
      let g =
        svc_at-get msr tests3 svc3 other stack fuel pc iss far junk tests1 svc1 key r s named in
      (g.1, rw (g.2, g.3), g.4)

  set_el3 :
      (key x : ℕ) (r : Reg) (s : El1State)
      → set_reg msr (Data.set_value x (Data.set_el 3 (Data.set_key key stack))) s.monitor.regs
        ≡ msr r x s.monitor.regs
      → Ends view_of (svc_set_reg cpu svc_here stack key 3 x s) (written msr r x s)
  unfolding svc_set_reg
  set_el3 key x r s named =
      let g = svc_at-set msr tests3 svc3 other stack fuel pc iss far junk tests1 svc1 key x s in
      (g.1, rw g.2, rw (g.3, named, g.4, g.5, g.6))

  serves_scr :
      (x : ℕ) (s : El1State)
      → Ends view_of (svc_set_reg cpu svc_here stack key_scr 3 x s) (record (view_of s) { scr = x })
  unfolding set_reg
  serves_scr x s =
      subst (Ends view_of (svc_set_reg cpu svc_here stack key_scr 3 x s))
        (written-scr msr stores x s) (set_el3 key_scr x scr_el3 s refl)

  serves_cptr :
      (x : ℕ) (s : El1State)
      → Ends view_of
          (svc_set_reg cpu svc_here stack key_cptr_el3 3 x s)
          (record (view_of s) { cptr = x })
  unfolding set_reg
  serves_cptr x s =
      subst (Ends view_of (svc_set_reg cpu svc_here stack key_cptr_el3 3 x s))
        (written-cptr msr stores x s) (set_el3 key_cptr_el3 x cptr_el3 s refl)

  serves_sctlr :
      (x : ℕ) (s : El1State)
      → Ends view_of
          (svc_set_reg cpu svc_here stack key_sctlr 1 x s)
          (record (view_of s) { sctlr = x })
  unfolding svc_set_reg write_at
  serves_sctlr x s = (
    record s { monitor = record s.monitor { regs = msr sctlr_el1 x s.monitor.regs }; elr = pc },
    rw (svc_at-set_sctlr msr tests3 svc3 other stack fuel pc iss far junk tests1 svc1 s _ x refl),
    written-sctlr msr stores x s,
  )

  open_cpacr :
      (s : El1State)
      → bit 31 (s.monitor.regs cptr_el3) ≡ 0
      → kernel_reg_route cpacr_el1 (view_of s) ≡ none
  open_cpacr s e = rw e

  serves_cpacr :
      (x : ℕ) (s : El1State)
      → bit 31 (s.monitor.regs cptr_el3) ≡ 0
      → Ends view_of
          (svc_set_reg cpu svc_here stack key_cpacr 1 x s)
          (record (view_of s) { cpacr = x })
  unfolding svc_set_reg write_at
  serves_cpacr x s e =
      let t = record s { monitor = record s.monitor { regs = msr cpacr_el1 x s.monitor.regs } } in
      (
        record t { elr = pc },
        rw (
            svc_at-set_cpacr msr tests3 svc3 other stack fuel pc iss far junk tests1 svc1 s t x
              (rw (open_cpacr s e))),
        written-cpacr msr stores x s,
      )

  get_sctlr :
      (s : El1State)
      → Gets view_of
          (svc_get_reg cpu svc_here stack key_sctlr 1 s)
          (s.monitor.regs sctlr_el1)
          (view_of s)
  unfolding svc_get_reg read_at
  get_sctlr s = (
    record s { elr = pc },
    rw (
        svc_at-get_sctlr msr tests3 svc3 other stack fuel pc iss far junk tests1 svc1 s s
          (s.monitor.regs sctlr_el1) refl),
    refl,
  )

  get_cpacr :
      (s : El1State)
      → bit 31 (s.monitor.regs cptr_el3) ≡ 0
      → Gets view_of
          (svc_get_reg cpu svc_here stack key_cpacr 1 s)
          (s.monitor.regs cpacr_el1)
          (view_of s)
  unfolding svc_get_reg read_at
  get_cpacr s e = (
    record s { elr = pc },
    rw (
        svc_at-get_cpacr msr tests3 svc3 other stack fuel pc iss far junk tests1 svc1 s s
          (s.monitor.regs cpacr_el1) (rw (open_cpacr s e))),
    refl,
  )

  closed_cpacr :
      (s : El1State)
      → bit 31 (s.monitor.regs cptr_el3) ≡ 1
      → kernel_reg_route cpacr_el1 (view_of s) ≡ some (ec_sysinsn, 3)
  closed_cpacr s e = rw e

  trapped :
      (s : El1State) (v : View)
      → view_of s ≡ v
      → v.block.excp.action ≡ excp_action_skip
      → Traps view_of
          (trap msr tests3 svc3 tests1 svc1 other stack fuel pc iss far junk ec_sysinsn 3 s)
          ec_sysinsn
          3
          v
  trapped s v at skip =
      trap-Traps msr tests3 svc3 other stack fuel pc iss far junk tests1 svc1 ec_sysinsn 3 s v at
        skip refl

  get_trapped :
      (s : El1State)
      → s.syscntl.excp.action ≡ excp_action_skip
      → bit 31 (s.monitor.regs cptr_el3) ≡ 1
      → Traps
          (λ (t : ℕ × El1State). view_of t.1)
          (svc_get_reg cpu svc_here stack key_cpacr 1 s)
          ec_sysinsn
          3
          (view_of s)
  unfolding svc_get_reg read_at
  get_trapped s skip e =
      let (t, i, f, st, ran, seen) = trapped s (view_of s) refl skip in
      (
        (junk, record t { elr = pc }),
        i,
        f,
        st,
        rw (
            svc_at-get_cpacr msr tests3 svc3 other stack fuel pc iss far junk tests1 svc1 s t junk
              (rw (closed_cpacr s e, ran))),
        seen,
      )

  set_trapped :
      (x : ℕ) (s : El1State)
      → s.syscntl.excp.action ≡ excp_action_skip
      → bit 31 (s.monitor.regs cptr_el3) ≡ 1
      → Traps view_of (svc_set_reg cpu svc_here stack key_cpacr 1 x s) ec_sysinsn 3 (view_of s)
  unfolding svc_set_reg write_at
  set_trapped x s skip e =
      let (t, i, f, st, ran, seen) = trapped s (view_of s) refl skip in
      (
        record t { elr = pc },
        i,
        f,
        st,
        rw (
            svc_at-set_cpacr msr tests3 svc3 other stack fuel pc iss far junk tests1 svc1 s t x
              (rw (closed_cpacr s e, ran))),
        seen,
      )

  -- The levels below serve the user's register requests.
  pub svc_at-Serves : Serves view_of cpu svc_here stack
  svc_at-Serves = record {
    get_cptr = λ s v at.
        subst (λ w. Gets view_of (svc_get_reg cpu svc_here stack key_cptr_el3 3 s) w.cptr w) at
          (get_el3 key_cptr_el3 cptr_el3 s refl);
    get_scr = λ s v at.
        subst (λ w. Gets view_of (svc_get_reg cpu svc_here stack key_scr 3 s) w.scr w) at
          (get_el3 key_scr scr_el3 s refl);
    get_sctlr = λ s v at.
        subst (λ w. Gets view_of (svc_get_reg cpu svc_here stack key_sctlr 1 s) w.sctlr w) at
          (get_sctlr s);
    get_cpacr = λ s v at e.
        subst (λ w. Gets view_of (svc_get_reg cpu svc_here stack key_cpacr 1 s) w.cpacr w) at
          (get_cpacr s (ap (λ (w : View). bit 31 w.cptr) at ∙ e));
    set_cptr = λ x s v at.
        subst
          (λ w.
            Ends view_of (svc_set_reg cpu svc_here stack key_cptr_el3 3 x s)
              (record w { cptr = x }))
          at (serves_cptr x s);
    set_scr = λ x s v at.
        subst
          (λ w. Ends view_of (svc_set_reg cpu svc_here stack key_scr 3 x s) (record w { scr = x }))
          at (serves_scr x s);
    set_sctlr = λ x s v at.
        subst
          (λ w.
            Ends view_of (svc_set_reg cpu svc_here stack key_sctlr 1 x s) (record w { sctlr = x }))
          at (serves_sctlr x s);
    set_cpacr = λ x s v at e.
        subst
          (λ w.
            Ends view_of (svc_set_reg cpu svc_here stack key_cpacr 1 x s) (record w { cpacr = x }))
          at (serves_cpacr x s (ap (λ (w : View). bit 31 w.cptr) at ∙ e));
    get_trapped = λ s v at skip e.
        subst
          (λ w.
            Traps (λ (t : ℕ × El1State). view_of t.1) (svc_get_reg cpu svc_here stack key_cpacr 1 s)
              ec_sysinsn 3 w)
          at
          (get_trapped s (ap (λ (w : View). w.block.excp.action) at ∙ skip)
            (ap (λ (w : View). bit 31 w.cptr) at ∙ e));
    set_trapped = λ x s v at skip e.
        subst (λ w. Traps view_of (svc_set_reg cpu svc_here stack key_cpacr 1 x s) ec_sysinsn 3 w)
          at
          (set_trapped x s (ap (λ (w : View). w.block.excp.action) at ∙ skip)
            (ap (λ (w : View). bit 31 w.cptr) at ∙ e));
  }

  -- An access from EL0 goes to the kernel's handler.
  pub cpu_at-Denied : Denied view_of cpu svc_here stack
  unfolding read_only read_at write_at
  cpu_at-Denied = record {
    read = λ r s v at skip.
        let (t, i, f, st, ran, seen) =
          trap-Traps msr tests3 svc3 other stack fuel pc iss far junk tests1 svc1 ec_unknown 1 s v
            at skip refl in
        (t, i, f, st, rw ran, seen);
    write = λ r x s v at skip.
        trap-Traps msr tests3 svc3 other stack fuel pc iss far junk tests1 svc1 ec_unknown 1 s v at
          skip refl;
  }
