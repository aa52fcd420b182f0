-- ===== src/System/Worlds/Remote.antt =====
-- A test that names the secure world, through the kernel, the monitor and the secure world's turn.
use mathlib.Core.Path.{subst}
use qemu_tztest.Common.{
  ℕ, zero, suc, ◌<◌, ◌≡◌, refl, arith, ap, ◌∙◌, sym, false, ◌&&◌, Option, some, List, ◌==◌, u32,
}
use qemu_tztest.Interop.{
  Desc, low, smc_op_dispatch, smc_op_yield, svc_op_dispatch, svc_op_yield, secure, nonsecure,
}
use qemu_tztest.Interop.Disp
use qemu_tztest.Tztest.Run.{TestFn, request}
use qemu_tztest.Tztest.Cpu.Trace.{View, passes}
use qemu_tztest.El3.{Reg, Regs, El3State, el3_handle_smc, smc_switch, smc_dispatch, smc_return}
use qemu_tztest.El1.{El1State, el1_handle_svc, svc_switch, svc_dispatch, svc_yield, exchange, send}
use qemu_tztest.El0.{loop_switch}
use qemu_tztest.System.Machine.{view_of, call_monitor}
use qemu_tztest.System.Machine.Registers.{Stores}
use qemu_tztest.System.Worlds.{svc_of, run_of, kernel_tests, end_turn, secure_turn, change_places}
use qemu_tztest.System.Worlds.Local.{checks_at, request-fid, run_of-handed, run_of-passes}
use qemu_tztest.System.Worlds.Ready.{
  IsReady, counted, passes-counted, passes-IsReady, Crossed-IsReady, turned, turned-Crossed,
}

module _ (msr : Reg → ℕ → Regs → Regs) (tests3 : List (Option (TestFn El3State)))
    (svc3 : ℕ → Desc → El3State → Option (Desc × El3State))
    (svc1 : ℕ → Desc → El1State → Option (Desc × El1State)) (stack : Desc)
    (fuel pc iss far junk : ℕ) where
  abbrev pub switched : El1State → El1State
  switched = turned msr tests3 svc3 stack fuel pc

  module _ (other : ℕ → El1State → Option (ℕ × El1State)) where
    abbrev pub monitor_here : ℕ → El1State → Option (ℕ × El1State)
    monitor_here =
        call_monitor msr tests3 svc3
          (kernel_tests msr tests3 svc3 svc1 stack fuel pc iss far junk other) svc1 other stack fuel
          pc iss far junk

    abbrev svc_here : ℕ → Desc → El1State → Option (ℕ × Desc × El1State)
    svc_here = svc_of msr tests3 svc3 svc1 stack fuel pc iss far junk other

    monitor-dispatch :
        (s : El1State)
        → (Disp.el s.smc_interop_buf == 3) ≡ false
        → monitor_here smc_op_dispatch s ≡ other svc_op_dispatch (switched s)
    unfolding call_monitor el3_handle_smc smc_switch smc_dispatch smc_return
    monitor-dispatch s lower = rw lower

    monitor-yield : (s : El1State) → monitor_here smc_op_yield s ≡ other svc_op_yield (switched s)
    unfolding call_monitor el3_handle_smc smc_switch smc_return
    monitor-yield s = refl

    -- A dispatch that the kernel hands on.
    svc-dispatch :
        (d : Desc) (s t : El1State) (ret : ℕ)
        → ((Disp.el d == 1) && (Disp.state d == s.secure_state)) ≡ false
        → (Disp.el d == 3) ≡ false
        → other svc_op_dispatch (switched (record s { smc_interop_buf = d })) ≡ some (ret, t)
        → svc_here svc_op_dispatch d s ≡ some (0, t.smc_interop_buf, record t { elr = pc })
    unfolding el1_handle_svc svc_switch svc_dispatch exchange send
    svc-dispatch d s t ret away lower turn =
        rw (away, monitor-dispatch (record s { smc_interop_buf = d }) lower, turn)

    pub svc-yield :
        (d : Desc) (s t : El1State) (ret : ℕ)
        → other svc_op_yield (switched s) ≡ some (ret, t)
        → svc_here svc_op_yield d s ≡ some (u32 ret, t.smc_interop_buf, record t { elr = pc })
    unfolding el1_handle_svc svc_switch svc_yield
    svc-yield d s t ret turn = rw (monitor-yield s, turn)

  abbrev run_secure : (fid el state arg : ℕ) → El1State → Option El1State
  run_secure = run_of msr tests3 svc3 svc1 stack fuel pc iss far junk end_turn secure

  abbrev pub turn_here : ℕ → El1State → Option (ℕ × El1State)
  turn_here = secure_turn msr tests3 svc3 svc1 stack fuel pc iss far junk

  -- The machine when the secure world has run a test and yields again.
  abbrev pub yielded : El1State → El1State
  yielded t = change_places (record (switched t) { elr = pc })

  turn-dispatch :
      (s t : El1State)
      → run_secure
          (Disp.fid s.smc_interop_buf)
          (Disp.el s.smc_interop_buf)
          (Disp.state s.smc_interop_buf)
          (Disp.arg s.smc_interop_buf)
          (change_places s)
        ≡ some t
      → turn_here svc_op_dispatch s ≡ some (svc_op_yield, yielded t)
  unfolding secure_turn loop_switch
  turn-dispatch s t ran =
      rw (ran, svc-yield end_turn s.smc_interop_buf t (switched t) svc_op_yield refl)

  module _ (stores : Stores msr) where
    -- The machine is ready again, and `n` checks have passed.
    pub record Advances (n : ℕ) (s : El1State) (result : Option El1State) : Type 0 where
      pub after : El1State
      pub returns : result ≡ some after
      pub ready : IsReady nonsecure secure (view_of after)
      pub block : after.syscntl ≡ counted n s.syscntl

    ends-IsReady :
        {here there : ℕ} (n : ℕ) (t : El1State) (v : View)
        → view_of t ≡ passes n v
        → IsReady here there v
        → IsReady here there (view_of t)
    ends-IsReady {here} {there} n t v e r =
        subst (λ w. IsReady here there w) (sym e) (passes-IsReady n v r)

    ends-counted :
        (n : ℕ) (t : El1State) (v : View) → view_of t ≡ passes n v → t.syscntl ≡ counted n v.block
    ends-counted n t v e = ap (λ (w : View). w.block) e ∙ passes-counted n v

    secure_test :
        (fid el arg : ℕ) (s : El1State)
        → fid < 6
        → el < 2
        → IsReady nonsecure secure (view_of s)
        → Advances (checks_at el fid) s (
            run_of msr tests3 svc3 svc1 stack fuel pc iss far junk turn_here nonsecure fid el secure
              arg s)
    secure_test fid el arg s small low ready =
        let d = request fid el secure arg stack in
        let a = switched (record s { smc_interop_buf = d }) in
        let t = change_places a in
        let c =
          turned-Crossed msr tests3 svc3 stack fuel pc stores (record s { smc_interop_buf = d })
            s.elr in
        let ok = Crossed-IsReady (view_of s) (view_of t) c ready in
        let n = checks_at el fid in
        let r =
          run_of-passes msr tests3 svc3 svc1 stack fuel pc iss far junk stores end_turn secure fid
            el (Disp.arg d) t (view_of t) small low (omega arith) refl ok.now ok.test in
        let back = turned-Crossed msr tests3 svc3 stack fuel pc stores r.0 pc in
        let at : Disp.el d ≡ el = unfold request in omega arith in
        let fids = request-fid fid el secure arg stack (omega arith) in
        let states : Disp.state d ≡ secure = unfold request in refl in
        let run = λ (x y z : ℕ). run_secure x y z (Disp.arg d) t in
        let turn = turn-dispatch a r.0 (
          ap (λ x. run x (Disp.el d) (Disp.state d)) fids
          ∙ ap (λ y. run fid y (Disp.state d)) at
          ∙ ap (λ z. run fid el z) states
          ∙ r.1) in
        record {
          after = record (yielded r.0) { elr = pc };
          returns =
              run_of-handed msr tests3 svc3 svc1 stack fuel pc iss far junk stores turn_here
                nonsecure fid el secure arg 0 (yielded r.0).smc_interop_buf s
                (record (yielded r.0) { elr = pc }) (ground arith)
                (svc-dispatch turn_here d s (yielded r.0) svc_op_yield
                  (ground (arith, states, ready.now)) (ground (arith, at)) turn);
          ready =
              Crossed-IsReady (view_of r.0) (view_of (yielded r.0)) back
                (ends-IsReady n r.0 (view_of t) r.2 ok);
          block = back.block ∙ ends-counted n r.0 (view_of t) r.2;
        }

    pub run-Advances :
        (fid el state arg : ℕ) (s : El1State)
        → fid < 6
        → el < 2
        → state < 2
        → IsReady nonsecure secure (view_of s)
        → Advances (checks_at el fid) s (
            run_of msr tests3 svc3 svc1 stack fuel pc iss far junk turn_here nonsecure fid el state
              arg s)
    run-Advances fid el zero arg s small low two ready = secure_test fid el arg s small low ready
    run-Advances fid el (suc zero) arg s small low two ready =
        let n = checks_at el fid in
        let r =
          run_of-passes msr tests3 svc3 svc1 stack fuel pc iss far junk stores turn_here nonsecure
            fid el arg s (view_of s) small low (omega arith) refl ready.now ready.test in
        record {
          after = r.0;
          returns = r.1;
          ready = ends-IsReady n r.0 (view_of s) r.2 ready;
          block = ends-counted n r.0 (view_of s) r.2;
        }
    run-Advances fid el (suc (suc state)) arg s small low two ready = absurd (omega arith)
