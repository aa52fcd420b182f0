-- ===== src/System/Worlds/Interop.antt =====
-- The interop test of tztest.c, through both worlds.
use qemu_tztest.Common.{ℕ, ◌≡◌, ◌≢◌, refl, arith, ap, true, false, Option, some, List, ◌==◌}
use qemu_tztest.Interop.{Desc, smc_op_test, svc_op_test, svc_op_yield, secure, nonsecure}
use qemu_tztest.Interop.Test
use qemu_tztest.Tztest.Run.{TestFn}
use qemu_tztest.Tztest.Check.{count_verdict, test_condition}
use qemu_tztest.Tztest.Driver.{interop_test, fresh_test}
use qemu_tztest.El3.{
  Reg, Regs, El3State, test_step, smc_get_reg, smc_switch, smc_return, el3_handle_smc,
}
use qemu_tztest.El1.{El1State, el1_handle_svc, svc_switch, el1_interop_test}
use qemu_tztest.El0.{loop_switch}
use qemu_tztest.System.Interop.{two-OnTrack, three-OnTrack, verdict}
use qemu_tztest.System.Machine.{view_of, enter, block, call_monitor}
use qemu_tztest.System.Machine.Registers.{Stores}
use qemu_tztest.System.Worlds.{svc_of, end_turn, secure_turn, change_places}
use qemu_tztest.System.Worlds.Ready.{IsReady, Crossed-IsReady, turned-Crossed}
use qemu_tztest.System.Worlds.Remote.{switched, monitor_here, svc-yield, yielded, turn_here}

smc_get_reg-skip : (d : Desc) (e : El3State) → Test.count d ≢ 3 → smc_get_reg d e ≡ d
unfolding smc_get_reg
smc_get_reg-skip d e ne = let off : (Test.count d == 3) ≡ false = ground arith in rw off

module _ (msr : Reg → ℕ → Regs → Regs) (tests3 : List (Option (TestFn El3State)))
    (svc3 : ℕ → Desc → El3State → Option (Desc × El3State))
    (svc1 : ℕ → Desc → El1State → Option (Desc × El1State)) (stack : Desc)
    (fuel pc iss far junk : ℕ) where
  abbrev crossed : El1State → El1State
  crossed = switched msr tests3 svc3 svc1 stack fuel pc iss far junk

  abbrev turn : ℕ → El1State → Option (ℕ × El1State)
  turn = turn_here msr tests3 svc3 svc1 stack fuel pc iss far junk

  abbrev back : El1State → El1State
  back = yielded msr tests3 svc3 svc1 stack fuel pc iss far junk

  monitor-test :
      (s : El1State)
      → Test.count (test_step s.smc_interop_buf) ≢ 3
      → monitor_here msr tests3 svc3 svc1 stack fuel pc iss far junk turn smc_op_test s
        ≡ turn svc_op_test (crossed (record s { smc_interop_buf = test_step s.smc_interop_buf }))
  unfolding call_monitor el3_handle_smc smc_switch smc_return
  monitor-test s ne = rw (smc_get_reg-skip (test_step s.smc_interop_buf) (enter s) ne)

  -- The secure program steps its own copy of the test and yields.
  turn-test : (s : El1State) → turn svc_op_test s ≡ some (svc_op_yield, back (change_places s))
  unfolding secure_turn loop_switch
  turn-test s = rw (
      svc-yield msr tests3 svc3 svc1 stack fuel pc iss far junk end_turn
        (test_step s.smc_interop_buf) (change_places s) (crossed (change_places s)) svc_op_yield
        refl)

  abbrev tested : El1State → El1State
  tested s = back (
      change_places
        (crossed (record s { smc_interop_buf = test_step (test_step (fresh_test stack)) })))

  svc-test :
      (s : El1State)
      → svc_of msr tests3 svc3 svc1 stack fuel pc iss far junk turn svc_op_test (fresh_test stack) s
        ≡ some (
          0,
          test_step (test_step (test_step (fresh_test stack))),
          record (tested s) {
            smc_interop_buf = test_step (test_step (test_step (fresh_test stack)));
            elr = pc;
          },
        )
  unfolding el1_handle_svc svc_switch el1_interop_test
  svc-test s =
      let d = test_step (fresh_test stack) in
      let ne : Test.count (test_step d) ≢ 3 = omega (arith, (two-OnTrack stack).count) in
      rw (
        monitor-test (record s { smc_interop_buf = d }) ne,
        turn-test (crossed (record s { smc_interop_buf = test_step d })),
      )

  -- The interop test counts one test that passed, and leaves the machine ready.
  pub interop_test-IsReady :
      (stores : Stores msr) (s : El1State)
      → IsReady nonsecure secure (view_of s)
      → (t : El1State) × (interop_test block
            (svc_of msr tests3 svc3 svc1 stack fuel pc iss far junk turn)
            stack
            s
          ≡ some t)
        × IsReady nonsecure secure (view_of t)
        × (t.syscntl ≡ count_verdict true s.syscntl)
  unfolding interop_test test_condition count_verdict
  interop_test-IsReady stores s ready =
      let d = test_step (test_step (test_step (fresh_test stack))) in
      let s1 = record s { smc_interop_buf = test_step (test_step (fresh_test stack)) } in
      let a = change_places (crossed s1) in
      let there = turned-Crossed msr tests3 svc3 stack fuel pc stores s1 s.elr in
      let again = turned-Crossed msr tests3 svc3 stack fuel pc stores a pc in
      let r =
        Crossed-IsReady (view_of a) (view_of (back a)) again
          (Crossed-IsReady (view_of s) (view_of a) there ready) in
      let u = record (tested s) { smc_interop_buf = d; elr = pc } in
      (
        record u { syscntl = count_verdict true s.syscntl },
        rw (svc-test s) (
            ap (λ b. some (record u { syscntl = count_verdict b s.syscntl }))
              (verdict d (three-OnTrack stack))),
        record {
          test = record { fpen = r.test.fpen; access = r.test.access; quiet = r.test.quiet };
          parked_fpen = r.parked_fpen;
          now = r.now;
          away = r.away;
        },
        refl,
      )
