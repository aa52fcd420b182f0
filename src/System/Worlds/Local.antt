-- ===== src/System/Worlds/Local.antt =====
-- A test that names the running world, at its user program or its kernel.
use qemu_tztest.Common.{
  ℕ, zero, suc, ◌^◌, ◌<◌, ◌≡◌, refl, arith, ap, ◌∙◌, true, false, ◌&&◌, Option, some, List, [],
  ◌==◌, ==_iff, u32,
}
use qemu_tztest.Bits.Fields.{bit}
use qemu_tztest.Interop.{Desc, low, svc_op_dispatch}
use qemu_tztest.Interop.Disp
use qemu_tztest.Tztest.Run.{TestFn, request, run_test}
use qemu_tztest.Tztest.Cpu.Masks.{Fpen}
use qemu_tztest.Tztest.Cpu.Trace.{View, passes, Ends}
use qemu_tztest.El3.{Reg, Regs, El3State}
use qemu_tztest.El1.{El1State, el1_handle_svc, svc_switch, svc_dispatch}
use qemu_tztest.System.Machine.{view_of}
use qemu_tztest.System.Machine.Registers.{Stores}
use qemu_tztest.System.Machine.Services.{low-set_low}
use qemu_tztest.System.Machine.UserRuns.{user_checks, user_run-passes}
use qemu_tztest.System.Machine.KernelRuns.{kernel_checks, kernel_run-passes}
use qemu_tztest.System.Worlds.{svc_of, run_of, kernel_tests}

-- The checks that a test makes at EL0 or EL1.
abbrev pub checks_at : (el fid : ℕ) → ℕ
checks_at zero fid = user_checks fid
checks_at (suc el) fid = kernel_checks fid

-- The test functions may touch floating point, and no exception is on record.
pub record IsTestable (v : View) : Type 0 where
  pub fpen : Fpen 1 1 v.cpacr
  pub access : bit 31 v.cptr ≡ 0
  pub quiet : v.block.excp.taken ≡ false

module _ (fid el state arg : ℕ) (d : Desc) (narrow : fid < 2 ^ 32) where
  pub request-fid : Disp.fid (request fid el state arg d) ≡ fid
  unfolding request
  request-fid = low-set_low d.w0 (u32 fid) ∙ omega arith

module _ (msr : Reg → ℕ → Regs → Regs) (tests3 : List (Option (TestFn El3State)))
    (svc3 : ℕ → Desc → El3State → Option (Desc × El3State))
    (svc1 : ℕ → Desc → El1State → Option (Desc × El1State)) (stack : Desc)
    (fuel pc iss far junk : ℕ) (stores : Stores msr)
    (other : ℕ → El1State → Option (ℕ × El1State)) where
  abbrev svc_here : ℕ → Desc → El1State → Option (ℕ × Desc × El1State)
  svc_here = svc_of msr tests3 svc3 svc1 stack fuel pc iss far junk other

  abbrev run_here : (world fid el state arg : ℕ) → El1State → Option El1State
  run_here = run_of msr tests3 svc3 svc1 stack fuel pc iss far junk other

  -- The kernel's answer to a dispatch to itself.
  dispatched :
      (d : Desc) (s t : El1State)
      → Disp.el d ≡ 1
      → Disp.state d ≡ s.secure_state
      → run_test 1
          (λ (u : El1State). u.secure_state)
          (kernel_tests msr tests3 svc3 svc1 stack fuel pc iss far junk other)
          svc1
          stack
          (Disp.fid d)
          1
          s.secure_state
          (Disp.arg d)
          s
        ≡ some t
      → svc_here svc_op_dispatch d s ≡ some (0, d, record t { elr = pc })
  unfolding el1_handle_svc svc_switch svc_dispatch
  dispatched d s t at world ran =
      let same : (s.secure_state == s.secure_state) ≡ true =
        (==_iff s.secure_state s.secure_state).1 refl in
      rw (at, world, same, ran)

  -- A test that is not the user program's own is handed to its kernel.
  pub run_of-handed :
      (world fid el state arg ret : ℕ) (d : Desc) (s t : El1State)
      → ((u32 el == 0) && (u32 state == world)) ≡ false
      → svc_here svc_op_dispatch (request fid el state arg stack) s ≡ some (ret, d, t)
      → run_here world fid el state arg s ≡ some t
  unfolding run_test
  run_of-handed world fid el state arg ret d s t far' e = rw (far', e)

  -- A test that names EL0 or EL1 of the running world counts its checks as passes and no failure, and leaves
  -- the registers as it found them and the other world alone.
  pub run_of-passes :
      (world fid el arg : ℕ) (s : El1State) (v : View)
      → fid < 6
      → el < 2
      → world < 2
      → view_of s ≡ v
      → v.worlds.0 ≡ world
      → IsTestable v
      → Ends view_of (run_here world fid el world arg s) (passes (checks_at el fid) v)
  run_of-passes world fid zero arg s v small low narrow at here ok =
      user_run-passes msr tests3 svc3 other stack fuel pc iss far junk
        (kernel_tests msr tests3 svc3 svc1 stack fuel pc iss far junk other) svc1 stores world fid
        arg s v small (omega arith) at ok.fpen ok.access ok.quiet
  run_of-passes world fid (suc zero) arg s v small low narrow at here ok =
      let d = request fid 1 world arg stack in
      let now : s.secure_state ≡ world = ap (λ (w : View). w.worlds.0) at ∙ here in
      let k =
        kernel_run-passes msr tests3 svc3 other stack fuel pc iss far junk [] svc1 stores fid
          (Disp.arg d) s v small (omega (arith, now)) at ok.fpen ok.access ok.quiet in
      let mine : Disp.state d ≡ s.secure_state = unfold request in omega (arith, now) in
      (
        record k.0 { elr = pc },
        run_of-handed world fid 1 world arg 0 d s (record k.0 { elr = pc }) refl
            (dispatched d s k.0 (unfold request in refl) mine
              (rw (request-fid fid 1 world arg stack (omega arith)) k.1)),
        k.2,
      )
  run_of-passes world fid (suc (suc el)) arg s v small low narrow at here ok = absurd (omega arith)
