-- ===== src/System/Interop.antt =====
-- One interop request through all levels: nonsecure EL1 (`el1_interop_test`), EL3, and the turn of the
-- secure world, which the monitor resumes in the SMC_OP_YIELD that it waits in.
use qemu_tztest.Common.{
  ℕ, ◌+◌, ◌<◌, ◌≡◌, ◌≢◌, refl, arith, ap, ◌∙◌, true, false, ◌&&◌, Option, some, List, ◌==◌,
  if◌then◌else◌, ◌>>=◌, ◌>>>◌, bit_xor,
}
use qemu_tztest.Interop.{Desc, smc_op_test, svc_op_test, svc_op_yield}
use qemu_tztest.Interop.Test
use qemu_tztest.Tztest.Run.{TestFn}
use qemu_tztest.El3.{
  Reg, Regs, El3State, test_step, smc_get_reg, smc_switch, smc_return, el3_handle_smc,
}
use qemu_tztest.El3.Smc.{test_step_lem}
use qemu_tztest.El3.World.{smc_vector, monitor_switch}
use qemu_tztest.El1.{El1State, Below, svc_yield, svc_switch, el1_handle_svc, el1_interop_test}
use qemu_tztest.El0.{loop_switch}
use qemu_tztest.Tztest.Check.{Shared, test_condition, count_verdict}
use qemu_tztest.Tztest.Driver.{interop_test, fresh_test}

-- The descriptor of an interop test from 1024 with `k` steps behind it and no failure.
pub record OnTrack (k v : ℕ) (d : Desc) : Type 0 where
  pub orig : Test.orig d ≡ 1024
  pub val : Test.val d ≡ v
  pub count : Test.count d ≡ k
  pub fail : Test.fail d ≡ 0

OnTrack-step :
    (k v : ℕ) (d : Desc)
    → (v == 1024 >>> k) ≡ true
    → k < 100
    → OnTrack k v d
    → OnTrack (k + 1) (v >>> 1) (test_step d)
OnTrack-step k v d right small t =
    let l = test_step_lem d in
    let ok : (Test.val d == Test.orig d >>> Test.count d) ≡ true =
      rw (t.val, t.orig, t.count) right in
    record {
      orig = l.0 ∙ t.orig;
      val = l.1 ∙ ap (λ x. x >>> 1) t.val;
      count = l.2 ∙ omega (arith, t.count);
      fail = l.3 ∙ rw ok t.fail;
    }

pub two-OnTrack : (stack : Desc) → OnTrack 2 256 (test_step (test_step (fresh_test stack)))
two-OnTrack stack =
    let d = fresh_test stack in
    let zero' : OnTrack 0 1024 d = record {
      orig = refl;
      val = refl;
      count = omega arith;
      fail = omega arith;
    } in
    let one = OnTrack-step 0 1024 d refl (omega arith) zero' in
    OnTrack-step 1 512 (test_step d) refl (omega arith) one

pub three-OnTrack :
    (stack : Desc) → OnTrack 3 128 (test_step (test_step (test_step (fresh_test stack))))
three-OnTrack stack =
    OnTrack-step 2 256 (test_step (test_step (fresh_test stack))) refl (omega arith)
      (two-OnTrack stack)

pub verdict :
    (d : Desc)
    → OnTrack 3 128 d
    → ((Test.fail d == 0) && (Test.val d == Test.orig d >>> Test.count d)) ≡ true
verdict d t = rw (t.val, t.orig, t.count, t.fail)

-- The control block of a world's EL1, as the check macros find it.
abbrev pub block : Shared El1State
block = record { control = λ s. s.syscntl; put = λ c s. record s { syscntl = c } }

module _ (msr : Reg → ℕ → Regs → Regs) (tests3 : List (Option (TestFn El3State)))
    (svc3 : ℕ → Desc → El3State → Option (Desc × El3State))
    (read : Reg → El1State → Option (ℕ × El1State)) (write : Reg → ℕ → El1State → Option El1State)
    (tests1 : List (Option (TestFn El1State)))
    (svc1 : ℕ → Desc → El1State → Option (Desc × El1State))
    (run0 : (fid el state arg : ℕ) → El1State → Option El1State)
    (svc0 : ℕ → Desc → El1State → Option (ℕ × Desc × El1State)) (stack : Desc) (fuel elr : ℕ) where
  abbrev vector : ℕ → Desc → El3State → Option (ℕ × Desc × El3State)
  vector op buf e = smc_vector msr tests3 svc3 stack fuel op buf elr e

  -- An SMC of EL1 as EL3 serves it: the result, the buffer that the resumed world finds, and EL3 then.
  pub smc_at : ℕ → El1State → Option (ℕ × El1State)
  smc_at op s = do
    (ret, buf, e) ← vector op s.smc_interop_buf s.monitor
    some (ret, record s { smc_interop_buf = buf; monitor = e })

  abbrev below_at : Below
  below_at = record { read = read; write = write; smc = smc_at }

  -- The turn of the secure world, resumed with `op` and the shared buffer: secure EL1 copies the buffer
  -- to the descriptor of the secure EL0 program, which handles the operation and makes its next SVC;
  -- secure EL1 serves that. The result is that of the SMC it ends in, and secure EL1 after it.
  pub secure_turn : ℕ → El1State → Option (ℕ × El1State)
  secure_turn op s = do
    (op', desc', s') ← loop_switch svc0 stack run0 op s.smc_interop_buf s
    (ret, _, s'') ← el1_handle_svc below_at tests1 svc1 stack fuel op' desc' elr s'
    some (ret, s'')

  -- An SMC of nonsecure EL1, with the secure world's turn if EL3 switches to it. `sec` is the state of
  -- secure EL1; the buffer and EL3 are shared.
  pub smc_through : El1State → ℕ → El1State → Option (ℕ × El1State)
  smc_through sec op s = do
    (ret, t) ← smc_at op s
    if ret == 0 then some (0, t) else (do
      (ret', sec') ←
          secure_turn ret (record sec { smc_interop_buf = t.smc_interop_buf; monitor = t.monitor })
      some (ret', record t { smc_interop_buf = sec'.smc_interop_buf; monitor = sec'.monitor }))

  abbrev pub through : El1State → Below
  through sec = record { read = read; write = write; smc = smc_through sec }

  -- The secure world's turn for an interop test hands the buffer back as it came: the step that its
  -- EL0 program makes is made on its own copy.
  secure_turn-test :
      (s : El1State)
      → (s' : El1State) × (secure_turn svc_op_test s ≡ some (svc_op_yield, s'))
        × (s'.smc_interop_buf ≡ s.smc_interop_buf)
  unfolding secure_turn smc_at loop_switch el1_handle_svc svc_switch svc_yield el3_handle_smc
      smc_switch smc_return
  secure_turn-test s = (
    record s {
      monitor =
          monitor_switch msr tests3 svc3 stack fuel
            (record s.monitor { secure_state = bit_xor s.monitor.secure_state 1; elr = elr });
      elr = elr;
    },
    refl,
    refl,
  )

  smc_get_reg-skip : (d : Desc) (e : El3State) → Test.count d ≢ 3 → smc_get_reg d e ≡ d
  unfolding smc_get_reg
  smc_get_reg-skip d e ne = let off : (Test.count d == 3) ≡ false = ground arith in rw off

  -- The state of EL3 after an interop test, with the worlds switched.
  abbrev after_test : El3State → El3State
  after_test e =
      monitor_switch msr tests3 svc3 stack fuel
        (record e { secure_state = bit_xor e.secure_state 1; elr = elr })

  vector-test :
      (d : Desc) (e : El3State)
      → vector smc_op_test d e ≡ some (svc_op_test, smc_get_reg (test_step d) e, after_test e)
  unfolding el3_handle_smc smc_switch smc_return
  vector-test d e = refl

  -- An interop test that goes through all levels comes back with exactly three steps made, those of
  -- nonsecure EL1, EL3 and nonsecure EL1 again, whatever the states of EL3 and of the secure world: the
  -- secure EL0 program's step, and a failure that it counts, are lost. The count must not be 1 at the
  -- start, since EL3 would then read a register over the value.
  pub el1_interop_test-three_steps :
      (sec : El1State) (desc : Desc) (s : El1State)
      → Test.count desc ≢ 1
      → (s' : El1State) × (el1_interop_test (through sec) desc s
          ≡ some (0, test_step (test_step (test_step desc)), s'))
        × (s'.syscntl ≡ s.syscntl)
  unfolding el1_interop_test smc_through smc_at
  el1_interop_test-three_steps sec desc s ne =
      let two = test_step (test_step desc) in
      let buf : smc_get_reg two s.monitor ≡ two =
        smc_get_reg-skip two s.monitor
          (omega (arith, (test_step_lem desc).2, (test_step_lem (test_step desc)).2)) in
      let turn =
        secure_turn-test (record sec { smc_interop_buf = two; monitor = after_test s.monitor }) in
      (
        record s { smc_interop_buf = test_step two; monitor = turn.0.monitor },
        rw (vector-test (test_step desc) s.monitor, buf, turn.1, turn.2),
        refl,
      )

  -- The nonsecure user program's view: an SVC as nonsecure EL1 serves it, with the control block shared.
  abbrev pub ns_svc : El1State → ℕ → Desc → El1State → Option (ℕ × Desc × El1State)
  ns_svc sec op d s = el1_handle_svc (through sec) tests1 svc1 stack fuel op d elr s

  -- `interop_test` of tztest.c, run through all levels from any state, counts one test and no failure.
  pub interop_test-passes :
      (sec : El1State) (s : El1State)
      → (s' : El1State) × (interop_test block (ns_svc sec) stack s ≡ some s')
        × (s'.syscntl ≡ count_verdict true s.syscntl)
  unfolding interop_test test_condition el1_handle_svc svc_switch
  interop_test-passes sec s =
      let d = fresh_test stack in
      let r = el1_interop_test-three_steps sec d s (omega arith) in
      let after = record r.0 { elr = elr } in
      let passed = verdict (test_step (test_step (test_step d))) (three-OnTrack stack) in
      (
        record after { syscntl = count_verdict true r.0.syscntl },
        rw r.1 (ap (λ b. some (record after { syscntl = count_verdict b r.0.syscntl })) passed),
        ap (count_verdict true) r.2,
      )
