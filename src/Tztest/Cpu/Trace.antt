-- ===== src/Tztest/Cpu/Trace.antt =====
-- What a test function needs of its surroundings, and rules for the macros: each step is described by
-- what it does to the registers that the tests change, the worlds and the control block.
use qemu_tztest.Common.{
  ℕ, zero, suc, ◌≡◌, ap, ◌∙◌, Bool, true, false, ◌&&◌, not, Option, none, some, ◌==◌, if◌then◌else◌,
  u32, ◌>>=◌,
}
use qemu_tztest.Bits.Fields.{bit}
use qemu_tztest.Interop.{SysControl, ec_unknown, ec_wfi_wfe, ec_simd, excp_action_skip}
use qemu_tztest.El3.{log_exception}
use qemu_tztest.El1.{Parked}
use qemu_tztest.Tztest.Check.{
  Shared, modify, enable_excp_log, excp_reset, count_verdict, saw_exception, test_condition,
  test_exception, test_no_exception,
}
use qemu_tztest.Tztest.Check.Laws.{checked, settle_logged, settle_quiet, saw_logged}
use qemu_tztest.Tztest.Cpu.{Insn, smc, wfe, wfi, fcmp}

pub record View : Type 0 where
  pub scr : ℕ
  pub cptr : ℕ
  pub cpacr : ℕ
  pub sctlr : ℕ
  pub block : SysControl
  -- Which world runs, and the other one.
  pub worlds : ℕ × Parked

abbrev pub with_block : SysControl → View → View
with_block c v = record v { block = c }

abbrev pub with_fp : (cptr cpacr : ℕ) → View → View
with_fp c p v = record v { cptr = c; cpacr = p }

-- After TEST_ENABLE_EXCP_LOG, and after a check that passed.
abbrev pub armed : View → View
armed v = record v {
  block = record v.block { excp = record v.block.excp { action = excp_action_skip; log = true } };
}

abbrev pub passed : View → View
passed v = record v { block = checked true v.block }

-- The view after `n` checks that passed.
unfoldable pub passes : ℕ → View → View
passes zero v = v
passes (suc n) v = passes n (passed v)

-- The exception that an instruction takes: its class and the level that it is taken to.
abbrev pub Route : Type 0
Route = Option (ℕ × ℕ)

-- Bit numbers: SCTLR.nTWI 16, SCTLR.nTWE 18, SCR.TWI 12, SCR.TWE 13, CPACR.FPEN 20 and 21,
-- CPTR_EL3.TFP 10, CPTR_EL3.TCPAC 31.
abbrev pub wait_route : (ntwx twx : ℕ) → Route
wait_route ntwx twx =
    if ntwx == 0 then some (ec_wfi_wfe, 1) else if twx == 1 then some (ec_wfi_wfe, 3) else none

abbrev pub fp_route : (traps : Bool) → View → Route
fp_route traps v =
    if traps then some (ec_simd, 1) else if bit 10 v.cptr == 1 then some (ec_simd, 3) else none

abbrev pub user_route : Insn → View → Route
user_route smc v = some (ec_unknown, 1)
user_route wfe v = wait_route (bit 18 v.sctlr) (bit 13 v.scr)
user_route wfi v = wait_route (bit 16 v.sctlr) (bit 12 v.scr)
user_route fcmp v = fp_route (not ((bit 20 v.cpacr == 1) && (bit 21 v.cpacr == 1))) v

-- Whether the processor implements SCR.SMD, which makes SMC undefined. The machine is one that does not, whatever is
-- stored in the bit: el1_check_smc expects so, and on another its SMC and the one that restores SCR are undefined.
abbrev pub implements_smd : Bool
implements_smd = false

abbrev pub smc_disabled : (scr : ℕ) → Bool
smc_disabled scr = implements_smd && (bit 7 scr == 1)

-- At EL1 the controls of SCTLR_EL1 do not apply, and CPACR traps where bit 20 is clear.
abbrev pub kernel_route : Insn → View → Route
kernel_route smc v = if smc_disabled v.scr then some (ec_unknown, 1) else none
kernel_route wfe v = wait_route 1 (bit 13 v.scr)
kernel_route wfi v = wait_route 1 (bit 12 v.scr)
kernel_route fcmp v = fp_route (not (bit 20 v.cpacr == 1)) v

module _ {T : Type 0} (view : T → View) where
  -- A statement ends in a state of view `v`, an expression with value `x` besides.
  abbrev pub Ends : Option T → View → Type 0
  Ends m v = (t : T) × (m ≡ some t) × (view t ≡ v)

  abbrev pub Gets : Option (ℕ × T) → ℕ → View → Type 0
  Gets m x v = (t : T) × (m ≡ some (x, t)) × (view t ≡ v)

  -- A statement takes one exception of class `ec` to level `el`, which is logged and stepped over.
  abbrev pub Traps : Option T → (ec el : ℕ) → View → Type 0
  Traps m ec el v =
      (t : T) × (iss : ℕ) × (far : ℕ) × (state : ℕ) × (m ≡ some t)
      × (view t ≡ with_block (log_exception ec iss far el state v.block) v)

  pub next :
      {v w : View} (m : Option T) (f : T → Option T)
      → Ends m v
      → ((t : T) → view t ≡ v → Ends (f t) w)
      → Ends (m >>= f) w
  next m f (t, e, at) rest = rw e (rest t at)

  pub get :
      {v w : View} {x : ℕ} (m : Option (ℕ × T)) (f : ℕ × T → Option T)
      → Gets m x v
      → ((t : T) → view t ≡ v → Ends (f (x, t)) w)
      → Ends (m >>= f) w
  get m f (t, e, at) rest = rw e (rest t at)

  -- The control block is the one that the view shows, and can be replaced.
  pub record Shows (sh : Shared T) : Type 0 where
    pub control : (t : T) → sh.control t ≡ (view t).block
    pub put : (c : SysControl) (t : T) → view (sh.put c t) ≡ with_block c (view t)

  module _ (sh : Shared T) (shows : Shows sh) where
    modify_lem :
        (f : SysControl → SysControl) (t : T)
        → view (modify sh f t) ≡ with_block (f (view t).block) (view t)
    modify_lem f t = shows.put _ t ∙ ap (λ c. with_block (f c) (view t)) (shows.control t)

    pub modify-armed :
        (t : T) (v : View) → view t ≡ v → view (modify sh enable_excp_log t) ≡ armed v
    unfolding enable_excp_log
    modify-armed t v at = modify_lem enable_excp_log t ∙ ap armed at

    -- The end of every check: the verdict is counted and the log cleared.
    pub settle :
        (cond : SysControl → Bool) (t : T) (w : View)
        → view t ≡ w
        → view (modify sh excp_reset (test_condition sh cond t))
          ≡ with_block (excp_reset (count_verdict (cond w.block) w.block)) w
    unfolding test_condition
    settle cond t w at =
        modify_lem excp_reset _
        ∙ ap (λ v. with_block (excp_reset v.block) v)
            (modify_lem (count_verdict (cond (sh.control t))) t
              ∙ ap (λ c. with_block (count_verdict (cond c) (view t).block) (view t))
                  (shows.control t)
              ∙ ap (λ (v : View). with_block (count_verdict (cond v.block) v.block) v) at)

    -- A check for the exception that was logged passes.
    pub settle-trapped :
        (ec iss far el state : ℕ) (t : T) (w : View)
        → ((el == el) && (u32 ec == ec)) ≡ true
        → view t ≡ with_block (log_exception ec iss far el state (armed w).block) w
        → view (modify sh excp_reset (test_condition sh (saw_exception ec el) t)) ≡ passed w
    unfolding enable_excp_log
    settle-trapped ec iss far el state t w small at =
        settle (saw_exception ec el) t _ at
        ∙ ap
            (λ b.
              with_block
                (excp_reset (count_verdict b (log_exception ec iss far el state (armed w).block)))
                w)
            (saw_logged ec iss far el state ec el w.block ∙ small)
        ∙ ap (λ c. with_block c w) (settle_logged true ec iss far el state w.block)

    pub expect :
        (ec el : ℕ) (fn : T → Option T) (t : T) (v : View)
        → view t ≡ v
        → ((el == el) && (u32 ec == ec)) ≡ true
        → ((u : T) → view u ≡ armed v → Traps (fn u) ec el (armed v))
        → Ends (test_exception sh fn ec el t) (passed v)
    unfolding test_exception
    expect ec el fn t v at small traps =
        let (u, iss, far, state, e, seen) =
          traps (modify sh enable_excp_log t) (modify-armed t v at) in
        (
          modify sh excp_reset (test_condition sh (saw_exception ec el) u),
          rw e,
          settle-trapped ec iss far el state u v small seen,
        )

    -- A statement that ends with no exception passes TEST_NO_EXCEPTION, if none is on record before.
    pub expect_none :
        (fn : T → Option T) (t : T) (v : View)
        → view t ≡ v
        → v.block.excp.taken ≡ false
        → ((u : T) → view u ≡ armed v → Ends (fn u) (armed v))
        → Ends (test_no_exception sh fn t) (passed v)
    unfolding test_no_exception enable_excp_log
    expect_none fn t v at quiet ends =
        let (u, e, seen) = ends (modify sh enable_excp_log t) (modify-armed t v at) in
        (
          modify sh excp_reset (test_condition sh (λ c. not c.excp.taken) u),
          rw e,
          settle (λ c. not c.excp.taken) u _ seen
              ∙ ap (λ b. with_block (excp_reset (count_verdict (not b) (armed v).block)) v) quiet
              ∙ ap (λ c. with_block c v) (settle_quiet true v.block),
        )
