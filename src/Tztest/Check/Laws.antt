-- ===== src/Tztest/Check/Laws.antt =====
-- What the macros conclude from the exceptions that the handlers log.
use qemu_tztest.Common.{
  ℕ, ◌+◌, ◌≡◌, refl, ap, ◌∙◌, Bool, true, false, ◌&&◌, not, Option, some, ◌==◌, if◌then◌else◌, u32,
}
use qemu_tztest.Interop.{SysControl}
use qemu_tztest.El3.{log_exception}
use qemu_tztest.Tztest.Check.{
  Shared, inc_test_count, inc_fail_count, enable_excp_log, excp_reset, count_verdict, saw_exception,
  modify, test_condition, test_exception, test_no_exception,
}

-- The control block after a check with verdict `ok`, run from block `c`.
abbrev pub checked : Bool → SysControl → SysControl
checked ok c = record c {
  excp = record {
    ec = 0;
    iss = 0;
    far = 0;
    log = false;
    action = 0;
    taken = false;
    el = 0;
    state = 0;
  };
  test_cntl = record {
    fail_count = if ok then c.test_cntl.fail_count else u32 (c.test_cntl.fail_count + 1);
    test_count = u32 (c.test_cntl.test_count + 1);
  };
}

-- Counting and clearing undo all that logging did to a block but the counters.
pub settle_logged :
    (b : Bool) (ec iss far at state : ℕ) (c : SysControl)
    → excp_reset (count_verdict b (log_exception ec iss far at state (enable_excp_log c)))
      ≡ checked b c
unfolding count_verdict log_exception enable_excp_log excp_reset inc_test_count inc_fail_count
settle_logged true ec iss far at state c = refl
settle_logged false ec iss far at state c = refl

pub settle_quiet :
    (b : Bool) (c : SysControl) → excp_reset (count_verdict b (enable_excp_log c)) ≡ checked b c
unfolding count_verdict enable_excp_log excp_reset inc_test_count inc_fail_count
settle_quiet true c = refl
settle_quiet false c = refl

pub saw_logged :
    (ec iss far at state excp el : ℕ) (c : SysControl)
    → saw_exception excp el (log_exception ec iss far at state (enable_excp_log c))
      ≡ ((at == el) && (u32 ec == excp))
unfolding saw_exception log_exception enable_excp_log
saw_logged ec iss far at state excp el c = refl

pub saw_quiet :
    (excp el : ℕ) (c : SysControl)
    → c.excp.taken ≡ false
    → (saw_exception excp el (enable_excp_log c) ≡ false) × ((enable_excp_log c).excp.taken ≡ false)
unfolding saw_exception enable_excp_log
saw_quiet excp el c e = (rw e, e)

module _ {S : Type 0} (sh : Shared S)
    (control-put : (c : SysControl) (s : S) → sh.control (sh.put c s) ≡ c) where
  open sh use {control, put}

  settle :
      (cond : SysControl → Bool) (t : S)
      → control (modify sh excp_reset (test_condition sh cond t))
        ≡ excp_reset (count_verdict (cond (control t)) (control t))
  unfolding test_condition
  settle cond t =
      control-put _ _ ∙ ap excp_reset (control-put (count_verdict (cond (control t)) (control t)) t)

  started : (s : S) → control (modify sh enable_excp_log s) ≡ enable_excp_log (control s)
  started s = control-put _ s

  -- A statement that takes one exception, logged by a handler with class `ec` at level `at`: then
  -- TEST_EXCEPTION passes exactly if the class, cut to 32 bits, and the level are the expected ones.
  -- It counts one test, counts a failure exactly if it does not pass, and clears the log.
  pub test_exception-logged :
      (ec iss far at state excp el : ℕ) (fn : S → Option S) (s t : S)
      → fn (modify sh enable_excp_log s) ≡ some t
      → control t ≡ log_exception ec iss far at state (control (modify sh enable_excp_log s))
      → (u : S) × (test_exception sh fn excp el s ≡ some u)
        × (control u ≡ checked ((at == el) && (u32 ec == excp)) (control s))
  unfolding test_exception
  test_exception-logged ec iss far at state excp el fn s t ran log =
      let c = control s in
      let block = log ∙ ap (log_exception ec iss far at state) (started s) in
      (
        modify sh excp_reset (test_condition sh (saw_exception excp el) t),
        rw ran,
        settle (saw_exception excp el) t
            ∙ ap (λ k. excp_reset (count_verdict (saw_exception excp el k) k)) block
            ∙ ap
                (λ b.
                  excp_reset
                    (count_verdict b (log_exception ec iss far at state (enable_excp_log c))))
                (saw_logged ec iss far at state excp el c)
            ∙ settle_logged ((at == el) && (u32 ec == excp)) ec iss far at state c,
      )

  -- A statement that takes no exception, run where none is on record: TEST_EXCEPTION fails and
  -- TEST_NO_EXCEPTION passes.
  pub test_exception-none :
      (excp el : ℕ) (fn : S → Option S) (s t : S)
      → fn (modify sh enable_excp_log s) ≡ some t
      → control t ≡ control (modify sh enable_excp_log s)
      → (control s).excp.taken ≡ false
      → (u v : S) × (test_exception sh fn excp el s ≡ some u)
        × (control u ≡ checked false (control s))
        × (test_no_exception sh fn s ≡ some v)
        × (control v ≡ checked true (control s))
  unfolding test_exception test_no_exception
  test_exception-none excp el fn s t ran quiet fresh =
      let c = control s in
      let block = quiet ∙ started s in
      let saw = saw_quiet excp el c fresh in
      (
        modify sh excp_reset (test_condition sh (saw_exception excp el) t),
        modify sh excp_reset (test_condition sh (λ k. not k.excp.taken) t),
        rw ran,
        settle (saw_exception excp el) t
            ∙ ap (λ k. excp_reset (count_verdict (saw_exception excp el k) k)) block
            ∙ ap (λ b. excp_reset (count_verdict b (enable_excp_log c))) saw.0
            ∙ settle_quiet false c,
        rw ran,
        settle (λ k. not k.excp.taken) t
            ∙ ap (λ k. excp_reset (count_verdict (not k.excp.taken) k)) block
            ∙ ap (λ b. excp_reset (count_verdict (not b) (enable_excp_log c))) saw.1
            ∙ settle_quiet true c,
      )
