-- ===== src/Tztest/Check.antt =====
-- The macros of tztest/tztest_internal.h, on a state in which the shared control block is found by
-- `control` and replaced by `put`. Printing is left out.
pub mod Laws
pub mod Counts
use qemu_tztest.Common.{
  ℕ, ◌+◌, ◌%◌, ◌^◌, Bool, true, false, ◌&&◌, not, Option, some, none, ◌==◌, if◌then◌else◌, u32,
  ◌>>=◌,
}
use qemu_tztest.Interop.{SysControl, Excp, TestControl, excp_action_skip}

pub record Shared (S : Type 0) : Type 0 where
  pub control : S → SysControl
  pub put : SysControl → S → S

-- INC_TEST_COUNT and INC_FAIL_COUNT; the counters are kept as 32-bit patterns.
unfoldable pub inc_test_count : SysControl → SysControl
inc_test_count c = record c {
  test_cntl = record c.test_cntl { test_count = u32 (c.test_cntl.test_count + 1) };
}

unfoldable pub inc_fail_count : SysControl → SysControl
inc_fail_count c = record c {
  test_cntl = record c.test_cntl { fail_count = u32 (c.test_cntl.fail_count + 1) };
}

-- TEST_ENABLE_EXCP_LOG and TEST_EXCP_RESET.
unfoldable pub enable_excp_log : SysControl → SysControl
enable_excp_log c = record c { excp = record c.excp { action = excp_action_skip; log = true } }

unfoldable pub excp_reset : SysControl → SysControl
excp_reset c = record c {
  excp = record {
    ec = 0;
    iss = 0;
    far = 0;
    log = false;
    action = 0;
    taken = false;
    el = 0;
    state = 0;
  };
}

unfoldable pub count_verdict : Bool → SysControl → SysControl
unfolding inc_test_count inc_fail_count
count_verdict cond c = inc_test_count (if cond then c else inc_fail_count c)

-- The conditions of TEST_EXCEPTION and TEST_NO_EXCEPTION.
unfoldable pub saw_exception : (excp el : ℕ) → SysControl → Bool
saw_exception excp el c = c.excp.taken && ((c.excp.el == el) && (c.excp.ec == excp))

module _ {S : Type 0} (sh : Shared S) where
  open sh use {control, put}

  abbrev pub modify : (SysControl → SysControl) → S → S
  modify f s = put (f (control s)) s

  unfoldable pub test_condition : (SysControl → Bool) → S → S
  test_condition cond s = modify (count_verdict (cond (control s))) s

  -- `fn` is the statement under test; it may fault.
  unfoldable pub test_exception : (S → Option S) → (excp el : ℕ) → S → Option S
  unfolding test_condition
  test_exception fn excp el s = do
    s' ← fn (modify enable_excp_log s)
    some (modify excp_reset (test_condition (saw_exception excp el) s'))

  unfoldable pub test_no_exception : (S → Option S) → S → Option S
  unfolding test_condition
  test_no_exception fn s = do
    s' ← fn (modify enable_excp_log s)
    some (modify excp_reset (test_condition (λ c. not c.excp.taken) s'))
