-- ===== src/Tztest/Driver.antt =====
-- tztest/tztest.c: the table of tests, the interop test and the driver of the nonsecure program.
use qemu_tztest.Common.{
  ℕ, ◌&&◌, Option, none, some, List, [], ◌∷◌, ◌==◌, if◌then◌else◌, ◌>>=◌, ◌>>>◌,
}
use qemu_tztest.Interop.{Desc, svc_op_test, secure, nonsecure}
use qemu_tztest.Interop.Test
use qemu_tztest.Tztest.Check.{Shared, test_condition}

-- `tztest_case_t`.
pub record Case : Type 0 where
  pub fid : ℕ
  pub el : ℕ
  pub state : ℕ
  pub arg : ℕ

-- `tztest_func_id_t`.
abbrev pub tztest_smc : ℕ
tztest_smc = 1

abbrev pub tztest_reg_access : ℕ
tztest_reg_access = 2

abbrev pub tztest_cpacr_trap : ℕ
tztest_cpacr_trap = 3

abbrev pub tztest_wfx_trap : ℕ
tztest_wfx_trap = 4

abbrev pub tztest_fp_trap : ℕ
tztest_fp_trap = 5

abbrev pub test : (f e s a : ℕ) → Case
test f e s a = record { fid = f; el = e; state = s; arg = a }

-- The AArch64 table; the array's remaining elements are zero, so `TEST_END` is what follows.
abbrev pub tztest : List Case
tztest =
    test tztest_smc 0 nonsecure 0
    ∷ test tztest_smc 0 secure 0
    ∷ test tztest_reg_access 0 nonsecure 0
    ∷ test tztest_reg_access 0 secure 0
    ∷ test tztest_cpacr_trap 0 nonsecure 0
    ∷ test tztest_cpacr_trap 0 secure 0
    ∷ test tztest_wfx_trap 0 nonsecure 0
    ∷ test tztest_wfx_trap 0 secure 0
    ∷ test tztest_fp_trap 0 nonsecure 0
    ∷ test tztest_fp_trap 0 secure 0
    ∷ test tztest_reg_access 1 nonsecure 0
    ∷ test tztest_reg_access 1 secure 0
    ∷ test tztest_cpacr_trap 1 nonsecure 0
    ∷ test tztest_cpacr_trap 1 secure 0
    ∷ test tztest_wfx_trap 1 nonsecure 0
    ∷ test tztest_wfx_trap 1 secure 0
    ∷ test tztest_fp_trap 1 nonsecure 0
    ∷ test tztest_fp_trap 1 secure 0
    ∷ test 0 0 0 0
    ∷ []

-- The descriptor on the stack of `interop_test`: `op_test_t` covers its first three words.
abbrev pub fresh_test : Desc → Desc
fresh_test stack = Test.set_fail 0 (Test.set_count 0 (Test.set_val 1024 (Test.set_orig 1024 stack)))

module _ {S : Type 0} (sh : Shared S) (svc : ℕ → Desc → S → Option (ℕ × Desc × S))
    (stack : Desc) where
  unfoldable pub interop_test : S → Option S
  interop_test s = do
    (_, d, s') ← svc svc_op_test (fresh_test stack) s
    some (
        test_condition sh (λ _. (Test.fail d == 0) && (Test.val d == Test.orig d >>> Test.count d))
          s')

  module _ (run : (fid el state arg : ℕ) → S → Option S) where
    -- The loop of `tztest_start` over what is left of the array; reading past it is a fault.
    unfoldable pub run_cases : List Case → S → Option S
    run_cases [] s = none
    run_cases (c ∷ cs) s =
        let rest = (do s' ← run c.fid c.el c.state c.arg s; run_cases cs s') in
        if c.fid == 0 then some s else rest

    unfoldable pub tztest_start : S → Option S
    unfolding interop_test run_cases
    tztest_start s = do s' ← interop_test s; run_cases tztest s'
