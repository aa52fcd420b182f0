-- ===== src/Tztest/Run.antt =====
-- `run_test` of tztest/tztest.c: a test runs here, or is handed to the level below by an SVC.
-- A level supplies its state, its level and secure state, its `test_func` array and its `__svc`.
use qemu_tztest.Common.{
  ℕ, ◌&&◌, Option, none, some, List, get_elem?, ◌==◌, if◌then◌else◌, u32, ◌>>=◌,
}
use qemu_tztest.Interop.{Desc, svc_op_dispatch}
use qemu_tztest.Interop.Disp

-- A `tztest_t`: its argument and the state of the level; `none` is a fault.
abbrev pub TestFn : Type 0 → Type 0
TestFn S = ℕ → S → Option S

-- `test_func[fid](arg)` behind its null test; a read past the array is a fault.
unfoldable pub call_test : {S : Type 0} → Option (Option (TestFn S)) → TestFn S
call_test none arg s = none
call_test (some none) arg s = some s
call_test (some (some f)) arg s = f arg s

-- The request that `run_test` fills in on its stack; `stack` is what the stack held.
unfoldable pub request : (fid el state arg : ℕ) → Desc → Desc
request fid el state arg stack =
    Disp.set_arg (u32 arg)
      (Disp.set_state (u32 state) (Disp.set_el (u32 el) (Disp.set_fid (u32 fid) stack)))

module _ {S : Type 0} (exception_level : ℕ) (secure_state : S → ℕ)
    (test_func : List (Option (TestFn S))) (svc : ℕ → Desc → S → Option (Desc × S))
    (stack : Desc) where
  unfoldable pub run_test : (fid el state arg : ℕ) → S → Option S
  unfolding call_test request
  run_test fid el state arg s =
      if (u32 el == exception_level) && (u32 state == secure_state s)
      then call_test (get_elem? test_func (u32 fid)) (u32 arg) s
      else (do (d, s') ← svc svc_op_dispatch (request fid el state arg stack) s; some s')
