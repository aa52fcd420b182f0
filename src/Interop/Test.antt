-- ===== src/Interop/Test.antt =====
-- `op_test_t` of common/interop.h, as a member of the descriptor unions.
use qemu_tztest.Common.{ℕ}
use qemu_tztest.Interop.{Desc, low, high, set_low, set_high}

abbrev pub orig : Desc → ℕ
orig d = d.w0

abbrev pub set_orig : ℕ → Desc → Desc
set_orig x d = record d { w0 = x }

abbrev pub val : Desc → ℕ
val d = d.w1

abbrev pub set_val : ℕ → Desc → Desc
set_val x d = record d { w1 = x }

abbrev pub count : Desc → ℕ
count d = low d.w2

abbrev pub set_count : ℕ → Desc → Desc
set_count x d = record d { w2 = set_low d.w2 x }

abbrev pub fail : Desc → ℕ
fail d = high d.w2

abbrev pub set_fail : ℕ → Desc → Desc
set_fail x d = record d { w2 = set_high d.w2 x }
