-- ===== src/Tztest/Examples.antt =====
-- The theorems on the check macros at concrete runs.
use qemu_tztest.Common.{◌≡◌, refl, true, Option, some}
use qemu_tztest.Interop.{SysControl}
use qemu_tztest.El3.{log_exception}
use qemu_tztest.El3.Examples.{control}
use qemu_tztest.Tztest.Check.{Shared, enable_excp_log, test_exception}
use qemu_tztest.Tztest.Check.Laws.{test_exception-logged, checked}

abbrev alone : Shared SysControl
alone = record { control = λ c. c; put = λ c s. c }

-- A statement that takes a trap of a WFI to EL3.
traps : SysControl → Option SysControl
traps c = some (log_exception 1 0 0 3 1 c)

test_exception-logged_example :
    (u : SysControl) × (test_exception alone traps 1 3 control ≡ some u)
    × (u ≡ checked true control)
unfolding traps
test_exception-logged_example =
    test_exception-logged alone (λ c s. refl) 1 0 0 3 1 1 3 traps control
      (log_exception 1 0 0 3 1 (enable_excp_log control)) refl refl
