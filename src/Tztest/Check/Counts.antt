-- ===== src/Tztest/Check/Counts.antt =====
-- What the verdicts of checks add up to in the counters.
use qemu_tztest.Common.{ℕ, ◌+◌, ◌^◌, ◌<◌, ◌≡◌, refl, arith, Bool, true, false, if◌then◌else◌, u32}
use qemu_tztest.Interop.{SysControl}
use qemu_tztest.Tztest.Check.{count_verdict, inc_test_count, inc_fail_count}

-- What a verdict adds to the failures.
abbrev pub miss : Bool → ℕ
miss ok = if ok then 0 else 1

verdict-counts :
    (ok : Bool) (c : SysControl)
    → c.test_cntl.fail_count < 2 ^ 32
    → ((count_verdict ok c).test_cntl.test_count ≡ u32 (c.test_cntl.test_count + 1))
      × ((count_verdict ok c).test_cntl.fail_count ≡ u32 (c.test_cntl.fail_count + miss ok))
unfolding count_verdict inc_test_count inc_fail_count
verdict-counts true c small = (refl, omega arith)
verdict-counts false c small = (refl, refl)

pub four_counted :
    (p q f a : Bool) (c : SysControl)
    → c.test_cntl.fail_count < 2 ^ 32
    → let d = count_verdict a (count_verdict f (count_verdict q (count_verdict p c))) in
      (d.test_cntl.test_count ≡ u32 (c.test_cntl.test_count + 4))
      × (d.test_cntl.fail_count ≡ u32 (c.test_cntl.fail_count + miss p + miss q + miss f + miss a))
four_counted p q f a c small =
    let v1 = verdict-counts p c small in
    let c1 = count_verdict p c in
    let v2 = verdict-counts q c1 (omega (arith, v1)) in
    let c2 = count_verdict q c1 in
    let v3 = verdict-counts f c2 (omega (arith, v2)) in
    let v4 = verdict-counts a (count_verdict f c2) (omega (arith, v3)) in
    (omega (arith, v1.0, v2.0, v3.0, v4.0), omega (arith, v1.1, v2.1, v3.1, v4.1))
