-- ===== src/El3/Start/Examples.antt =====
-- The start of EL3 at the small memory of Mem64/Examples.antt: three pages of start-up code at page 0x100.
use qemu_tztest.Common.{refl, arith, inl, inr}
use qemu_tztest.Mem64.Examples.{boot, boot-IsMapped}
use qemu_tztest.El3.Examples.{control}
use qemu_tztest.El3.Start.{Start, el3_start}
use qemu_tztest.El3.Start.Boot.{Started, el3_start-Started}

abbrev cold : Start
cold = record {
  mm = boot;
  sec_state = λ i. 7;
  nsec_state = λ i. 7;
  syscntl = 0;
  block = control;
  smc_interop_buf = 0;
}

el3_start-Started_example :
    Started 0x4000000 0x8000000 0x100 3 0x80000 cold
      (el3_start 2 0x4000000 0x8000000 0x100000 0x2001 cold)
el3_start-Started_example =
    el3_start-Started 0 0x4000000 0x8000000 0x100 3 0x2001 0x80000 cold boot-IsMapped refl
      (omega arith) (omega arith) (omega arith) refl (omega arith)
      (inr (omega arith), inl (omega arith))
