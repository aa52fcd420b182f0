-- ===== src/System/Arm/MaskBits.antt =====
-- check_mask_bits of tztest_el1_nsec.c over the monitor.
use qemu_tztest.Common.{
  ℕ, ◌+◌, ◌^◌, ◌<◌, ◌≡◌, refl, arith, ap, ◌∙◌, Bool, true, not, max, Option, some, List, ◌==◌,
  bit_or, u32, ◌>>=◌,
}
use qemu_tztest.Bits.Fields.{bit, bit-or}
use qemu_tztest.Interop.{Desc, SysControl, key_scr}
use qemu_tztest.Tztest.Run.{TestFn}
use qemu_tztest.Tztest.Check.Counts.{miss, four_counted}
use qemu_tztest.Tztest.Check.{count_verdict, test_condition}
use qemu_tztest.Tztest.Cpu.Smc.{smc_get_reg, smc_set_reg}
use qemu_tztest.Tztest.Cpu.Trace.{View, Ends}
use qemu_tztest.Tztest.Arm.{ArmCpu, cpsr_f, cpsr_a, test_function, check_mask_bits}
use qemu_tztest.El3.{Reg, scr_el3, Regs, El3State}
use qemu_tztest.El1.{El1State}
use qemu_tztest.System.Machine.{view_of, call_monitor}
use qemu_tztest.System.Machine.Registers.{Stores}
use qemu_tztest.System.Machine.KernelTests.{buf, set_buf, serves_scr, get_el3}
use qemu_tztest.System.Arm.{Guards, shows, reads_f, reads_a, write-back, with_f, with_a}
use qemu_tztest.System.Arm.Pl1.{
  Pl1, scr_of, pl1_cpu, pl1_buf, pl1_set_buf, pl1_smc, beside, smc_get_reg-beside,
  smc_set_reg-beside,
}

miss-shows :
    (old allowed : ℕ) → old < 2 → allowed < 2 → miss (not (shows old allowed)) ≡ max old allowed
miss-shows old allowed p q = ground arith

shows_on : (old : ℕ) {allowed : ℕ} → allowed ≡ 1 → shows old allowed ≡ true
shows_on old e = ground arith

module _ (write : (val scr cpsr : ℕ) → ℕ) (guards : Guards write) where
  abbrev cpu : ArmCpu Pl1
  cpu = pl1_cpu write

  -- TEST_FUNCTION over a write of the CPSR, and the write of its old value.
  abbrev round : (expects : Bool → Bool) → (val cpsr : ℕ) → Pl1 → Pl1
  round expects val cpsr s =
      cpu.write_cpsr cpsr
        (test_function cpu.shared (cpu.write_cpsr val) (λ t. expects (cpu.read_cpsr t == val)) s)

  abbrev judged : Bool → El1State → El1State
  judged ok k = record k { syscntl = count_verdict ok k.syscntl }

  round_f :
      (expects : Bool → Bool) (c : ℕ) (k : El1State)
      → round expects (bit_or c cpsr_f) c (beside c k)
        ≡ beside c (judged (expects (shows (bit 6 c) (bit 4 (k.monitor.regs scr_el3)))) k)
  unfolding test_function test_condition
  round_f expects c k =
      let z = k.monitor.regs scr_el3 in
      rw (
        write-back write guards z (bit_or c cpsr_f) c (with_f write guards z c).0,
        reads_f write guards z c,
      )

  round_a :
      (expects : Bool → Bool) (c : ℕ) (k : El1State)
      → round expects (bit_or c cpsr_a) c (beside c k)
        ≡ beside c (judged (expects (shows (bit 8 c) (bit 5 (k.monitor.regs scr_el3)))) k)
  unfolding test_function test_condition
  round_a expects c k =
      let z = k.monitor.regs scr_el3 in
      rw (
        write-back write guards z (bit_or c cpsr_a) c (with_a write guards z c).0,
        reads_a write guards z c,
      )

  -- Both rounds.
  rounds :
      (expects : Bool → Bool) (c x : ℕ) (k : El1State)
      → k.monitor.regs scr_el3 ≡ x
      → round expects (bit_or c cpsr_a) c (round expects (bit_or c cpsr_f) c (beside c k))
        ≡ beside c (
            judged
              (expects (shows (bit 8 c) (bit 5 x)))
              (judged (expects (shows (bit 6 c) (bit 4 x))) k))
  rounds expects c x k at =
      ap (round expects (bit_or c cpsr_a) c) (round_f expects c k)
      ∙ round_a expects c (judged (expects (shows (bit 6 c) (bit 4 (k.monitor.regs scr_el3)))) k)
      ∙ ap
          (λ z. beside c (
            judged (expects (shows (bit 8 c) (bit 5 z)))
              (judged (expects (shows (bit 6 c) (bit 4 z))) k)))
          at

  module _ (smc : ℕ → El1State → Option (ℕ × El1State)) where
    -- The test from the four register requests that it makes.
    check_mask_bits-rounds :
        (arg c x : ℕ) (k k1 k2 k7 : El1State)
        → smc_get_reg buf set_buf smc key_scr 3 k ≡ some (x, k1)
        → smc_set_reg buf set_buf smc key_scr 3 (bit_or x 0x30) k1 ≡ some k2
        → k2.monitor.regs scr_el3 ≡ bit_or x 0x30
        → smc_set_reg buf set_buf smc key_scr 3 x (judged true (judged true k2)) ≡ some k7
        → k7.monitor.regs scr_el3 ≡ x
        → check_mask_bits cpu pl1_buf pl1_set_buf (pl1_smc smc) arg (beside c k)
          ≡ some (
              beside c (
                judged
                  (not (shows (bit 8 c) (bit 5 x)))
                  (judged (not (shows (bit 6 c) (bit 4 x))) k7)))
    unfolding check_mask_bits
    check_mask_bits-rounds arg c x k k1 k2 k7 e1 e2 at2 e7 at7 =
        let both = bit_or x 0x30 in
        let fw : bit 4 both ≡ 1 = omega (arith, bit-or 4 x 0x30) in
        let aw : bit 5 both ≡ 1 = omega (arith, bit-or 5 x 0x30) in
        let allowed =
          rounds (λ b. b) c both k2 at2
          ∙ ap (λ b. beside c (judged b (judged (shows (bit 6 c) (bit 4 both)) k2)))
              (shows_on (bit 8 c) aw)
          ∙ ap (λ b. beside c (judged true (judged b k2))) (shows_on (bit 6 c) fw) in
        let rest : Option Pl1 → Option Pl1 =
          λ m. m >>= λ s. some (round not (bit_or c cpsr_a) c (round not (bit_or c cpsr_f) c s)) in
        rw
          (
            smc_get_reg-beside smc key_scr 3 x c k k1 e1,
            smc_set_reg-beside smc key_scr 3 both c k1 k2 e2,
          )
          (ap (λ s. rest (smc_set_reg pl1_buf pl1_set_buf (pl1_smc smc) key_scr 3 x s)) allowed
            ∙ ap rest (smc_set_reg-beside smc key_scr 3 x c (judged true (judged true k2)) k7 e7)
            ∙ ap some (rounds not c x k7 at7))

module _ (msr : Reg → ℕ → Regs → Regs) (tests3 : List (Option (TestFn El3State)))
    (svc3 : ℕ → Desc → El3State → Option (Desc × El3State))
    (other : ℕ → El1State → Option (ℕ × El1State)) (stack : Desc) (fuel pc iss far junk : ℕ)
    (tests1 : List (Option (TestFn El1State)))
    (svc1 : ℕ → Desc → El1State → Option (Desc × El1State)) (stores : Stores msr)
    (write : (val scr cpsr : ℕ) → ℕ) (guards : Guards write) where
  abbrev smc_here : ℕ → El1State → Option (ℕ × El1State)
  smc_here = call_monitor msr tests3 svc3 tests1 svc1 other stack fuel pc iss far junk

  -- Over the monitor, on a processor that lets the nonsecure state write CPSR.F and CPSR.A as SCR.FW and SCR.AW
  -- say, check_mask_bits counts four tests; the third fails exactly if F or SCR.FW is set when it is called,
  -- the fourth if A or SCR.AW is; CPSR and SCR are left as they were.
  pub check_mask_bits-counts :
      (arg : ℕ) (s : Pl1)
      → s.kernel.syscntl.test_cntl.fail_count < 2 ^ 32
      → (t : Pl1) × (check_mask_bits (pl1_cpu write) pl1_buf pl1_set_buf (pl1_smc smc_here) arg s
          ≡ some t)
        × (t.cpsr ≡ s.cpsr)
        × (scr_of t ≡ scr_of s)
        × (t.kernel.syscntl.test_cntl.test_count ≡ u32 (s.kernel.syscntl.test_cntl.test_count + 4))
        × (t.kernel.syscntl.test_cntl.fail_count
            ≡ u32 (
                s.kernel.syscntl.test_cntl.fail_count
                + max (bit 6 s.cpsr) (bit 4 (scr_of s))
                + max (bit 8 s.cpsr) (bit 5 (scr_of s))))
  check_mask_bits-counts arg s small =
      let x = scr_of s in
      let set : (v : ℕ) (k : El1State)
          → Ends view_of (smc_set_reg buf set_buf smc_here key_scr 3 v k)
              (record (view_of k) { scr = v }) =
        λ v k. serves_scr msr tests3 svc3 other stack fuel pc iss far junk tests1 svc1 stores v k in
      let (k1, e1, at1) =
        get_el3 msr tests3 svc3 other stack fuel pc iss far junk tests1 svc1 stores key_scr scr_el3
          s.kernel refl in
      let (k2, e2, at2) = set (bit_or x 0x30) k1 in
      let (k7, e7, at7) = set x (judged write guards true (judged write guards true k2)) in
      let f = not (shows (bit 6 s.cpsr) (bit 4 x)) in
      let a = not (shows (bit 8 s.cpsr) (bit 5 x)) in
      let scr2 = ap (λ (v : View). v.scr) at2 in
      let b7 =
        ap (λ (v : View). v.block) at7
        ∙ ap (λ (v : View). count_verdict true (count_verdict true v.block)) at2
        ∙ ap (λ (v : View). count_verdict true (count_verdict true v.block)) at1 in
      let n = four_counted true true f a s.kernel.syscntl small in
      let plain : u32 (s.kernel.syscntl.test_cntl.fail_count + 0 + 0 + miss f + miss a)
          ≡ u32 (s.kernel.syscntl.test_cntl.fail_count + miss f + miss a) =
        omega arith in
      let end = ap (λ b. count_verdict a (count_verdict f b)) b7 in
      let f_miss = miss-shows (bit 6 s.cpsr) (bit 4 x) (omega arith) (omega arith) in
      let a_miss = miss-shows (bit 8 s.cpsr) (bit 5 x) (omega arith) (omega arith) in
      (
        beside s.cpsr (judged write guards a (judged write guards f k7)),
        check_mask_bits-rounds write guards smc_here arg s.cpsr x s.kernel k1 k2 k7 e1 e2 scr2 e7
            (ap (λ (v : View). v.scr) at7),
        refl,
        ap (λ (v : View). v.scr) at7,
        ap (λ (b : SysControl). b.test_cntl.test_count) end ∙ n.0,
        ap (λ (b : SysControl). b.test_cntl.fail_count) end
            ∙ n.1
            ∙ plain
            ∙ ap (λ m. u32 (s.kernel.syscntl.test_cntl.fail_count + m + miss a)) f_miss
            ∙ ap
                (λ m.
                  u32 (s.kernel.syscntl.test_cntl.fail_count + max (bit 6 s.cpsr) (bit 4 x) + m))
                a_miss,
      )
