-- ===== src/Tztest/Arm/Monitor.antt =====
-- What el3_check_smc of tztest_el3.c finds out about the CPSR.
use qemu_tztest.Common.{
  ℕ, ◌+◌, ◌-◌, ◌^◌, ◌<◌, ◌≡◌, refl, arith, ap, ◌∙◌, Bool, min, some, ◌==◌, bit_and, u32,
}
use qemu_tztest.Bits.Fields.{bit}
use qemu_tztest.Bits.Masks.{take_bit6, take_bit7, take_bit8, take_bits124}
use qemu_tztest.Interop.{SysControl}
use qemu_tztest.Tztest.Check.{count_verdict, test_condition}
use qemu_tztest.Tztest.Check.Counts.{miss, four_counted}
use qemu_tztest.Tztest.Arm.{ArmCpu, cpsr_m_mon, cpsr_f, cpsr_i, cpsr_a, el3_check_smc}

module _ {S : Type 0} (cpu : ArmCpu S) where
  abbrev verdict : Bool → S → S
  verdict ok s = test_condition cpu.shared (λ c. ok) s

  verdict_lem :
      ((c : SysControl) (t : S) → cpu.shared.control (cpu.shared.put c t) ≡ c)
      → (ok : Bool) (s : S)
      → cpu.shared.control (verdict ok s) ≡ count_verdict ok (cpu.shared.control s)
  unfolding test_condition
  verdict_lem found ok s = found _ s

  -- Where the control block that a check leaves is the one that the next finds, el3_check_smc counts four tests;
  -- one fails if a bit of 1, 2 and 4 of the CPSR is clear, and one for each of F, I and A that is clear.
  pub el3_check_smc-counts :
      (arg : ℕ) (s : S)
      → ((c : SysControl) (t : S) → cpu.shared.control (cpu.shared.put c t) ≡ c)
      → (cpu.shared.control s).test_cntl.fail_count < 2 ^ 32
      → (t : S) × (el3_check_smc cpu arg s ≡ some t)
        × ((cpu.shared.control t).test_cntl.test_count
            ≡ u32 ((cpu.shared.control s).test_cntl.test_count + 4))
        × ((cpu.shared.control t).test_cntl.fail_count
            ≡ u32 (
                (cpu.shared.control s).test_cntl.fail_count
                + (1
                    - min
                        (bit 1 (cpu.read_cpsr s))
                        (min (bit 2 (cpu.read_cpsr s)) (bit 4 (cpu.read_cpsr s))))
                + (1 - bit 6 (cpu.read_cpsr s))
                + (1 - bit 7 (cpu.read_cpsr s))
                + (1 - bit 8 (cpu.read_cpsr s))))
  unfolding el3_check_smc test_condition
  el3_check_smc-counts arg s found small =
      let c = cpu.read_cpsr s in
      let m1 : miss (cpsr_m_mon == bit_and c cpsr_m_mon)
          ≡ 1 - min (bit 1 c) (min (bit 2 c) (bit 4 c)) =
        ground (arith, take_bits124 c) in
      let m2 : miss (cpsr_f == bit_and cpsr_f c) ≡ 1 - bit 6 c = ground (arith, take_bit6 c) in
      let m3 : miss (cpsr_i == bit_and cpsr_i c) ≡ 1 - bit 7 c = ground (arith, take_bit7 c) in
      let m4 : miss (cpsr_a == bit_and cpsr_a c) ≡ 1 - bit 8 c = ground (arith, take_bit8 c) in
      let b1 = cpsr_m_mon == bit_and c cpsr_m_mon in
      let b2 = cpsr_f == bit_and cpsr_f c in
      let b3 = cpsr_i == bit_and cpsr_i c in
      let b4 = cpsr_a == bit_and cpsr_a c in
      let s1 = verdict b1 s in
      let s2 = verdict b2 s1 in
      let s3 = verdict b3 s2 in
      let end =
        verdict_lem found b4 s3
        ∙ ap (count_verdict b4) (
            verdict_lem found b3 s2
            ∙ ap (count_verdict b3)
                (verdict_lem found b2 s1 ∙ ap (count_verdict b2) (verdict_lem found b1 s))) in
      let n = four_counted b1 b2 b3 b4 (cpu.shared.control s) small in
      (
        verdict b4 s3,
        refl,
        ap (λ (b : SysControl). b.test_cntl.test_count) end ∙ n.0,
        ap (λ (b : SysControl). b.test_cntl.fail_count) end ∙ n.1 ∙ rw (m1, m2, m3, m4) refl,
      )
