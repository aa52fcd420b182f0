-- ===== src/System/Arm/Examples.antt =====
-- The ARMv7 tests on a concrete machine.
use qemu_tztest.Common.{
  ℕ, ◌+◌, ◌-◌, ◌≡◌, refl, arith, ap, ◌∙◌, sym, max, min, Option, some, [], ◌>>=◌, u32,
}
use qemu_tztest.Bits.Fields.{bit}
use qemu_tztest.Interop.{Desc, ec_unknown}
use qemu_tztest.Tztest.Cpu.Trace.{View, Ends, Gets, passes}
use qemu_tztest.Tztest.Arm.{
  ArmCpu, ArmReg, scr_c1, sder_c1, mvbar_c12, nsacr_c1, check_mask_bits, el3_check_smc,
  nsec_check_register_access, sec_check_register_access,
}
use qemu_tztest.Tztest.Arm.Monitor.{el3_check_smc-counts}
use qemu_tztest.Tztest.Arm.Registers.{Undefined, nsec_check_register_access-passes}
use qemu_tztest.Tztest.Arm.Secure.{Holds, Accessible, sec_check_register_access-passes}
use qemu_tztest.El3.{scr_el3}
use qemu_tztest.El1.{El1State}
use qemu_tztest.El3.Examples.{plain, desc, no_svc}
use qemu_tztest.System.Examples.{world}
use qemu_tztest.System.Machine.{view_of, block, call_monitor, trap}
use qemu_tztest.System.Machine.Registers.{written-scr}
use qemu_tztest.System.Machine.Traps.{block-Shows, trap-Traps}
use qemu_tztest.System.Machine.Examples.{plain-Stores, no_svc1, no_turn}
use qemu_tztest.System.Arm.{Guards, merged}
use qemu_tztest.System.Arm.Pl1.{Pl1, scr_of, pl1_cpu, pl1_buf, pl1_set_buf, pl1_smc}
use qemu_tztest.System.Arm.MaskBits.{check_mask_bits-counts}

merged-Guards : Guards merged
merged-Guards = record { masked = λ val scr cpsr l i h. refl }

-- Supervisor mode, with A set already.
abbrev supervisor : Pl1
supervisor = record { cpsr = 0x113; kernel = world }

abbrev junk : Desc
junk = desc 7 7 7 7 7

check_mask_bits-counts_example :
    (t : Pl1) × (check_mask_bits
        (pl1_cpu merged)
        pl1_buf
        pl1_set_buf
        (pl1_smc (call_monitor plain [] no_svc [] no_svc1 no_turn junk 2 0x80 1 2 3))
        0
        supervisor
      ≡ some t)
    × (t.cpsr ≡ 0x113)
    × (scr_of t ≡ scr_of supervisor)
    × (t.kernel.syscntl.test_cntl.test_count ≡ u32 (0 + 4))
    × (t.kernel.syscntl.test_cntl.fail_count
        ≡ u32 (0 + max 0 (bit 4 (scr_of supervisor)) + max 1 (bit 5 (scr_of supervisor))))
check_mask_bits-counts_example =
    check_mask_bits-counts plain [] no_svc no_turn junk 2 0x80 1 2 3 [] no_svc1 plain-Stores merged
      merged-Guards 0 supervisor (omega arith)

-- Abort mode is taken for monitor mode: the bits of the mask are set in 0x17.
el3_check_smc-counts_example :
    (t : Pl1) × (el3_check_smc (pl1_cpu merged) 0 (record { cpsr = 0x1D7; kernel = world })
      ≡ some t)
    × (t.kernel.syscntl.test_cntl.test_count ≡ u32 (0 + 4))
    × (t.kernel.syscntl.test_cntl.fail_count
        ≡ u32 (0 + (1 - min 1 (min 1 1)) + (1 - 1) + (1 - 1) + (1 - 1)))
el3_check_smc-counts_example =
    el3_check_smc-counts (pl1_cpu merged) 0 (record { cpsr = 0x1D7; kernel = world }) (λ c t. refl)
      (omega arith)

abbrev undef : El1State → Option El1State
undef s = trap plain [] no_svc [] no_svc1 no_turn junk 2 0x80 1 2 3 ec_unknown 1 s

-- A kernel that the secure registers are undefined for.
abbrev denied_cpu : ArmCpu El1State
denied_cpu = record {
  shared = block;
  read_cpsr = λ s. 0x13;
  write_cpsr = λ v s. s;
  mrc = λ r s. undef s >>= λ t. some (3, t);
  mcr = λ r v s. undef s;
}

denied_cpu-Undefined : Undefined view_of denied_cpu
denied_cpu-Undefined = record {
  read = λ r s v off at skip.
      let (t, i, f, st, ran, seen) =
        trap-Traps plain [] no_svc no_turn junk 2 0x80 1 2 3 [] no_svc1 ec_unknown 1 s v at skip
          refl in
      ((3, t), i, f, st, rw ran refl, seen);
  write = λ r x s v at skip.
      trap-Traps plain [] no_svc no_turn junk 2 0x80 1 2 3 [] no_svc1 ec_unknown 1 s v at skip refl;
}

nsec_check_register_access-passes_example :
    Ends view_of (nsec_check_register_access denied_cpu 0 world) (passes 7 (view_of world))
nsec_check_register_access-passes_example =
    nsec_check_register_access-passes view_of denied_cpu block-Shows denied_cpu-Undefined 0 world
      (view_of world) refl

-- A kernel that reads SCR and zeroes, and writes to SCR alone.
reads_scr : ArmReg → El1State → Option (ℕ × El1State)
reads_scr scr_c1 s = some (s.monitor.regs scr_el3, s)
reads_scr _ s = some (0, s)

writes_scr : ArmReg → ℕ → El1State → Option El1State
writes_scr scr_c1 x s =
    some (record s { monitor = record s.monitor { regs = plain scr_el3 x s.monitor.regs } })
writes_scr _ x s = some s

abbrev secure_cpu : ArmCpu El1State
secure_cpu = record {
  shared = block;
  read_cpsr = λ s. 0x13;
  write_cpsr = λ v s. s;
  mrc = reads_scr;
  mcr = writes_scr;
}

secure_cpu-Accessible : Accessible view_of secure_cpu
unfolding reads_scr writes_scr
secure_cpu-Accessible = record { read = reading; write = writing }
  where
    reading :
        (r : ArmReg) (s : El1State) (v : View)
        → view_of s ≡ v
        → (x : ℕ) × Gets view_of (reads_scr r s) x v × Holds r x v
    reading scr_c1 s v at =
        (s.monitor.regs scr_el3, (s, refl, at), λ h. ap (λ (w : View). w.scr) at)
    reading sder_c1 s v at = (0, (s, refl, at), λ h. cc)
    reading mvbar_c12 s v at = (0, (s, refl, at), λ h. cc)
    reading nsacr_c1 s v at = (0, (s, refl, at), λ h. cc)

    writing :
        (r : ArmReg) (x : ℕ) (s : El1State) (v : View)
        → view_of s ≡ v
        → Holds r x v
        → Ends view_of (writes_scr r x s) v
    writing scr_c1 x s v at holds = (
      record s { monitor = record s.monitor { regs = plain scr_el3 x s.monitor.regs } },
      refl,
      written-scr plain plain-Stores x s
          ∙ ap (λ y. record (view_of s) { scr = y })
              (holds refl ∙ ap (λ (w : View). w.scr) (sym at))
          ∙ at,
    )
    writing sder_c1 x s v at holds = (s, refl, at)
    writing mvbar_c12 x s v at holds = (s, refl, at)
    writing nsacr_c1 x s v at holds = (s, refl, at)

sec_check_register_access-passes_example :
    Ends view_of (sec_check_register_access secure_cpu 0 world) (passes 7 (view_of world))
sec_check_register_access-passes_example =
    sec_check_register_access-passes view_of secure_cpu block-Shows secure_cpu-Accessible 0 world
      (view_of world) refl refl
