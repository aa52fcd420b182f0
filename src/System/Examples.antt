-- ===== src/System/Examples.antt =====
-- The theorems on EL1 and on requests through all levels at a concrete machine.
use qemu_tztest.Common.{ℕ, ◌%◌, ◌^◌, ◌≡◌, ◌≢◌, refl, arith, true, Option, none, some, []}
use qemu_tztest.Mem64.Examples.{boot}
use qemu_tztest.Interop.{Desc, svc_op_yield, smc_op_yield}
use qemu_tztest.El3.{Reg, test_step}
use qemu_tztest.El3.Examples.{plain, running, control, desc, no_svc}
use qemu_tztest.El1.{El1State, Below, el1_handle_svc, el1_interop_test}
use qemu_tztest.El1.Svc.{el1_handle_svc-yield}
use qemu_tztest.Tztest.Check.{count_verdict}
use qemu_tztest.Tztest.Driver.{interop_test}
use qemu_tztest.System.Interop.{
  through, ns_svc, block, el1_interop_test-three_steps, interop_test-passes,
}

-- Nonsecure EL1 with an empty buffer.
abbrev pub world : El1State
world = record {
  smc_interop_buf = desc 0 0 0 0 0;
  syscntl_va = 0;
  syscntl = control;
  secure_state = 0;
  mm = boot;
  elr = 0;
  monitor = running;
  parked = record {
    syscntl_va = 0;
    secure_state = 0;
    mm = boot;
    elr = 0;
    sctlr = 0;
    cpacr = 0x300000;
  };
}

abbrev read_zero : Reg → El1State → Option (ℕ × El1State)
read_zero r s = some (0, s)

abbrev write_none : Reg → ℕ → El1State → Option El1State
write_none r v s = some s

no_svc1 : ℕ → Desc → El1State → Option (Desc × El1State)
no_svc1 op d s = none

no_run : (fid el state arg : ℕ) → El1State → Option El1State
no_run fid el state arg s = none

no_svc0 : ℕ → Desc → El1State → Option (ℕ × Desc × El1State)
no_svc0 op d s = none

-- A test that arrives with its count at 5.
el1_interop_test-three_steps_example :
    (s' : El1State) × (el1_interop_test
        (through plain [] no_svc read_zero write_none [] no_svc1 no_run no_svc0
          (desc 0 0 0 0 0)
          2
          0x80
          world)
        (desc 1024 32 5 0 0)
        world
      ≡ some (0, test_step (test_step (test_step (desc 1024 32 5 0 0))), s'))
    × (s'.syscntl ≡ control)
el1_interop_test-three_steps_example =
    el1_interop_test-three_steps plain [] no_svc read_zero write_none [] no_svc1 no_run no_svc0
      (desc 0 0 0 0 0) 2 0x80 world (desc 1024 32 5 0 0) world (omega arith)

interop_test-passes_example :
    (s' : El1State) × (interop_test block
        (ns_svc plain [] no_svc read_zero write_none [] no_svc1 no_run no_svc0
          (desc 7 7 7 7 7)
          2
          0x80
          world)
        (desc 7 7 7 7 7)
        world
      ≡ some s')
    × (s'.syscntl ≡ count_verdict true control)
interop_test-passes_example =
    interop_test-passes plain [] no_svc read_zero write_none [] no_svc1 no_run no_svc0
      (desc 7 7 7 7 7) 2 0x80 world world

-- EL3 and the other world answer each SMC with a dispatch in the buffer.
abbrev answering : Below
answering = record {
  read = read_zero;
  write = write_none;
  smc = λ op s. some (8, record s { smc_interop_buf = desc 1 0 0 0 0 });
}

el1_handle_svc-yield_example :
    (svc_op_yield ≢ svc_op_yield → ◌≡◌ {A = ℕ} 8 0)
    × (svc_op_yield ≡ svc_op_yield
        → (k : ℕ) × (t : El1State) × (answering.smc smc_op_yield world ≡ some (k, t))
          × (8 ≡ k % 2 ^ 32)
          × (desc 1 0 0 0 0 ≡ t.smc_interop_buf))
    × ◌≡◌ {A = ℕ} 0x80 0x80
unfolding el1_handle_svc
el1_handle_svc-yield_example =
    el1_handle_svc-yield answering [] no_svc1 (desc 0 0 0 0 0) 2 svc_op_yield (desc 0 0 0 0 0) 0x80
      world 8 (desc 1 0 0 0 0) (record world { smc_interop_buf = desc 1 0 0 0 0; elr = 0x80 }) refl

-- A trapped WFI is stepped over and logged.
