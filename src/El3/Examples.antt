-- ===== src/El3/Examples.antt =====
-- Tests of el3/el3.c and its theorems at concrete states.
use qemu_tztest.Common.{
  ℕ, ◌%◌, ◌≡◌, ◌≢◌, refl, arith, ap, Bool, true, false, Option, none, some, [], get_elem?, bit_xor,
  if◌then◌else◌,
}
use qemu_tztest.Mem64.Examples.{boot, boot-IsMapped, pool_end}
use qemu_tztest.Interop.{
  Desc, SysControl, smc_op_test, smc_op_yield, smc_op_set_reg, smc_op_get_reg, svc_op_test, key_scr,
}
use qemu_tztest.Interop.Test
use qemu_tztest.Tztest.Run.{TestFn}
use qemu_tztest.El3.{
  Reg, currentel, cptr_el3, cpacr_el1, scr_el3, sctlr_el1, sder32_el3, Regs, El3State,
  el3_handle_smc, el3_map_mem, el3_handle_exception,
}
use qemu_tztest.El3.Smc.{el3_handle_smc-is_switching, is_switching, smc_op_test-fetched}
use qemu_tztest.El3.World.{Agrees, smc_vector-Agrees}
use qemu_tztest.El3.Regs.{smc_op_get_reg-smc_op_set_reg}
use qemu_tztest.El3.Exception.{el3_handle_exception_lem}
use qemu_tztest.El3.Map.{Mapped, el3_map_mem-Mapped}

-- A CPU on which every register keeps what is written.
eq_reg : Reg → Reg → Bool
eq_reg currentel currentel = true
eq_reg cptr_el3 cptr_el3 = true
eq_reg cpacr_el1 cpacr_el1 = true
eq_reg scr_el3 scr_el3 = true
eq_reg sctlr_el1 sctlr_el1 = true
eq_reg sder32_el3 sder32_el3 = true
eq_reg _ _ = false

unfoldable pub plain : Reg → ℕ → Regs → Regs
unfolding eq_reg
plain r v regs q = if eq_reg r q then v else regs q

abbrev pub start_regs : Regs
start_regs currentel = 0xC
start_regs cptr_el3 = 0
start_regs cpacr_el1 = 0x300000
start_regs scr_el3 = 1
start_regs sctlr_el1 = 0
start_regs sder32_el3 = 0

abbrev pub control : SysControl
control = record {
  buf_pa = 0;
  buf_va = 0;
  excp = record {
    ec = 0;
    iss = 0;
    far = 0;
    log = true;
    action = 1;
    taken = false;
    el = 0;
    state = 0;
  };
  test_cntl = record { fail_count = 0; test_count = 0 };
}

abbrev pub running : El3State
running = record {
  regs = start_regs;
  secure_state = 1;
  syscntl = control;
  mm = boot;
  elr = 0;
  cfgctrl = 0;
}

abbrev pub desc : (a b c d e : ℕ) → Desc
desc a b c d e = record { w0 = a; w1 = b; w2 = c; w3 = d; w4 = e }

pub no_svc : ℕ → Desc → El3State → Option (Desc × El3State)
no_svc op d s = none

pub plain-reads : (r : Reg) (v : ℕ) (regs : Regs) → plain r v regs r ≡ v
unfolding plain
plain-reads currentel v regs = refl
plain-reads cptr_el3 v regs = refl
plain-reads cpacr_el1 v regs = refl
plain-reads scr_el3 v regs = refl
plain-reads sctlr_el1 v regs = refl
plain-reads sder32_el3 v regs = refl

plain-keeps : (r : Reg) (v : ℕ) (regs : Regs) → r ≢ scr_el3 → plain r v regs scr_el3 ≡ regs scr_el3
unfolding plain
plain-keeps currentel v regs ne = refl
plain-keeps cptr_el3 v regs ne = refl
plain-keeps cpacr_el1 v regs ne = refl
plain-keeps scr_el3 v regs ne = absurd (ne refl)
plain-keeps sctlr_el1 v regs ne = refl
plain-keeps sder32_el3 v regs ne = refl

el3_handle_smc-is_switching_example :
    (1 ≡ (if is_switching smc_op_yield (desc 0 0 0 0 0) running then smc_op_yield else 0))
    × ◌≡◌ {A = ℕ} 0x80 0x80
unfolding el3_handle_smc
el3_handle_smc-is_switching_example =
    el3_handle_smc-is_switching plain [] no_svc (desc 0 0 0 0 0) 2 smc_op_yield (desc 0 0 0 0 0)
      0x80 running 1 (desc 0 0 0 0 0) (record running { secure_state = 0; elr = 0x80 }) refl

-- A test whose original value is the key of SCR and whose count is 2: SCR ends up in its value.
smc_op_test-fetched_example :
    (d : Desc) × (el3_handle_smc plain [] no_svc
        (desc 0 0 0 0 0)
        2
        smc_op_test
        (desc key_scr 1 2 0 0)
        0x80
        running
      ≡ some (svc_op_test, d, record running { secure_state = bit_xor 1 1; elr = 0x80 }))
    × (Test.val d ≡ 1)
    × (Test.count d ≡ 3)
    × (Test.fail d ≡ 0)
smc_op_test-fetched_example =
    smc_op_test-fetched plain [] no_svc (desc 0 0 0 0 0) 2 (desc key_scr 1 2 0 0) 0x80 running

no_tests :
    (fid arg : ℕ) (f : TestFn El3State) (s t : El3State)
    → get_elem? {A = Option (TestFn El3State)} [] fid ≡ some (some f)
    → f arg s ≡ some t
    → Agrees s
    → Agrees t
no_tests fid arg f s t e h a = cc

smc_vector-Agrees_example :
    Agrees (record running { secure_state = 0; elr = 0x80; regs = plain scr_el3 0 start_regs })
unfolding el3_handle_smc
smc_vector-Agrees_example =
    smc_vector-Agrees plain [] no_svc (desc 0 0 0 0 0) 2
      (λ v regs. ap (λ t. t % 2) (plain-reads scr_el3 v regs)) plain-keeps no_tests smc_op_yield
      (desc 0 0 0 0 0) 0x80 running 1 (desc 0 0 0 0 0) _ (λ e k. cc) refl refl

smc_op_get_reg-smc_op_set_reg_example :
    (t : El3State) × (el3_handle_smc plain [] no_svc
        (desc 0 0 0 0 0)
        2
        smc_op_set_reg
        (desc key_scr 0x81 3 0 0)
        0x80
        running
      ≡ some (0, desc key_scr 0x81 3 0 0, t))
    × (t.regs ≡ plain scr_el3 0x81 start_regs)
    × (el3_handle_smc plain [] no_svc
          (desc 0 0 0 0 0)
          2
          smc_op_get_reg
          (desc key_scr 0 3 0 0)
          0x80
          t
        ≡ some (0, desc key_scr 0x81 3 0 0, t))
unfolding plain
smc_op_get_reg-smc_op_set_reg_example =
    smc_op_get_reg-smc_op_set_reg plain [] no_svc (desc 0 0 0 0 0) 2 (desc key_scr 0x81 3 0 0)
      (desc key_scr 0 3 0 0) 0x80 running scr_el3 refl refl refl refl

el3_handle_exception_lem_example : el3_handle_exception 0x18 5 6 0x100 running ≡ record running {
  elr = 0x104;
  syscntl = record control {
    excp = record {
      ec = 0x18;
      iss = 5;
      far = 6;
      log = true;
      action = 1;
      taken = true;
      el = 3;
      state = 0;
    };
  };
}
el3_handle_exception_lem_example = el3_handle_exception_lem 0x18 5 6 0x100 running

el3_map_mem-Mapped_example :
    Mapped 1 pool_end
      (desc 12 0x1000 0x80000000 0x9000000 0)
      running
      boot-IsMapped
      (el3_map_mem 2 (desc 12 0x1000 0x80000000 0x9000000 0) running)
el3_map_mem-Mapped_example =
    el3_map_mem-Mapped 0 (desc 12 0x1000 0x80000000 0x9000000 0) running boot-IsMapped refl
      (omega arith) (omega arith)
