-- ===== src/System/Machine/Examples.antt =====
-- The theorems on the tests at a concrete machine.
use qemu_tztest.Common.{ℕ, ◌≡◌, ◌≢◌, refl, arith, Option, none, []}
use qemu_tztest.Interop.{Desc}
use qemu_tztest.Tztest.Cpu.Trace.{user_route, kernel_route, passes, Ends}
use qemu_tztest.Tztest.Cpu.User.{el0_check_wfx_trap, el0_check_fp_trap}
use qemu_tztest.Tztest.Cpu.User.Passes.{el0_check_wfx_trap-passes, el0_check_fp_trap-passes}
use qemu_tztest.Tztest.Cpu.Kernel.{el1_check_fp_trap}
use qemu_tztest.Tztest.Cpu.Kernel.Passes.{el1_check_fp_trap-passes}
use qemu_tztest.El3.{Reg, currentel, cptr_el3, cpacr_el1, scr_el3, sctlr_el1, sder32_el3, Regs}
use qemu_tztest.El3.Examples.{plain, plain-reads, desc, no_svc}
use qemu_tztest.El1.{El1State}
use qemu_tztest.El1.Start.{map_shared}
use qemu_tztest.El1.Start.Shared.{Shares, map_shared-Shares}
use qemu_tztest.Mem64.Examples.{boot-IsMapped, pool_end}
use qemu_tztest.System.Examples.{world}
use qemu_tztest.System.Machine.{
  view_of, user_reg_route, kernel_reg_route, cpu_at, svc_at, call_monitor,
}
use qemu_tztest.System.Machine.Registers.{Stores}
use qemu_tztest.System.Machine.Traps.{user-Executes, kernel-Executes, block-Shows}
use qemu_tztest.System.Machine.UserTests.{svc_at-Serves}
use qemu_tztest.System.Machine.KernelTests.{buf, set_buf, call_monitor-Serves}
use qemu_tztest.System.Machine.UserRuns.{user_run, user_run-passes}

plain-others : (r q : Reg) (x : ℕ) (regs : Regs) → q ≢ r → plain r x regs q ≡ regs q
unfolding plain
plain-others currentel currentel x regs ne = absurd (ne refl)
plain-others cptr_el3 cptr_el3 x regs ne = absurd (ne refl)
plain-others cpacr_el1 cpacr_el1 x regs ne = absurd (ne refl)
plain-others scr_el3 scr_el3 x regs ne = absurd (ne refl)
plain-others sctlr_el1 sctlr_el1 x regs ne = absurd (ne refl)
plain-others sder32_el3 sder32_el3 x regs ne = absurd (ne refl)
plain-others _ _ x regs ne = refl

pub plain-Stores : Stores plain
plain-Stores = record { reads_back = plain-reads; keeps = plain-others }

pub no_svc1 : ℕ → Desc → El1State → Option (Desc × El1State)
no_svc1 op d s = none

pub no_turn : ℕ → El1State → Option (ℕ × El1State)
no_turn op s = none

abbrev junk_stack : Desc
junk_stack = desc 7 7 7 7 7

-- The WFx tests of the nonsecure user program.
user_run-passes_example :
    Ends view_of
      (user_run plain [] no_svc no_turn junk_stack 2 0x80 1 2 3 [] no_svc1 plain-Stores 1 4 0 1 0
        world)
      (passes 6 (view_of world))
user_run-passes_example =
    user_run-passes plain [] no_svc no_turn junk_stack 2 0x80 1 2 3 [] no_svc1 plain-Stores 1 4 0
      world (view_of world) (omega arith) (omega arith) refl (refl, refl) refl refl

el0_check_wfx_trap-passes_example :
    Ends view_of
      (el0_check_wfx_trap
        (cpu_at plain [] no_svc [] no_svc1 no_turn junk_stack 2 0x80 1 2 3 user_route
          user_reg_route)
        (svc_at plain [] no_svc [] no_svc1 no_turn junk_stack 2 0x80 1 2 3)
        junk_stack
        0
        world)
      (passes 6 (view_of world))
el0_check_wfx_trap-passes_example =
    el0_check_wfx_trap-passes view_of
      (cpu_at plain [] no_svc [] no_svc1 no_turn junk_stack 2 0x80 1 2 3 user_route user_reg_route)
      (svc_at plain [] no_svc [] no_svc1 no_turn junk_stack 2 0x80 1 2 3) junk_stack block-Shows
      (user-Executes plain [] no_svc no_turn junk_stack 2 0x80 1 2 3 [] no_svc1)
      (svc_at-Serves plain [] no_svc no_turn junk_stack 2 0x80 1 2 3 [] no_svc1 plain-Stores) 0
      world (view_of world) refl

el0_check_fp_trap-passes_example :
    Ends view_of
      (el0_check_fp_trap
        (cpu_at plain [] no_svc [] no_svc1 no_turn junk_stack 2 0x80 1 2 3 user_route
          user_reg_route)
        (svc_at plain [] no_svc [] no_svc1 no_turn junk_stack 2 0x80 1 2 3)
        junk_stack
        0
        world)
      (passes 6 (view_of world))
el0_check_fp_trap-passes_example =
    el0_check_fp_trap-passes view_of
      (cpu_at plain [] no_svc [] no_svc1 no_turn junk_stack 2 0x80 1 2 3 user_route user_reg_route)
      (svc_at plain [] no_svc [] no_svc1 no_turn junk_stack 2 0x80 1 2 3) junk_stack block-Shows
      (user-Executes plain [] no_svc no_turn junk_stack 2 0x80 1 2 3 [] no_svc1)
      (svc_at-Serves plain [] no_svc no_turn junk_stack 2 0x80 1 2 3 [] no_svc1 plain-Stores) 0
      world (view_of world) refl (refl, refl) refl refl

el1_check_fp_trap-passes_example :
    Ends view_of
      (el1_check_fp_trap
        (cpu_at plain [] no_svc [] no_svc1 no_turn junk_stack 2 0x80 1 2 3 kernel_route
          kernel_reg_route)
        buf
        set_buf
        (call_monitor plain [] no_svc [] no_svc1 no_turn junk_stack 2 0x80 1 2 3)
        0
        world)
      (passes 6 (view_of world))
el1_check_fp_trap-passes_example =
    el1_check_fp_trap-passes view_of
      (cpu_at plain [] no_svc [] no_svc1 no_turn junk_stack 2 0x80 1 2 3 kernel_route
        kernel_reg_route)
      buf set_buf (call_monitor plain [] no_svc [] no_svc1 no_turn junk_stack 2 0x80 1 2 3)
      block-Shows (kernel-Executes plain [] no_svc no_turn junk_stack 2 0x80 1 2 3 [] no_svc1)
      (call_monitor-Serves plain [] no_svc no_turn junk_stack 2 0x80 1 2 3 [] no_svc1 plain-Stores)
      0 world (view_of world) refl (refl, refl) refl refl

-- A kernel that is handed a control block at physical page 0x5000.
map_shared-Shares_example : Shares 1 pool_end 0x80000 0x5000123 world (map_shared 2 0x5000123 world)
map_shared-Shares_example =
    map_shared-Shares 0 0x80000 0x5000123 world boot-IsMapped refl (omega arith) (omega arith)
      (omega arith) (omega arith) (λ p. omega (arith, p)) (omega arith)
