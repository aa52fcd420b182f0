-- ===== src/System/Machine/Traps.antt =====
-- Traps through the exception handlers of both levels: logged, and stepped over if skipping is on.
use mathlib.Core.Path.{subst}
use qemu_tztest.Common.{
  ℕ, ◌+◌, ◌≡◌, refl, arith, ap, ◌∙◌, sym, Bool, true, ◌&&◌, ◌||◌, Option, none, some, List,
  Bool-cases, inl, inr, ◌==◌, ==_iff, u64,
}
use qemu_tztest.Interop.{Desc, ec_unknown, ec_wfi_wfe, ec_simd, ec_sysinsn, excp_action_skip}
use qemu_tztest.Tztest.Run.{TestFn}
use qemu_tztest.Tztest.Cpu.{Cpu, Insn, smc, wfe, wfi, fcmp}
use qemu_tztest.Tztest.Cpu.Trace.{View, Route, user_route, kernel_route, Traps, Shows}
use qemu_tztest.Tztest.Cpu.Steps.{Executes}
use qemu_tztest.El3.{Reg, Regs, El3State, log_exception, is_skippable, el3_handle_exception}
use qemu_tztest.El1.{El1State, el1_handle_exception, is_el1_skippable}
use qemu_tztest.System.Machine.{
  view_of, user_reg_route, kernel_reg_route, enter, leave, block, trap_to_el3, trap_to_el1, trap,
  exec_at, cpu_at,
}

-- The exceptions that the handler of a level steps over.
abbrev pub is_stepped : (ec el : ℕ) → Bool
is_stepped ec el =
    ((el == 1) && ((ec == ec_unknown) || (ec == ec_wfi_wfe) || (ec == ec_simd)))
    || ((el == 3) && ((ec == ec_sysinsn) || (ec == ec_wfi_wfe) || (ec == ec_simd)))

user_route-is_stepped :
    (i : Insn) (v : View) (ec el : ℕ) → user_route i v ≡ some (ec, el) → is_stepped ec el ≡ true
user_route-is_stepped smc v ec el h = ground arith
user_route-is_stepped wfe v ec el h = ground arith
user_route-is_stepped wfi v ec el h = ground arith
user_route-is_stepped fcmp v ec el h = ground arith

kernel_route-is_stepped :
    (i : Insn) (v : View) (ec el : ℕ) → kernel_route i v ≡ some (ec, el) → is_stepped ec el ≡ true
kernel_route-is_stepped smc v ec el h = ground arith
kernel_route-is_stepped wfe v ec el h = ground arith
kernel_route-is_stepped wfi v ec el h = ground arith
kernel_route-is_stepped fcmp v ec el h = ground arith

module _ (msr : Reg → ℕ → Regs → Regs) (tests3 : List (Option (TestFn El3State)))
    (svc3 : ℕ → Desc → El3State → Option (Desc × El3State))
    (other : ℕ → El1State → Option (ℕ × El1State)) (stack : Desc) (fuel pc iss far junk : ℕ)
    (tests1 : List (Option (TestFn El1State)))
    (svc1 : ℕ → Desc → El1State → Option (Desc × El1State)) where
  abbrev trap_here : (ec el : ℕ) → El1State → Option El1State
  trap_here = trap msr tests3 svc3 tests1 svc1 other stack fuel pc iss far junk

  next : (u64 (pc + 4) == u64 (pc + 4)) ≡ true
  next = (==_iff (u64 (pc + 4)) (u64 (pc + 4))).1 refl

  stepped_el3 :
      (ec : ℕ) (s : El1State)
      → s.syscntl.excp.action ≡ excp_action_skip
      → is_stepped ec 3 ≡ true
      → trap_to_el3 msr tests3 svc3 tests1 svc1 other stack fuel pc iss far junk ec s
        ≡ some (
            leave
              (record (enter s) {
                elr = u64 (pc + 4);
                syscntl = log_exception ec iss far 3 0 s.syscntl;
              })
              s)
  unfolding trap_to_el3 el3_handle_exception is_skippable
  stepped_el3 ec s skip stepped = ground (arith, next)

  stepped_el1 :
      (ec : ℕ) (s : El1State)
      → s.syscntl.excp.action ≡ excp_action_skip
      → is_stepped ec 1 ≡ true
      → trap_to_el1 msr tests3 svc3 tests1 svc1 other stack fuel pc iss far junk ec s
        ≡ some (record s {
          elr = u64 (pc + 4);
          syscntl = log_exception ec iss far 1 s.secure_state s.syscntl;
        })
  unfolding trap_to_el1 el1_handle_exception is_el1_skippable
  stepped_el1 ec s skip stepped = ground (arith, next)

  trap-Traps_here :
      (ec el : ℕ) (s : El1State)
      → s.syscntl.excp.action ≡ excp_action_skip
      → is_stepped ec el ≡ true
      → Traps view_of (trap_here ec el s) ec el (view_of s)
  unfolding trap
  trap-Traps_here ec el s skip stepped = elim (Bool-cases (el == 3)) [
    | inl e ↦
        let three : el ≡ 3 = (==_iff el 3).0 e in
        let ok : is_stepped ec 3 ≡ true = ap (is_stepped ec) (sym three) ∙ stepped in
        (
          leave
              (record (enter s) {
                elr = u64 (pc + 4);
                syscntl = log_exception ec iss far 3 0 s.syscntl;
              })
              s,
          iss,
          far,
          0,
          rw (e) (stepped_el3 ec s skip ok),
          rw three,
        )
    | inr ne ↦
        let one : el ≡ 1 = ground arith in
        let ok : is_stepped ec 1 ≡ true = ap (is_stepped ec) (sym one) ∙ stepped in
        (
          record s {
            elr = u64 (pc + 4);
            syscntl = log_exception ec iss far 1 s.secure_state s.syscntl;
          },
          iss,
          far,
          s.secure_state,
          rw ne (stepped_el1 ec s skip ok),
          rw one,
        )
  ]

  -- An exception that its level steps over is logged there and changes nothing else in view.
  pub trap-Traps :
      (ec el : ℕ) (s : El1State) (v : View)
      → view_of s ≡ v
      → v.block.excp.action ≡ excp_action_skip
      → is_stepped ec el ≡ true
      → Traps view_of (trap_here ec el s) ec el v
  trap-Traps ec el s v at skip stepped =
      subst (λ w. Traps view_of (trap_here ec el s) ec el w) at
        (trap-Traps_here ec el s (ap (λ (w : View). w.block.excp.action) at ∙ skip) stepped)

  module _ (route : Insn → View → Route) (reg_route : Reg → View → Route)
      (route-is_stepped : (i : Insn) (v : View) (ec el : ℕ)
        → route i v ≡ some (ec, el)
        → is_stepped ec el ≡ true) where
    abbrev cpu : Cpu El1State
    cpu = cpu_at msr tests3 svc3 tests1 svc1 other stack fuel pc iss far junk route reg_route

    pub cpu_at-Executes : Executes view_of cpu.exec route
    unfolding exec_at
    cpu_at-Executes = record {
      trapped = λ i ec el s v at skip routed.
          let here : route i (view_of s) ≡ some (ec, el) = ap (route i) at ∙ routed in
          rw here (trap-Traps ec el s v at skip (route-is_stepped i v ec el routed));
      executed = λ i s v at routed.
          let here : route i (view_of s) ≡ none = ap (route i) at ∙ routed in (s, rw here, at);
    }

  pub user-Executes :
      Executes view_of
        (cpu_at msr tests3 svc3 tests1 svc1 other stack fuel pc iss far junk user_route
          user_reg_route).exec
        user_route
  user-Executes = cpu_at-Executes user_route user_reg_route user_route-is_stepped

  pub kernel-Executes :
      Executes view_of
        (cpu_at msr tests3 svc3 tests1 svc1 other stack fuel pc iss far junk kernel_route
          kernel_reg_route).exec
        kernel_route
  kernel-Executes = cpu_at-Executes kernel_route kernel_reg_route kernel_route-is_stepped

pub block-Shows : Shows view_of block
block-Shows = record { control = λ s. refl; put = λ c s. refl }
