-- ===== src/El3/Exception.antt =====
-- The exception handler of el3/el3.c, branch by branch.
use qemu_tztest.Common.{ℕ, ◌+◌, ◌≡◌, arith, Bool, true, ◌||◌, ◌&&◌, ◌==◌, if◌then◌else◌, u32, u64}
use qemu_tztest.Interop.{
  SysControl, excp_action_skip, ec_smc64, ec_smc32, ec_sysinsn, ec_wfi_wfe, ec_simd,
}
use qemu_tztest.El3.{
  El3State, el3, el3_shutdown, sys_shutdown, log_exception, is_skippable, el3_handle_exception,
}

-- The exceptions that end in a return to the interrupted code.
abbrev pub is_survivable : ℕ → Bool
is_survivable ec =
    (ec == ec_smc64)
    || (ec == ec_smc32)
    || (ec == ec_sysinsn)
    || (ec == ec_wfi_wfe)
    || (ec == ec_simd)

-- The instruction at fault is stepped over.
abbrev pub is_skipped : ℕ → SysControl → Bool
is_skipped ec c =
    ((ec == ec_sysinsn) || (ec == ec_wfi_wfe) || (ec == ec_simd))
    && (c.excp.action == excp_action_skip)

-- `el3_handle_exception` returns to the next instruction exactly for a trapped system instruction,
-- WFI, WFE or SIMD access while skipping is on, and to the same address otherwise; it shuts the machine
-- down exactly for every other class than these and SMC; it logs the exception, with the level EL3 and
-- state 0, exactly if logging is on; and it changes nothing else.
pub el3_handle_exception_lem :
    (ec iss far elr : ℕ) (s : El3State)
    → el3_handle_exception ec iss far elr s ≡ record s {
      elr = if is_skipped ec s.syscntl then u64 (elr + 4) else elr;
      cfgctrl = if is_survivable ec then s.cfgctrl else sys_shutdown;
      syscntl = record s.syscntl {
        excp =
            if s.syscntl.excp.log
            then record s.syscntl.excp {
              taken = true;
              ec = u32 ec;
              iss = u32 iss;
              far = u32 far;
              el = el3;
              state = 0;
            }
            else s.syscntl.excp;
      };
    }
unfolding el3_handle_exception log_exception el3_shutdown is_skippable
el3_handle_exception_lem ec iss far elr s = ground arith
