-- ===== src/El3/Start.antt =====
-- The start of EL3: el3_start and el3_monitor_init of el3/el3.c.
pub mod Boot
pub mod Examples
use qemu_tztest.Common.{ℕ, Option, some, ◌>>=◌}
use qemu_tztest.Mem64.{MemState, update, page_size, mem_heap_allocate, mem_lookup_pa}
use qemu_tztest.Mem64.Unmap.{unmap_segment}
use qemu_tztest.Interop.{SysControl}

-- `state_buf` of aarch64/el3_monitor.h: its 57 words by index.
abbrev pub StateBuf : Type 0
StateBuf = ℕ → ℕ

abbrev pub state_elr_el3 : ℕ
state_elr_el3 = 0

abbrev pub state_spsr_el3 : ℕ
state_spsr_el3 = 1

abbrev pub state_spsel : ℕ
state_spsel = 6

-- `reg[0]`, which holds X4.
abbrev pub state_reg0 : ℕ
state_reg0 = 30

-- `SPSR_EL1`: PSTATE_EL_EL1T.
abbrev pub spsr_el1 : ℕ
spsr_el1 = 5

pub record Start : Type 0 where
  pub mm : MemState
  pub sec_state : StateBuf
  pub nsec_state : StateBuf
  -- The address in `syscntl` and the control block behind it.
  pub syscntl : ℕ
  pub block : SysControl
  pub smc_interop_buf : ℕ

abbrev pub set_reg : ℕ → ℕ → StateBuf → StateBuf
set_reg i x b = update b i x

-- `memset` clears a buffer; the fields that are set follow.
unfoldable pub el3_monitor_init : (ns_flash_base : ℕ) → Start → Start
el3_monitor_init ns_flash_base s =
    let syscntl_pa = mem_lookup_pa s.syscntl s.mm in
    record s {
      sec_state = set_reg state_reg0 syscntl_pa (set_reg state_spsel 1 (λ i. 0));
      nsec_state = set_reg state_reg0 syscntl_pa (
          set_reg state_spsel 1
            (set_reg state_spsr_el3 spsr_el1 (set_reg state_elr_el3 ns_flash_base (λ i. 0))));
    }

-- The return from the exception: where to, with which SPSR and with which registers restored.
pub record Return : Type 0 where
  pub elr : ℕ
  pub spsr : ℕ
  pub regs : StateBuf

unfoldable pub el3_start :
    (depth s_flash_base ns_flash_base base size : ℕ) → Start → Option (Return × Start)
unfolding el3_monitor_init
el3_start depth s_flash_base ns_flash_base base size s = do
  m1 ← unmap_segment base size s.mm
  (syscntl, m2) ← mem_heap_allocate depth page_size m1
  (buf, m3) ← mem_heap_allocate depth page_size m2
  let block = record s.block { buf_va = buf; buf_pa = mem_lookup_pa buf m3 }
  let s' =
      el3_monitor_init ns_flash_base
        (record s { mm = m3; syscntl = syscntl; block = block; smc_interop_buf = buf })
  some (record { elr = s_flash_base; spsr = spsr_el1; regs = s'.sec_state }, s')
