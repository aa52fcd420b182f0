-- ===== src/Interop.antt =====
-- common/interop.h, smc.h, svc.h, state.h, syscntl.h: the descriptors that the exception levels
-- exchange, the operation codes and the shared control block. AArch64 layout.
-- `op_test_t`: orig, val, count and fail.
pub mod Test
-- `op_data_t`: key, data and el.
pub mod Data
-- `op_dispatch_t`: fid, arg, state, el and ret.
pub mod Disp
-- `op_map_mem_t`: type, len, va and pa.
pub mod MapMem
-- `op_alloc_mem_t`: type, len and addr.
pub mod Alloc
use qemu_tztest.Common.{ℕ, ◌+◌, ◌*◌, ◌/◌, ◌%◌, ◌^◌, Bool, u32}

-- `smc_op_desc_t` and `svc_op_desc_t` are unions of 40 bytes at most; a value is its five 8-byte
-- words, little endian, so that a write through one member is seen through the others.
pub record Desc : Type 0 where
  pub w0 : ℕ
  pub w1 : ℕ
  pub w2 : ℕ
  pub w3 : ℕ
  pub w4 : ℕ

-- The halves of a word.
abbrev pub low : ℕ → ℕ
low w = w % 2 ^ 32

abbrev pub high : ℕ → ℕ
high w = w / 2 ^ 32 % 2 ^ 32

abbrev pub set_low : ℕ → ℕ → ℕ
set_low w x = high w * 2 ^ 32 + u32 x

abbrev pub set_high : ℕ → ℕ → ℕ
set_high w x = u32 x * 2 ^ 32 + low w

-- common/smc.h
abbrev pub smc_op_noop : ℕ
smc_op_noop = 0

abbrev pub smc_op_yield : ℕ
smc_op_yield = 1

abbrev pub smc_op_exit : ℕ
smc_op_exit = 2

abbrev pub smc_op_map : ℕ
smc_op_map = 3

abbrev pub smc_op_get_reg : ℕ
smc_op_get_reg = 4

abbrev pub smc_op_set_reg : ℕ
smc_op_set_reg = 5

abbrev pub smc_op_test : ℕ
smc_op_test = 6

abbrev pub smc_op_dispatch : ℕ
smc_op_dispatch = 7

-- common/svc.h
abbrev pub svc_op_yield : ℕ
svc_op_yield = 1

abbrev pub svc_op_exit : ℕ
svc_op_exit = 2

abbrev pub svc_op_map : ℕ
svc_op_map = 3

abbrev pub svc_op_get_reg : ℕ
svc_op_get_reg = 4

abbrev pub svc_op_set_reg : ℕ
svc_op_set_reg = 5

abbrev pub svc_op_test : ℕ
svc_op_test = 6

abbrev pub svc_op_dispatch : ℕ
svc_op_dispatch = 7

abbrev pub svc_op_get_syscntl : ℕ
svc_op_get_syscntl = 8

abbrev pub svc_op_alloc : ℕ
svc_op_alloc = 9

-- `op_reg_key_t`.
abbrev pub key_currentel : ℕ
key_currentel = 1

abbrev pub key_cptr_el3 : ℕ
key_cptr_el3 = 2

abbrev pub key_cpacr : ℕ
key_cpacr = 3

abbrev pub key_scr : ℕ
key_scr = 4

abbrev pub key_sctlr : ℕ
key_sctlr = 5

-- The bits of `op_map_mem_t.type`.
abbrev pub op_map_sec_el1 : ℕ
op_map_sec_el1 = 4

abbrev pub op_map_el3 : ℕ
op_map_el3 = 8

abbrev pub op_map_all : ℕ
op_map_all = 15

-- common/state.h
abbrev pub secure : ℕ
secure = 0

abbrev pub nonsecure : ℕ
nonsecure = 1

-- `sys_exception_t`; its numbers are `uint32_t`.
pub record Excp : Type 0 where
  pub ec : ℕ
  pub iss : ℕ
  pub far : ℕ
  pub log : Bool
  pub action : ℕ
  pub taken : Bool
  pub el : ℕ
  pub state : ℕ

abbrev pub excp_action_skip : ℕ
excp_action_skip = 1

-- `test_control_t`, whose counters are `int`: bit patterns below 2 ^ 32.
pub record TestControl : Type 0 where
  pub fail_count : ℕ
  pub test_count : ℕ

-- `sys_control_t`, one block that all levels map; the test counters behind its pointer are kept in it.
pub record SysControl : Type 0 where
  pub buf_pa : ℕ
  pub buf_va : ℕ
  pub excp : Excp
  pub test_cntl : TestControl

-- common/aarch64/exception.h
abbrev pub ec_unknown : ℕ
ec_unknown = 0x00

abbrev pub ec_wfi_wfe : ℕ
ec_wfi_wfe = 0x01

abbrev pub ec_simd : ℕ
ec_simd = 0x07

abbrev pub ec_smc32 : ℕ
ec_smc32 = 0x13

abbrev pub ec_smc64 : ℕ
ec_smc64 = 0x17

abbrev pub ec_sysinsn : ℕ
ec_sysinsn = 0x18

abbrev pub ec_iabort_lower : ℕ
ec_iabort_lower = 0x20

abbrev pub ec_iabort : ℕ
ec_iabort = 0x21

abbrev pub ec_dabort_lower : ℕ
ec_dabort_lower = 0x24

abbrev pub ec_dabort : ℕ
ec_dabort = 0x25
