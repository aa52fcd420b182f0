-- ===== src/Interop/Alloc.antt =====
-- `op_alloc_mem_t` of common/interop.h, as a member of the descriptor unions.
use qemu_tztest.Common.{ℕ}
use qemu_tztest.Interop.{Desc, low, set_low}

abbrev pub type : Desc → ℕ
type d = low d.w0

abbrev pub set_type : ℕ → Desc → Desc
set_type x d = record d { w0 = set_low d.w0 x }

abbrev pub len : Desc → ℕ
len d = d.w1

abbrev pub set_len : ℕ → Desc → Desc
set_len x d = record d { w1 = x }

abbrev pub addr : Desc → ℕ
addr d = d.w2

abbrev pub set_addr : ℕ → Desc → Desc
set_addr x d = record d { w2 = x }
