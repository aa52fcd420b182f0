-- ===== src/Interop/MapMem.antt =====
-- `op_map_mem_t` of common/interop.h, as a member of the descriptor unions.
use qemu_tztest.Common.{ℕ}
use qemu_tztest.Interop.{Desc, low, set_low}

abbrev pub type : Desc → ℕ
type d = low d.w0

abbrev pub set_type : ℕ → Desc → Desc
set_type x d = record d { w0 = set_low d.w0 x }

abbrev pub len : Desc → ℕ
len d = d.w1

abbrev pub set_len : ℕ → Desc → Desc
set_len x d = record d { w1 = x }

abbrev pub va : Desc → ℕ
va d = d.w2

abbrev pub set_va : ℕ → Desc → Desc
set_va x d = record d { w2 = x }

abbrev pub pa : Desc → ℕ
pa d = d.w3

abbrev pub set_pa : ℕ → Desc → Desc
set_pa x d = record d { w3 = x }

-- `memcpy(dest, src, sizeof(op_map_mem_t))`: 32 of the 40 bytes.
abbrev pub copy : Desc → Desc → Desc
copy dest src = record dest { w0 = src.w0; w1 = src.w1; w2 = src.w2; w3 = src.w3 }
