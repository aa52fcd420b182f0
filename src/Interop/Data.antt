-- ===== src/Interop/Data.antt =====
-- `op_data_t` of common/interop.h: the members `get` and `set` of the descriptor unions.
use qemu_tztest.Common.{ℕ}
use qemu_tztest.Interop.{Desc, low, set_low}

abbrev pub key : Desc → ℕ
key d = d.w0

abbrev pub set_key : ℕ → Desc → Desc
set_key x d = record d { w0 = x }

abbrev pub value : Desc → ℕ
value d = d.w1

abbrev pub set_value : ℕ → Desc → Desc
set_value x d = record d { w1 = x }

abbrev pub el : Desc → ℕ
el d = low d.w2

abbrev pub set_el : ℕ → Desc → Desc
set_el x d = record d { w2 = set_low d.w2 x }
