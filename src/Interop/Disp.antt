-- ===== src/Interop/Disp.antt =====
-- `op_dispatch_t` of common/interop.h, as a member of the descriptor unions.
use qemu_tztest.Common.{ℕ}
use qemu_tztest.Interop.{Desc, low, set_low}

abbrev pub fid : Desc → ℕ
fid d = low d.w0

abbrev pub set_fid : ℕ → Desc → Desc
set_fid x d = record d { w0 = set_low d.w0 x }

abbrev pub arg : Desc → ℕ
arg d = d.w1

abbrev pub set_arg : ℕ → Desc → Desc
set_arg x d = record d { w1 = x }

abbrev pub state : Desc → ℕ
state d = d.w2

abbrev pub set_state : ℕ → Desc → Desc
set_state x d = record d { w2 = x }

abbrev pub el : Desc → ℕ
el d = d.w3

abbrev pub set_el : ℕ → Desc → Desc
set_el x d = record d { w3 = x }

abbrev pub ret : Desc → ℕ
ret d = d.w4

abbrev pub set_ret : ℕ → Desc → Desc
set_ret x d = record d { w4 = x }
