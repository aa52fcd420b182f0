-- ===== src/Tztest/Cpu/Masks.antt =====
-- The control bits that the tests set and clear, and where the instructions trap to then.
use qemu_tztest.Common.{ℕ, ◌+◌, ◌≡◌, ◌<◌, arith, none, some, bit_and, bit_or}
use qemu_tztest.Bits.Fields.{bit, bit-and, bit-or}
use qemu_tztest.Interop.{ec_wfi_wfe, ec_simd}
use qemu_tztest.Tztest.Cpu.{
  fcmp, scr_twi, scr_twe, not_scr_twe, sctlr_ntwi, not_sctlr_ntwi, sctlr_ntwe, not_sctlr_ntwe,
  cptr_tfp, not_cptr_tfp, cptr_tcpac, cpacr_fpen3, not_cpacr_fpen3, not_cpacr_fpen2,
  not_cpacr_fpen1,
}
use qemu_tztest.Tztest.Cpu.Trace.{View, wait_route, user_route, kernel_route}

pub wait_route-el1 : (n t : ℕ) → n ≡ 0 → wait_route n t ≡ some (ec_wfi_wfe, 1)
wait_route-el1 n t e = rw e

pub wait_route-el3 : (n t : ℕ) → n ≡ 1 → t ≡ 1 → wait_route n t ≡ some (ec_wfi_wfe, 3)
wait_route-el3 n t e f = rw (e, f)

pub wait_route-none : (n t : ℕ) → n ≡ 1 → t ≡ 0 → wait_route n t ≡ none
wait_route-none n t e f = rw (e, f)

pub ntwe_clear : (x : ℕ) → bit 18 (bit_and x not_sctlr_ntwe) ≡ 0
ntwe_clear x = omega (arith, bit-and 18 x not_sctlr_ntwe)

pub ntwe_set : (x : ℕ) → bit 18 (bit_or x sctlr_ntwe) ≡ 1
ntwe_set x = omega (arith, bit-or 18 x sctlr_ntwe)

pub ntwi_clear : (x : ℕ) → bit 16 (bit_and x not_sctlr_ntwi) ≡ 0
ntwi_clear x = omega (arith, bit-and 16 x not_sctlr_ntwi)

pub ntwi_set : (x : ℕ) → bit 16 (bit_or x sctlr_ntwi) ≡ 1
ntwi_set x = omega (arith, bit-or 16 x sctlr_ntwi)

pub twe_set : (x : ℕ) → bit 13 (bit_or x scr_twe) ≡ 1
twe_set x = omega (arith, bit-or 13 x scr_twe)

pub twe_clear : (x : ℕ) → bit 13 (bit_and x not_scr_twe) ≡ 0
twe_clear x = omega (arith, bit-and 13 x not_scr_twe)

pub twi_set : (x : ℕ) → bit 12 (bit_or x scr_twi) ≡ 1
twi_set x = omega (arith, bit-or 12 x scr_twi)

pub tcpac_set : (x : ℕ) → bit 31 (bit_or x cptr_tcpac) ≡ 1
tcpac_set x = omega (arith, bit-or 31 x cptr_tcpac)

pub tfp_set : (x : ℕ) → bit 10 (bit_or x cptr_tfp) ≡ 1
tfp_set x = omega (arith, bit-or 10 x cptr_tfp)

pub tfp_clear : (x : ℕ) → bit 10 (bit_and x not_cptr_tfp) ≡ 0
tfp_clear x = omega (arith, bit-and 10 x not_cptr_tfp)

-- Clearing or setting TFP leaves TCPAC as it is.
pub tfp_clear-tcpac : (x : ℕ) → bit 31 (bit_and x not_cptr_tfp) ≡ bit 31 x
tfp_clear-tcpac x = omega (arith, bit-and 31 x not_cptr_tfp)

pub tfp_set-tcpac : (x : ℕ) → bit 31 (bit_or x cptr_tfp) ≡ bit 31 x
tfp_set-tcpac x = omega (arith, bit-or 31 x cptr_tfp)

-- The two bits of CPACR.FPEN.
abbrev pub Fpen : (low high x : ℕ) → Type 0
Fpen low high x = (bit 20 x ≡ low) × (bit 21 x ≡ high)

pub fpen3_set : (x : ℕ) → Fpen 1 1 (bit_or x cpacr_fpen3)
fpen3_set x = (omega (arith, bit-or 20 x cpacr_fpen3), omega (arith, bit-or 21 x cpacr_fpen3))

pub fpen3_clear : (x : ℕ) → Fpen 0 0 (bit_and x not_cpacr_fpen3)
fpen3_clear x =
    (omega (arith, bit-and 20 x not_cpacr_fpen3), omega (arith, bit-and 21 x not_cpacr_fpen3))

-- From an FPEN of 3, clearing 2 leaves 1, and clearing 1 leaves 2.
pub fpen2_clear : (x : ℕ) → Fpen 1 1 x → Fpen 1 0 (bit_and x not_cpacr_fpen2)
fpen2_clear x h =
    (omega (arith, bit-and 20 x not_cpacr_fpen2), omega (arith, bit-and 21 x not_cpacr_fpen2))

pub fpen1_clear : (x : ℕ) → Fpen 1 1 x → Fpen 0 1 (bit_and x not_cpacr_fpen1)
fpen1_clear x h =
    (omega (arith, bit-and 20 x not_cpacr_fpen1), omega (arith, bit-and 21 x not_cpacr_fpen1))

pub user_route-Fpen :
    (v : View) (low high : ℕ)
    → Fpen low high v.cpacr
    → low + high < 2
    → user_route fcmp v ≡ some (ec_simd, 1)
user_route-Fpen v low high (e, f) h = ground arith

pub user_route-tfp :
    (v : View) → Fpen 1 1 v.cpacr → bit 10 v.cptr ≡ 1 → user_route fcmp v ≡ some (ec_simd, 3)
user_route-tfp v (e, f) h = rw (e, f, h)

pub user_route-fp : (v : View) → Fpen 1 1 v.cpacr → bit 10 v.cptr ≡ 0 → user_route fcmp v ≡ none
user_route-fp v (e, f) h = rw (e, f, h)

pub kernel_route-fpen : (v : View) → bit 20 v.cpacr ≡ 0 → kernel_route fcmp v ≡ some (ec_simd, 1)
kernel_route-fpen v e = rw e

pub kernel_route-tfp :
    (v : View) → bit 20 v.cpacr ≡ 1 → bit 10 v.cptr ≡ 1 → kernel_route fcmp v ≡ some (ec_simd, 3)
kernel_route-tfp v e h = rw (e, h)

pub kernel_route-fp :
    (v : View) → bit 20 v.cpacr ≡ 1 → bit 10 v.cptr ≡ 0 → kernel_route fcmp v ≡ none
kernel_route-fp v e h = rw (e, h)
