-- ===== src/Bits/Masks.antt =====
-- A register with the bit 6 or the bit 8 set, as arithmetic.
use Prim.Native.Nat.{bit_and-bitwise}
use qemu_tztest.Common.{ℕ, ◌+◌, ◌*◌, ◌-◌, ◌/◌, ◌%◌, ◌≡◌, refl, arith, bit_and, bit_or}
use qemu_tztest.Bits.{bit_or-zero, bit_and-zero}
use qemu_tztest.Bits.Digits.{bit_or-digit, bit_and-digit}

set_bit2 : (x : ℕ) → bit_or x 4 ≡ x + 4 * (1 - x / 4 % 2)
set_bit2 x = omega (
  arith,
  bit_or-digit x 4,
  bit_or-digit (x / 2) 2,
  bit_or-digit (x / 2 / 2) 1,
  bit_or-zero (x / 2 / 2 / 2),
)

set_bit4 : (x : ℕ) → bit_or x 16 ≡ x + 16 * (1 - x / 16 % 2)
set_bit4 x = omega (arith, bit_or-digit x 16, bit_or-digit (x / 2) 8, set_bit2 (x / 2 / 2))

pub set_bit6 : (x : ℕ) → bit_or x 64 ≡ x + 64 * (1 - x / 64 % 2)
set_bit6 x = omega (arith, bit_or-digit x 64, bit_or-digit (x / 2) 32, set_bit4 (x / 2 / 2))

pub set_bit8 : (x : ℕ) → bit_or x 256 ≡ x + 256 * (1 - x / 256 % 2)
set_bit8 x = omega (arith, bit_or-digit x 256, bit_or-digit (x / 2) 128, set_bit6 (x / 2 / 2))

-- The same of masks of single bits, and of the three bits 1, 2 and 4.
zero-bit_and : (x : ℕ) → bit_and 0 x ≡ 0
zero-bit_and x = simp bit_and-bitwise refl

take_bit2 : (x : ℕ) → bit_and 4 x ≡ x / 4 % 2 * 4
take_bit2 x = omega (
  arith,
  bit_and-digit 4 x,
  bit_and-digit 2 (x / 2),
  bit_and-digit 1 (x / 2 / 2),
  zero-bit_and (x / 2 / 2 / 2),
)

take_bit4 : (x : ℕ) → bit_and 16 x ≡ x / 16 % 2 * 16
take_bit4 x = omega (arith, bit_and-digit 16 x, bit_and-digit 8 (x / 2), take_bit2 (x / 2 / 2))

pub take_bit6 : (x : ℕ) → bit_and 64 x ≡ x / 64 % 2 * 64
take_bit6 x = omega (arith, bit_and-digit 64 x, bit_and-digit 32 (x / 2), take_bit4 (x / 2 / 2))

pub take_bit7 : (x : ℕ) → bit_and 128 x ≡ x / 128 % 2 * 128
take_bit7 x = omega (arith, bit_and-digit 128 x, take_bit6 (x / 2))

pub take_bit8 : (x : ℕ) → bit_and 256 x ≡ x / 256 % 2 * 256
take_bit8 x = omega (arith, bit_and-digit 256 x, take_bit7 (x / 2))

pub take_bits124 : (x : ℕ) → bit_and x 0x16 ≡ x / 16 % 2 * 16 + x / 4 % 2 * 4 + x / 2 % 2 * 2
take_bits124 x = omega (
  arith,
  bit_and-digit x 0x16,
  bit_and-digit (x / 2) 11,
  bit_and-digit (x / 2 / 2) 5,
  bit_and-digit (x / 2 / 2 / 2) 2,
  bit_and-digit (x / 2 / 2 / 2 / 2) 1,
  bit_and-zero (x / 2 / 2 / 2 / 2 / 2),
)
