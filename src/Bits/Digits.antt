-- ===== src/Bits/Digits.antt =====
-- `|` and `&` of the kernel's numbers are `bitwise`, which recurs on binary digits with fuel; one
-- equation each for the lowest digit, with the fuel gone.
use Prim.Native.Nat.{digits, bitwise, bit_and-bitwise, bit_or-bitwise}
use native.Mathlib.Nat.{le_refl}
use qemu_tztest.Common.{
  ℕ, zero, suc, ◌+◌, ◌*◌, ◌/◌, ◌%◌, ◌≤◌, ◌≡◌, refl, arith, min, max, bit_and, bit_or,
}

module _ (base : ℕ → ℕ) (op : ℕ → ℕ → ℕ) where
  enough : (f g a b : ℕ) → a ≤ f → a ≤ g → digits base op f a b ≡ digits base op g a b
  enough zero zero a b p q = refl
  enough zero (suc g) zero b p q = refl
  enough zero (suc g) (suc a) b p q = absurd (omega arith)
  enough (suc f) zero zero b p q = refl
  enough (suc f) zero (suc a) b p q = absurd (omega arith)
  enough (suc f) (suc g) zero b p q = refl
  enough (suc f) (suc g) (suc a) b p q =
      rw (enough f g (suc a / 2) (b / 2) (omega arith) (omega arith))

  low_digit :
      (a b : ℕ)
      → bitwise base op (suc a) b ≡ bitwise base op (suc a / 2) (b / 2) * 2 + op (suc a % 2) (b % 2)
  low_digit a b = omega (arith, enough a (suc a / 2) (suc a / 2) (b / 2) (omega arith) (le_refl _))

pub bit_or-digit : (a b : ℕ) → bit_or a b ≡ bit_or (a / 2) (b / 2) * 2 + max (a % 2) (b % 2)
bit_or-digit zero b = simp bit_or-bitwise (omega arith)
bit_or-digit (suc a) b = simp bit_or-bitwise (low_digit (λ y. y) max a b)

pub bit_and-digit : (a b : ℕ) → bit_and a b ≡ bit_and (a / 2) (b / 2) * 2 + min (a % 2) (b % 2)
bit_and-digit zero b = simp bit_and-bitwise (omega arith)
bit_and-digit (suc a) b = simp bit_and-bitwise (low_digit (λ y. 0) min a b)
