-- ===== src/Bits/Fields.antt =====
-- Single bits and the two-bit field of a register after masks are applied to it.
use native.Mathlib.Nat.{div-div-eq-div-mul, pow-succ'}
use qemu_tztest.Common.{
  ℕ, zero, suc, ◌/◌, ◌%◌, ◌^◌, ◌≡◌, arith, ap, bit_and, bit_or, ◌∙◌, sym, min, max,
}
use qemu_tztest.Bits.Digits.{bit_or-digit, bit_and-digit}

abbrev pub bit : ℕ → ℕ → ℕ
bit k x = x / 2 ^ k % 2

half_shift : (k a : ℕ) → a / 2 / 2 ^ k ≡ a / 2 ^ suc k
half_shift k a = div-div-eq-div-mul a 2 (2 ^ k) ∙ ap (λ t. a / t) (sym (pow-succ' 2 k))

pub bit_and-shift : (k a b : ℕ) → bit_and a b / 2 ^ k ≡ bit_and (a / 2 ^ k) (b / 2 ^ k)
bit_and-shift zero a b =
    let one : (x : ℕ) → x / 2 ^ 0 ≡ x = λ x. omega arith in rw (one (bit_and a b), one a, one b)
bit_and-shift (suc k) a b =
    let halved : bit_and a b / 2 ≡ bit_and (a / 2) (b / 2) = omega (arith, bit_and-digit a b) in
    sym (half_shift k (bit_and a b))
    ∙ ap (λ t. t / 2 ^ k) halved
    ∙ bit_and-shift k (a / 2) (b / 2)
    ∙ rw (half_shift k a, half_shift k b)

pub bit_or-shift : (k a b : ℕ) → bit_or a b / 2 ^ k ≡ bit_or (a / 2 ^ k) (b / 2 ^ k)
bit_or-shift zero a b =
    let one : (x : ℕ) → x / 2 ^ 0 ≡ x = λ x. omega arith in rw (one (bit_or a b), one a, one b)
bit_or-shift (suc k) a b =
    let halved : bit_or a b / 2 ≡ bit_or (a / 2) (b / 2) = omega (arith, bit_or-digit a b) in
    sym (half_shift k (bit_or a b))
    ∙ ap (λ t. t / 2 ^ k) halved
    ∙ bit_or-shift k (a / 2) (b / 2)
    ∙ rw (half_shift k a, half_shift k b)

-- A bit of `a & b` and of `a | b`.
pub bit-and : (k a b : ℕ) → bit k (bit_and a b) ≡ min (bit k a) (bit k b)
bit-and k a b =
    ap (λ t. t % 2) (bit_and-shift k a b) ∙ omega (arith, bit_and-digit (a / 2 ^ k) (b / 2 ^ k))

pub bit-or : (k a b : ℕ) → bit k (bit_or a b) ≡ max (bit k a) (bit k b)
bit-or k a b =
    ap (λ t. t % 2) (bit_or-shift k a b) ∙ omega (arith, bit_or-digit (a / 2 ^ k) (b / 2 ^ k))
