-- ===== src/Mem64/Decode.antt =====
-- The masks and shifts of mem_util.c in terms of frames and quotients.
use qemu_tztest.Common.{
  ℕ, ◌+◌, ◌-◌, ◌*◌, ◌/◌, ◌%◌, ◌^◌, ◌<◌, ◌≡◌, refl, arith, bit_and, bit_or, ◌==◌,
}
use qemu_tztest.Bits.{bit_or-join, bit_and-mask, bit_and-one, bit_and-high, bit_or-lt, bit_or-odd}
use qemu_tztest.Mem64.{pte_at, pte_off, is_invalid, next_table, pte_table, pte_page, pte_access}
use qemu_tztest.Mem64.Table.{frame, idx, slot}

pub idx-lt : (v i : ℕ) → idx v i < 512
unfolding idx
idx-lt v i = omega arith

-- `pa | off` is a sum, since a table starts on a page boundary.
pub pte_at-slot : (q v i : ℕ) → pte_at (q * 0x1000) v i ≡ slot q v i
unfolding pte_at pte_off idx
pte_at-slot q v i =
    rw (bit_and-mask 9 (v / 2 ^ (39 - i * 9)))
      (bit_or-join 12 q (v / 2 ^ (39 - i * 9) % 512 * 8) (omega arith))

pub is_invalid-even : (e : ℕ) → is_invalid e ≡ (e % 2 == 0)
unfolding is_invalid
is_invalid-even e = rw (bit_and-one e)

pub next_table-frame : (e : ℕ) → next_table e ≡ frame e * 0x1000
unfolding next_table
next_table-frame e = rw (bit_and-high 12 e 0xFFFFFF, bit_and-mask 24 (e / 4096))

-- `paddr & ~0xFFF` rounds a 64-bit address down to its page.
pub page_floor : (p : ℕ) → p < 2 ^ 64 → bit_and p 0xFFFFFFFFFFFFF000 ≡ p / 0x1000 * 0x1000
page_floor p h = rw (bit_and-high 12 p 0xFFFFFFFFFFFFF, bit_and-mask 52 (p / 4096)) (omega arith)

-- A descriptor for frame `n` with attributes `attr` in its low bits.
module _ (n attr : ℕ) (fits : attr < 0x1000) where
  descriptor_sum : bit_or (n * 0x1000) attr ≡ n * 0x1000 + attr
  descriptor_sum = bit_or-join 12 n attr fits

  pub descriptor-frame : n < 0x1000000 → frame (bit_or (n * 0x1000) attr) ≡ n
  descriptor-frame h = rw descriptor_sum (omega arith)

  pub descriptor-odd : attr % 2 ≡ 1 → bit_or (n * 0x1000) attr % 2 ≡ 1
  descriptor-odd h = rw descriptor_sum (omega arith)

-- The attribute bits that the code adds: below a page, and with the valid bit.
module _ (attr : ℕ) (fits : attr < 0x1000) where
  pub table_bits : (bit_or pte_table attr < 0x1000) × (bit_or pte_table attr % 2 ≡ 1)
  table_bits = (bit_or-lt 12 3 attr (omega arith) fits, bit_or-odd 3 attr refl)

  pub page_bits :
      (bit_or (bit_or pte_page pte_access) attr < 0x1000)
      × (bit_or (bit_or pte_page pte_access) attr % 2 ≡ 1)
  page_bits = (bit_or-lt 12 0x403 attr (omega arith) fits, bit_or-odd 0x403 attr refl)
