-- ===== src/Mem32/Decode.antt =====
-- The masks of common/arm/mem_util.c as quotients and remainders.
use qemu_tztest.Common.{ℕ, ◌+◌, ◌*◌, ◌/◌, ◌%◌, ◌^◌, ◌<◌, ◌≡◌, arith, bit_and, bit_or, ◌==◌}
use qemu_tztest.Bits.{bit_or-join, bit_or-lt, bit_and-mask, bit_and-high}
use qemu_tztest.Mem32.{l1_pte, l2_pte, no_table, pte_page, pte_access}

-- The table that a first-level entry points to, in units of its 1 KB.
abbrev pub coarse : ℕ → ℕ
coarse e = e / 1024 % 2 ^ 22

pub l1_pte_lem :
    (root w : ℕ) → root < 2 ^ 18 → l1_pte (root * 0x4000) w ≡ root * 0x4000 + w / 2 ^ 20 % 4096 * 4
unfolding l1_pte
l1_pte_lem root w h =
    let whole : root * 0x4000 / 2 ^ 14 % 2 ^ 18 * 2 ^ 14 ≡ root * 2 ^ 14 = omega arith in
    rw
      (
        bit_and-high 14 (root * 0x4000) 0x3FFFF,
        bit_and-mask 18 (root * 0x4000 / 2 ^ 14),
        whole,
        bit_and-mask 12 (w / 2 ^ 20),
      )
      (bit_or-join 14 root (w / 2 ^ 20 % 4096 * 4) (omega arith))

pub l2_pte_lem : (e w : ℕ) → l2_pte e w ≡ coarse e * 1024 + w / 4096 % 256 * 4
unfolding l2_pte
l2_pte_lem e w =
    rw (bit_and-high 10 e 0x3FFFFF, bit_and-mask 22 (e / 1024), bit_and-mask 8 (w / 2 ^ 12))
      (bit_or-join 10 (coarse e) (w / 4096 % 256 * 4) (omega arith))

pub no_table_lem : (e : ℕ) → no_table e ≡ (e % 4 == 0)
unfolding no_table
no_table_lem e = rw (bit_and-mask 2 e)

pub page_lem : (e : ℕ) → bit_and e 0xFFFFF000 ≡ e / 4096 % 2 ^ 20 * 4096
page_lem e = rw (bit_and-high 12 e 0xFFFFF, bit_and-mask 20 (e / 4096))

-- What a lookup makes of an entry.
pub address_lem :
    (e w : ℕ)
    → bit_or (bit_and e 0xFFFFF000) (bit_and w 0xFFF) ≡ e / 4096 % 2 ^ 20 * 4096 + w % 4096
address_lem e w =
    rw (page_lem e, bit_and-mask 12 w) (bit_or-join 12 (e / 4096 % 2 ^ 20) (w % 4096) (omega arith))

pub entry_lem :
    (p attr : ℕ)
    → p < 2 ^ 32
    → attr < 0x1000
    → bit_or (bit_and p 0xFFFFF000) (bit_or (bit_or pte_page pte_access) attr) / 4096 % 2 ^ 20
      ≡ p / 4096
entry_lem p attr h small =
    let low : bit_or 0x12 attr < 2 ^ 12 = bit_or-lt 12 0x12 attr (omega arith) small in
    let joined = bit_or-join 12 (p / 4096 % 2 ^ 20) (bit_or 0x12 attr) low in
    rw (page_lem p, joined) (omega (arith, low))
