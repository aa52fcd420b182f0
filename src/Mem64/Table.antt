-- ===== src/Mem64/Table.antt =====
-- The reading of the page tables that the proofs about mem_util.c go by: frames in place of byte
-- addresses, quotients in place of masks, and `table v i`, the table reached after `i` levels.
use qemu_tztest.Common.{
  ℕ, zero, suc, ◌+◌, ◌-◌, ◌*◌, ◌/◌, ◌%◌, ◌^◌, Option, none, some, ◌==◌, if◌then◌else◌, ◌>>=◌,
}

abbrev pub frame : ℕ → ℕ
frame e = e / 0x1000 % 0x1000000

-- The index of `v` at level `i`, and the address of its entry in the table in frame `q`.
unfoldable pub idx : ℕ → ℕ → ℕ
idx v i = v / 2 ^ (39 - i * 9) % 512

abbrev pub slot : ℕ → ℕ → ℕ → ℕ
slot q v i = q * 0x1000 + idx v i * 8

-- The frame that entry `e` leads to, if its valid bit is set.
abbrev pub follow : ℕ → Option ℕ
follow e = if e % 2 == 0 then none else some (frame e)

unfoldable pub table : (ℕ → ℕ) → (root v i : ℕ) → Option ℕ
table m root v zero = some root
table m root v (suc i) = do q ← table m root v i; follow (m (slot q v i))
