-- ===== src/Mem64/Walk.antt =====
-- The loop of `mem_lookup_pa` and `mem_unmap_va` follows the tables.
use qemu_tztest.Common.{
  ℕ, zero, suc, ◌+◌, ◌*◌, ◌%◌, ◌≡◌, refl, arith, ap, ◌∙◌, Option, none, some, ◌==◌, if◌then◌else◌,
}
use qemu_tztest.Mem64.{MemState, walk}
use qemu_tztest.Mem64.Table.{frame, slot, table}
use qemu_tztest.Mem64.Decode.{pte_at-slot, is_invalid-even, next_table-frame}

-- What the loop returns when `left` rounds remain at the table in frame `q`.
abbrev pub descend : (ℕ → ℕ) → (v left i q pte : ℕ) → Option (ℕ × ℕ)
descend m v zero i q pte = some (pte, q * 0x1000)
descend m v (suc left) i q pte =
    if m (slot q v i) % 2 == 0
    then none
    else descend m v left (i + 1) (frame (m (slot q v i))) (slot q v i)

pub walk-descend :
    (v left i q pte : ℕ) (s : MemState)
    → walk v left i (q * 0x1000) pte s ≡ descend s.mem v left i q pte
unfolding walk
walk-descend v zero i q pte s = refl
walk-descend v (suc left) i q pte s = rw (
  pte_at-slot q v i,
  is_invalid-even (s.mem (slot q v i)),
  next_table-frame (s.mem (slot q v i)),
  walk-descend v left (i + 1) (frame (s.mem (slot q v i))) (slot q v i) s,
)

module _ (s : MemState) (root : ℕ) (based : s.mem_pgtbl_base ≡ root * 0x1000) (v : ℕ) where
  abbrev tab : ℕ → Option ℕ
  tab i = table s.mem root v i

  walk-table : walk v 4 0 s.mem_pgtbl_base 0 s ≡ descend s.mem v 4 0 root 0
  walk-table = ap (λ b. walk v 4 0 b 0 s) based ∙ walk-descend v 4 0 root 0 s

  pub walk-none : tab 4 ≡ none → walk v 4 0 s.mem_pgtbl_base 0 s ≡ none
  unfolding table
  walk-none h = walk-table ∙ ground arith

  pub walk-some :
      (q n : ℕ)
      → tab 3 ≡ some q
      → tab 4 ≡ some n
      → walk v 4 0 s.mem_pgtbl_base 0 s ≡ some (slot q v 3, n * 0x1000)
  unfolding table
  walk-some q n h k = walk-table ∙ ground arith
