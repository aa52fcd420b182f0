-- ===== src/Mem64/Fast.antt =====
-- `mem_map_pa` where the three tables above the page are there, and what its writes do to memory.
use qemu_tztest.Common.{
  ℕ, suc, ◌*◌, ◌/◌, ◌%◌, ◌^◌, ◌<◌, ◌≡◌, refl, arith, ap, ◌∙◌, Option, some, bit_or, ◌>>=◌,
}
use qemu_tztest.Mem64.{
  MemState, store, link_table, map_level, map_levels, map_page, mem_map_pa, pte_table, pte_page,
  pte_access, pte_user_rw,
}
use qemu_tztest.Mem64.Table.{frame, slot, table}
use qemu_tztest.Mem64.Decode.{pte_at-slot, is_invalid-even, next_table-frame, page_floor}
use qemu_tztest.Mem64.Tree.{table_back}
use qemu_tztest.Mem64.Leaf.{Writes}

-- The descriptors that the code stores for a page and for a table.
abbrev pub page_entry : ℕ → ℕ → ℕ
page_entry paddr pgattr =
    bit_or (paddr / 0x1000 * 0x1000) (bit_or (bit_or pte_page pte_access) pgattr)

abbrev pub table_entry : ℕ → ℕ → ℕ
table_entry pa tblattr = bit_or pa (bit_or pte_table tblattr)

pub map_page-Writes :
    (v paddr pgattr p : ℕ) (s : MemState)
    → paddr < 2 ^ 64
    → Writes s.mem
        (map_page v paddr pgattr (p * 0x1000) s).mem
        (slot p v 3)
        (page_entry paddr pgattr)
unfolding map_page store
map_page-Writes v paddr pgattr p s h =
    rw (pte_at-slot p v 3, page_floor paddr h)
      (record { at = ground arith; same = λ b ne. ground arith })

pub link_table-Writes :
    (a pa tblattr : ℕ) (s : MemState)
    → Writes s.mem (link_table a pa tblattr s).mem a (table_entry pa tblattr)
unfolding link_table store
link_table-Writes a pa tblattr s = record { at = ground arith; same = λ b ne. ground arith }

pub map_level-valid :
    (nested : ℕ → MemState → Option MemState) (v ta i q : ℕ) (s : MemState)
    → s.mem (slot q v i) % 2 ≡ 1
    → map_level nested v ta i (q * 0x1000) s ≡ some (frame (s.mem (slot q v i)) * 0x1000, s)
unfolding map_level
map_level-valid nested v ta i q s odd = rw (
  pte_at-slot q v i,
  is_invalid-even (s.mem (slot q v i)),
  odd,
  next_table-frame (s.mem (slot q v i)),
)

pub map_level-table :
    (nested : ℕ → MemState → Option MemState) (v ta i q c root : ℕ) (s : MemState)
    → table s.mem root v i ≡ some q
    → table s.mem root v (suc i) ≡ some c
    → map_level nested v ta i (q * 0x1000) s ≡ some (c * 0x1000, s)
map_level-table nested v ta i q c root s e f =
    let came = table_back s.mem root v i c f in
    let same : came.parent ≡ q = cc (came.at) in
    rw came.is (rw (← same) (map_level-valid nested v ta i came.parent s came.valid))

-- With its tables in place a page is mapped by one write, at any positive fuel.
pub mem_map_pa-fast :
    (fuel v paddr ta pgattr root p : ℕ) (s : MemState)
    → s.mem_pgtbl_base ≡ root * 0x1000
    → table s.mem root v 3 ≡ some p
    → mem_map_pa (suc fuel) v paddr ta pgattr s ≡ some (map_page v paddr pgattr (p * 0x1000) s)
unfolding mem_map_pa map_levels
mem_map_pa-fast fuel v paddr ta pgattr root p s based e3 =
    let c2 = table_back s.mem root v 2 p e3 in
    let c1 = table_back s.mem root v 1 c2.parent c2.at in
    let nested : ℕ → MemState → Option MemState = λ q. mem_map_pa fuel q q 0 pte_user_rw in
    let start : table s.mem root v 0 ≡ some root = unfold table in refl in
    ap (λ b. map_levels nested v ta 3 0 b s >>= finish) based
    ∙ rw
        (
          map_level-table nested v ta 0 root c1.parent root s start c1.at,
          map_level-table nested v ta 1 c1.parent c2.parent root s c1.at c2.at,
          map_level-table nested v ta 2 c2.parent p root s c2.at e3,
        )
        refl
  where
    finish : ℕ × MemState → Option MemState
    finish (pa, s') = some (map_page v paddr pgattr pa s')
