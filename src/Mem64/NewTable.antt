-- ===== src/Mem64/NewTable.antt =====
-- A round of `mem_map_pa` that takes a page from the pool, maps it at its own address and links it
-- as a table.
use qemu_tztest.Common.{
  ℕ, suc, ◌+◌, ◌*◌, ◌%◌, ◌≤◌, ◌<◌, ◌≡◌, refl, arith, ap, ◌∙◌, Option, some, ◌>>=◌, u64,
}
use qemu_tztest.Mem64.{
  MemState, store, link_table, map_level, map_page, mem_map_pa, mem_allocate_pa, pte_user_rw,
  page_size,
}
use qemu_tztest.Mem64.Table.{frame, idx, slot, table}
use qemu_tztest.Mem64.Decode.{
  pte_at-slot, is_invalid-even, descriptor-frame, descriptor-odd, table_bits, idx-lt,
}
use qemu_tztest.Mem64.Tree.{IsTree, table-lvl}
use qemu_tztest.Mem64.Leaf.{Writes, Leaf-IsTree, Leaf-table, Leaf-other, other_page}
use qemu_tztest.Mem64.Grow.{Grow-IsTree, Grow-keep, Grow-self, Grow-same, new_lvl, new_up}
use qemu_tztest.Mem64.Fast.{
  map_page-Writes, link_table-Writes, mem_map_pa-fast, page_entry, table_entry,
}
use qemu_tztest.Mem64.State.{IsMapped, SameBut}

module _ {root limit : ℕ} (v ta i q fuel : ℕ) {s : MemState} (inv : IsMapped root limit s)
    (upper : i < 3) (attr : ta < 0x1000) (at : table s.mem root v i ≡ some q)
    (even : s.mem (slot q v i) % 2 ≡ 0) (room : inv.next < limit) where
  abbrev n : ℕ
  n = inv.next

  -- The last-level table of the new page's own address.
  abbrev p : ℕ
  p = (inv.ready inv.next (omega arith) room).0

  own : table s.mem root (n * 0x1000) 3 ≡ some p
  own = (inv.ready inv.next (omega arith) room).1

  abbrev s1 : MemState
  s1 = record s { mem_next_pa = u64 (s.mem_next_pa + page_size) }

  abbrev s2 : MemState
  s2 = map_page (n * 0x1000) (n * 0x1000) pte_user_rw (p * 0x1000) s1

  abbrev pub linked : MemState
  linked = link_table (slot q v i) (n * 0x1000) ta s2

  first : Writes s.mem s2.mem (slot p (n * 0x1000) 3) (page_entry (n * 0x1000) pte_user_rw)
  first = map_page-Writes (n * 0x1000) (n * 0x1000) pte_user_rw p s1 (omega (arith, inv.bound))

  second : Writes s2.mem linked.mem (slot q v i) (table_entry (n * 0x1000) ta)
  second = link_table-Writes (slot q v i) (n * 0x1000) ta s2

  tree2 : IsTree s2.mem root n limit inv.lvl inv.up
  tree2 = Leaf-IsTree inv.tree (n * 0x1000) p _ own first

  stays : (w j : ℕ) → j ≤ 3 → table s2.mem root w j ≡ table s.mem root w j
  stays = Leaf-table inv.tree (n * 0x1000) p _ own first

  at2 : table s2.mem root v i ≡ some q
  at2 = stays v i (omega arith) ∙ at

  empty2 : s2.mem (slot q v i) % 2 ≡ 0
  empty2 =
      ap (λ e. e % 2)
        (other_page inv.tree p (idx (n * 0x1000) 3) _ (idx-lt (n * 0x1000) 3) first q (idx v i)
          (idx-lt v i)
          (λ (e : q ≡ p). absurd (
            omega (
              arith,
              table-lvl inv.tree v i q (omega arith) at,
              table-lvl inv.tree (n * 0x1000) 3 p (omega arith) own,
              ap inv.lvl e,
            ))))
      ∙ even

  leads : frame (table_entry (n * 0x1000) ta) ≡ n
  leads = descriptor-frame n _ (table_bits ta attr).0 (omega (arith, inv.bound))

  valid : table_entry (n * 0x1000) ta % 2 ≡ 1
  valid = descriptor-odd n _ (table_bits ta attr).0 (table_bits ta attr).1

  pub linked-reached : table linked.mem root v (suc i) ≡ some n
  linked-reached = Grow-self tree2 v i q _ upper at2 empty2 room leads valid second

  pub linked-keep :
      (w j c : ℕ) → j ≤ 3 → table s.mem root w j ≡ some c → table linked.mem root w j ≡ some c
  linked-keep w j c h e =
      Grow-keep tree2 v i q _ upper at2 empty2 room leads valid second w j c (stays w j h ∙ e)

  linked-pool : linked.mem_next_pa ≡ suc n * 0x1000
  unfolding link_table map_page store
  linked-pool = omega (arith, inv.pool, inv.bound)

  linked-based : linked.mem_pgtbl_base ≡ root * 0x1000
  unfolding link_table map_page store
  linked-based = inv.based

  pub linked-heap : linked.mem_heap_pool ≡ s.mem_heap_pool
  unfolding link_table map_page store
  linked-heap = refl

  pub linked-IsMapped : IsMapped root limit linked
  linked-IsMapped = record {
    next = suc n;
    lvl = new_lvl tree2 v i q _ upper at2 empty2 room leads valid second;
    up = new_up tree2 v i q _ upper at2 empty2 room leads valid second;
    tree = Grow-IsTree tree2 v i q _ upper at2 empty2 room leads valid second;
    based = linked-based;
    pool = linked-pool;
    bound = inv.bound;
    ready = λ k h b.
        let r = inv.ready k (omega arith) b in
        (r.0, linked-keep (k * 0x1000) 3 r.0 (omega arith) r.1);
  }

  pub linked-next : linked-IsMapped.next ≡ suc n
  unfolding linked-IsMapped
  linked-next = refl

  pub linked-same : SameBut root n linked-IsMapped.next s linked (λ w. Unit {0})
  unfolding linked-IsMapped
  linked-same w _ h =
      Grow-same tree2 v i q _ upper at2 empty2 room leads valid second w
      ∙ Leaf-other inv.tree (n * 0x1000) p _ own first w (omega (arith, inv.bound))

  run_at :
      (nested : ℕ → MemState → Option MemState) (pa : ℕ)
      → s.mem_next_pa ≡ pa
      → map_level nested v ta i (q * 0x1000) s
        ≡ (nested pa s1 >>= λ t. some (pa, link_table (slot q v i) pa ta t))
  unfolding map_level mem_allocate_pa
  run_at nested pa e =
      rw (pte_at-slot q v i, is_invalid-even (s.mem (slot q v i)), even)
        (ap (λ b. nested b s1 >>= λ t. some (b, link_table (slot q v i) b ta t)) e)

  pub linked-runs :
      map_level (λ k. mem_map_pa (suc fuel) k k 0 pte_user_rw) v ta i (q * 0x1000) s
      ≡ some (n * 0x1000, linked)
  linked-runs =
      run_at (λ k. mem_map_pa (suc fuel) k k 0 pte_user_rw) (n * 0x1000) inv.pool
      ∙ rw (mem_map_pa-fast fuel (n * 0x1000) (n * 0x1000) 0 pte_user_rw root p s1 inv.based own)
