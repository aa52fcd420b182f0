-- ===== src/Mem64/Lookup.antt =====
-- `mem_map_pa`, `mem_unmap_va` and `mem_lookup_pa` against one another.
use qemu_tztest.Common.{
  ℕ, suc, ◌+◌, ◌*◌, ◌/◌, ◌^◌, ◌≤◌, ◌<◌, ◌≡◌, refl, arith, ap, ◌∙◌, sym, ◌≢◌, ◌⊎◌, Option, none,
  some, inl, inr, Option-cases,
}
use qemu_tztest.Mem64.{
  MemState, store, mem_map_pa, mem_lookup_pa, mem_unmap_va, ptr_minus_one, int_minus_one,
}
use qemu_tztest.Mem64.Table.{slot, table}
use qemu_tztest.Mem64.Tree.{table_back}
use qemu_tztest.Mem64.Leaf.{Writes, page, Leaf-IsTree, Leaf-table, Leaf-self, Leaf-other}
use qemu_tztest.Mem64.State.{IsMapped}
use qemu_tztest.Mem64.Map.{mem_map_pa-Mapping}
use qemu_tztest.Mem64.Walk.{walk-none, walk-some}

-- What `mem_lookup_pa` returns for a translation.
abbrev pub phys : Option ℕ → ℕ
phys none = ptr_minus_one
phys (some n) = n * 0x1000

pub lookup-table :
    (s : MemState) (root v : ℕ)
    → s.mem_pgtbl_base ≡ root * 0x1000
    → mem_lookup_pa v s ≡ phys (table s.mem root v 4)
unfolding mem_lookup_pa
lookup-table s root v based = elim (Option-cases (table s.mem root v 4)) [
  | inl e ↦ rw (walk-none s root based v e, mem_lookup_pa, e)
  | inr (n, e) ↦
      let came = table_back s.mem root v 3 n e in
      rw (walk-some s root based v came.parent n came.at e, mem_lookup_pa, e)
]

-- A state that satisfies the invariant, and what the other pages translate to.
pub record Maps (root limit v p : ℕ) (s : MemState) (inv : IsMapped root limit s)
    (result : Option MemState) : Type 0 where
  pub after : MemState
  pub returns : result ≡ some after
  pub inv' : IsMapped root limit after
  pub taken : (inv.next ≤ inv'.next) × (inv'.next ≤ inv.next + 3)
  pub hit : mem_lookup_pa v after ≡ p
  pub others :
      (w : ℕ)
      → page w ≢ page v
      → (page w < inv.next) ⊎ (inv'.next ≤ page w)
      → mem_lookup_pa w after ≡ mem_lookup_pa w s

-- With well-formed tables, three pages left in the pool, attributes below 0x1000 and a physical address of 36 bits,
-- `mem_map_pa` returns; a lookup of the address then gives the physical page, every lookup outside that page and outside
-- the pool pages just taken gives what it gave before, and the page tables are again well formed.
pub mem_lookup_pa-mem_map_pa :
    {root limit : ℕ} (v paddr ta pgattr fuel : ℕ) {s : MemState} (inv : IsMapped root limit s)
    → ta < 0x1000
    → pgattr < 0x1000
    → paddr < 2 ^ 36
    → inv.next + 3 ≤ limit
    → Maps root limit v
        (paddr / 0x1000 * 0x1000)
        s
        inv
        (mem_map_pa (suc (suc fuel)) v paddr ta pgattr s)
mem_lookup_pa-mem_map_pa {root} v paddr ta pgattr fuel {s} inv attr pattr small room =
    let m = mem_map_pa-Mapping v paddr ta pgattr fuel inv attr pattr small room in
    record {
      after = m.after;
      returns = m.returns;
      inv' = m.inv';
      taken = (m.grows, m.little);
      hit = lookup-table m.after root v m.inv'.based ∙ ap phys m.hit;
      others = λ w ne h.
          lookup-table m.after root w m.inv'.based
          ∙ ap phys (m.same w ne h)
          ∙ sym (lookup-table s root w inv.based);
    }

-- The outcome of `mem_unmap_va`: an error and no change, or success and only this page unmapped.
pub record Unmapped (root limit v : ℕ) (s : MemState) (inv : IsMapped root limit s)
    (result : ℕ × MemState) : Type 0 where
  pub status :
      ((mem_lookup_pa v s ≡ ptr_minus_one) × (result ≡ (int_minus_one, s)))
      ⊎ ((mem_lookup_pa v s < 2 ^ 36) × (result.0 ≡ 0))
  pub inv' : IsMapped root limit result.1
  pub same_next : inv'.next ≡ inv.next
  pub same_heap : result.1.mem_heap_pool ≡ s.mem_heap_pool
  pub gone : mem_lookup_pa v result.1 ≡ ptr_minus_one
  pub others : (w : ℕ) → page w ≢ page v → mem_lookup_pa w result.1 ≡ mem_lookup_pa w s

module _ {root limit : ℕ} (v : ℕ) {s : MemState} (inv : IsMapped root limit s) where
  unmap_invalid : table s.mem root v 4 ≡ none → Unmapped root limit v s inv (mem_unmap_va v s)
  unfolding mem_unmap_va
  unmap_invalid e =
      let miss = lookup-table s root v inv.based ∙ ap phys e in
      rw (walk-none s root inv.based v e, mem_unmap_va)
        (record {
          status = inl (miss, refl);
          inv' = inv;
          same_next = refl;
          same_heap = refl;
          gone = miss;
          others = λ w ne. refl;
        })

  unmap_valid :
      (n : ℕ) → table s.mem root v 4 ≡ some n → Unmapped root limit v s inv (mem_unmap_va v s)
  unfolding mem_unmap_va
  unmap_valid n e =
      let came = table_back s.mem root v 3 n e in
      let p = came.parent in
      let after = store (slot p v 3) 0 s in
      let w : Writes s.mem after.mem (slot p v 3) 0 =
        unfold store in record { at = ground arith; same = λ b ne. ground arith } in
      let based : after.mem_pgtbl_base ≡ root * 0x1000 = unfold store in inv.based in
      rw (walk-some s root inv.based v p n came.at e, mem_unmap_va)
        (record {
          status = inr (rw (lookup-table s root v inv.based, e, came.is) (omega arith), refl);
          inv' = record {
            next = inv.next;
            lvl = inv.lvl;
            up = inv.up;
            tree = Leaf-IsTree inv.tree v p 0 came.at w;
            based = based;
            pool = unfold store in inv.pool;
            bound = inv.bound;
            ready = λ k h b.
                let r = inv.ready k h b in
                (r.0, Leaf-table inv.tree v p 0 came.at w (k * 0x1000) 3 (omega arith) ∙ r.1);
          };
          same_next = refl;
          same_heap = unfold store in refl;
          gone = lookup-table after root v based ∙ ap phys (Leaf-self inv.tree v p 0 came.at w);
          others = λ x ne.
              lookup-table after root x based
              ∙ ap phys (Leaf-other inv.tree v p 0 came.at w x ne)
              ∙ sym (lookup-table s root x inv.based);
        })

  -- `mem_unmap_va` returns -1 and changes nothing exactly where the address has no translation;
  -- otherwise it returns 0, and then this page and no other has lost its translation.
  pub mem_lookup_pa-mem_unmap_va : Unmapped root limit v s inv (mem_unmap_va v s)
  mem_lookup_pa-mem_unmap_va = elim (Option-cases (table s.mem root v 4)) [
    | inl e ↦ unmap_invalid e
    | inr (n, e) ↦ unmap_valid n e
  ]
