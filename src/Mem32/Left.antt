-- ===== src/Mem32/Left.antt =====
-- The two ways of mem_map_pa of ARMv7: below a table, and with a new one from the pool.
use qemu_tztest.Common.{
  ℕ, suc, ◌+◌, ◌*◌, ◌/◌, ◌%◌, ◌^◌, ◌≤◌, ◌<◌, ◌≡◌, ◌≢◌, ◌⊎◌, refl, arith, ap, ◌∙◌, inl, inr, some,
  Option, u32, ◌==◌, true, false, bit_or,
}
use qemu_tztest.Mem64.{page_size}
use qemu_tztest.Mem32.{
  MemState, store, link_new, no_table, mem_map_pa, mem_allocate_pa, mem_lookup_pa, pte_table,
  pte_user_rw,
}
use qemu_tztest.Mem32.Decode.{coarse, no_table_lem}
use qemu_tztest.Mem32.Lookup.{slot, megabyte, leaf, IsTables, entry_of, Present, update-same}
use qemu_tztest.Mem32.Map.{l1_pte-slot, mem_lookup_pa-mem_map_pa_arm}
use qemu_tztest.Mem32.Pool.{
  IsPool, taken_page, OneWord-IsPool, OneWord-Present, slot_kept, entry-slot, entry-pool,
  mem_lookup_pa-next,
}
use qemu_tztest.Mem32.Grow.{
  table_descriptor, linked, elsewhere, linked-IsPool, linked-Present, linked-here, linked-others,
  linked-new,
}

-- The new table: at the next page of the pool, which is mapped to itself first.
record Grown (root limit v : ℕ) (s : MemState) (inv : IsPool root limit s)
    (result : Option MemState) : Type 0 where
  after : MemState
  returns : result ≡ some after
  inv' : IsPool root limit after
  next' : inv'.next ≡ suc inv.next
  heap : after.mem_heap_pool ≡ s.mem_heap_pool
  present : Present root v after
  stays : (w : ℕ) → Present root w s → Present root w after
  same :
      (a : ℕ)
      → slot root (megabyte v) ≢ a
      → entry_of root (inv.next * 0x1000) s ≢ a
      → after.mem a ≡ s.mem a
  others :
      (w : ℕ)
      → w < 2 ^ 32
      → megabyte w ≢ megabyte v
      → w / 4096 ≢ inv.next
      → mem_lookup_pa w after ≡ mem_lookup_pa w s
  empty : (w : ℕ) → megabyte w ≡ megabyte v → mem_lookup_pa w after ≡ w % 4096

-- The steps of a call that adds a table.
link_new-steps :
    (nested : ℕ → MemState → Option MemState) (at : ℕ) (s s2 : MemState)
    → no_table (s.mem at) ≡ true
    → nested s.mem_next_pa (record s { mem_next_pa = u32 (s.mem_next_pa + page_size) }) ≡ some s2
    → link_new nested at 0 s
      ≡ some (store at (bit_or s.mem_next_pa (bit_or pte_table 0)) (store at s.mem_next_pa s2))
unfolding link_new mem_allocate_pa store
link_new-steps nested at s s2 e ran = rw (e, ran, update-same s2.mem at s.mem_next_pa) refl

module _ {root limit : ℕ} {s : MemState} (inv : IsPool root limit s) (v f : ℕ)
    (room : inv.next < limit) (none' : s.mem (slot root (megabyte v)) % 4 ≡ 0) where
  link_new-Grown :
      Grown root limit v s inv
        (link_new (λ q. mem_map_pa (suc f) q q 0 pte_user_rw) (slot root (megabyte v)) 0 s)
  unfolding taken_page OneWord-IsPool linked-IsPool
  link_new-Grown =
      let n = inv.next in
      let pa = n * 0x1000 in
      let at = slot root (megabyte v) in
      let inv1 = taken_page inv room in
      let s1 = record s { mem_next_pa = u32 (s.mem_next_pa + page_size) } in
      let ready : Present root pa s = inv.ready n (omega arith) room in
      let narrow : pa < 2 ^ 32 = omega (arith, inv.bound) in
      let m =
        mem_lookup_pa-mem_map_pa_arm f pa pa 0 pte_user_rw inv1.tables narrow narrow (omega arith)
          ready in
      let inv2 = OneWord-IsPool inv1 pa ready m.writes m.inv' in
      let slots : (i : ℕ) → i < 4096 → m.after.mem (slot root i) ≡ s.mem (slot root i) =
        λ i h. m.writes.same (slot root i) (entry-slot inv pa ready i h) in
      let none2 : m.after.mem at % 4 ≡ 0 =
        ap (λ e. e % 4) (slots (megabyte v) (omega arith)) ∙ none' in
      let zeros = λ (k : ℕ) (c : k < 256).
        m.writes.same (n * 4096 + k * 4) (entry-pool inv pa ready n k (omega arith) room c)
        ∙ inv.fresh n k (omega arith) room c in
      let unused : (i : ℕ)
          → i < 4096
          → m.after.mem (slot root i) % 4 ≢ 0
          → coarse (m.after.mem (slot root i)) / 4 ≢ n =
        λ i h p bad.
          let was = inv.old i h (λ z. p (ap (λ e. e % 4) (slots i h) ∙ z)) in
          absurd (omega (arith, ap coarse (slots i h), was, bad, room)) in
      let taken : n < inv2.next = omega arith in
      let small : n < 2 ^ 20 = omega (arith, inv.bound) in
      let away = inv.away n (omega arith) room in
      let apart : megabyte pa ≢ megabyte v =
        λ e. ready (ap (λ i. s.mem (slot root i) % 4) e ∙ none') in
      record {
        after = linked inv2 v n none2 taken small away zeros unused;
        returns =
            link_new-steps (λ q. mem_map_pa (suc f) q q 0 pte_user_rw) at s m.after
              (no_table_lem (s.mem at) ∙ rw none' refl)
              (ap (λ q. mem_map_pa (suc f) q q 0 pte_user_rw s1) inv.pool ∙ m.returns)
            ∙ ap (λ q. some (store at (bit_or q (bit_or pte_table 0)) (store at q m.after)))
                inv.pool
            ∙ ap (λ x. some (store at x (store at pa m.after))) (table_descriptor n);
        inv' = linked-IsPool inv2 v n none2 taken small away zeros unused;
        next' = refl;
        heap = m.writes.heap;
        present = linked-here inv2 v n none2 taken small away zeros unused;
        stays = λ w p.
            linked-Present inv2 v n none2 taken small away zeros unused w
              (OneWord-Present inv1 pa ready m.writes m.inv' w p);
        same = λ a far off.
            elsewhere inv2 v n none2 taken small away zeros unused a far ∙ m.writes.same a off;
        others = λ w fit far page.
            linked-others inv2 v n none2 taken small away zeros unused w far
            ∙ m.others w fit (λ e. page (omega (arith, e)))
            ∙ mem_lookup_pa-next w (u32 (s.mem_next_pa + page_size)) s;
        empty = λ w e. linked-new inv2 v n none2 taken small away zeros unused w e;
      }

-- Once the table is there, the call goes on as one in the new state.
mem_map_pa-linked :
    {root : ℕ} (f v p pgattr : ℕ) {s s' : MemState} (t : IsTables root s) (t' : IsTables root s')
    → link_new (λ q. mem_map_pa f q q 0 pte_user_rw) (slot root (megabyte v)) 0 s ≡ some s'
    → Present root v s'
    → mem_map_pa (suc f) v p 0 pgattr s ≡ mem_map_pa (suc f) v p 0 pgattr s'
unfolding mem_map_pa
mem_map_pa-linked {root} f v p pgattr {s} {s'} t t' ran present =
    let nested = λ (q : ℕ). mem_map_pa f q q 0 pte_user_rw in
    let valid : (s'.mem (slot root (megabyte v)) % 4 == 0) ≡ false = ground (arith, present) in
    let again : link_new nested (slot root (megabyte v)) 0 s' ≡ some s' =
      unfold link_new in rw (no_table_lem (s'.mem (slot root (megabyte v))), valid) refl in
    rw (l1_pte-slot v t, ran, l1_pte-slot v t', again) refl

-- What mem_map_pa leaves behind: the invariant, `k` pages taken, the page, the other lookups and the words that
-- it wrote.
pub record Left (k root limit v p : ℕ) (s : MemState) (inv : IsPool root limit s)
    (result : Option MemState) : Type 0 where
  pub after : MemState
  pub returns : result ≡ some after
  pub inv' : IsPool root limit after
  pub next' : inv'.next ≡ inv.next + k
  pub heap : after.mem_heap_pool ≡ s.mem_heap_pool
  pub present : Present root v after
  pub stays : (w : ℕ) → Present root w s → Present root w after
  pub hit :
      (w : ℕ)
      → w < 2 ^ 32
      → w / 4096 ≡ v / 4096
      → mem_lookup_pa w after ≡ p / 4096 * 4096 + w % 4096
  pub others :
      (w : ℕ)
      → w < 2 ^ 32
      → w / 4096 ≢ v / 4096
      → (w / 4096 < inv.next) ⊎ (inv'.next ≤ w / 4096)
      → Present root w s ⊎ (megabyte w ≢ megabyte v)
      → mem_lookup_pa w after ≡ mem_lookup_pa w s
  pub words :
      (a : ℕ)
      → slot root (megabyte v) ≢ a
      → entry_of root v after ≢ a
      → (k ≡ 0) ⊎ (entry_of root (inv.next * 0x1000) s ≢ a)
      → after.mem a ≡ s.mem a

module _ {root limit : ℕ} {s : MemState} (f v p pgattr : ℕ) (inv : IsPool root limit s)
    (narrow : v < 2 ^ 32) (fits : p < 2 ^ 32) (small : pgattr < 0x1000) where
  -- Below a table that exists.
  pub mem_map_pa-below :
      (present : Present root v s) → Left 0 root limit v p s inv (mem_map_pa (suc f) v p 0 pgattr s)
  unfolding OneWord-IsPool
  mem_map_pa-below present =
      let m = mem_lookup_pa-mem_map_pa_arm f v p 0 pgattr inv.tables narrow fits small present in
      let same_entry =
        ap (λ e. leaf (coarse e) v)
          (slot_kept inv v present m.writes m.inv' (megabyte v) (omega arith)) in
      record {
        after = m.after;
        returns = m.returns;
        inv' = OneWord-IsPool inv v present m.writes m.inv';
        next' = omega arith;
        heap = m.writes.heap;
        present = OneWord-Present inv v present m.writes m.inv' v present;
        stays = OneWord-Present inv v present m.writes m.inv';
        hit = m.hit;
        others = λ w fit far out has. m.others w fit far;
        words = λ a off far out. m.writes.same a (λ e. far (same_entry ∙ e));
      }

module _ {root limit : ℕ} {s : MemState} (f v p pgattr : ℕ) (inv : IsPool root limit s)
    (narrow : v < 2 ^ 32) (fits : p < 2 ^ 32) (small : pgattr < 0x1000)
    (room : inv.next < limit) where
  -- With a new table.
  pub mem_map_pa-grown :
      s.mem (slot root (megabyte v)) % 4 ≡ 0
      → Left 1 root limit v p s inv (mem_map_pa (suc (suc f)) v p 0 pgattr s)
  mem_map_pa-grown none' =
      let g = link_new-Grown inv v f room none' in
      let l = mem_map_pa-below (suc f) v p pgattr g.inv' narrow fits small g.present in
      record {
        after = l.after;
        returns =
            mem_map_pa-linked (suc f) v p pgattr inv.tables g.inv'.tables g.returns g.present
            ∙ l.returns;
        inv' = l.inv';
        next' = omega (arith, g.next', l.next');
        heap = l.heap ∙ g.heap;
        present = l.present;
        stays = λ w has. l.stays w (g.stays w has);
        hit = l.hit;
        others = λ w fit far out has.
            let apart : megabyte w ≢ megabyte v = elim has [
              | inl there ↦ λ e. there (ap (λ i. s.mem (slot root i) % 4) e ∙ none')
              | inr off ↦ off
            ] in
            l.others w fit far (omega (arith, out, g.next', l.next')) (inr apart)
            ∙ g.others w fit apart (omega (arith, out, g.next', l.next'));
        words = λ a off far out.
            let other : entry_of root (inv.next * 0x1000) s ≢ a = ground (arith, out) in
            l.words a off far (inl refl) ∙ g.same a off other;
      }
