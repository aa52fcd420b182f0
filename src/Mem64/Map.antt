-- ===== src/Mem64/Map.antt =====
-- `mem_map_pa` in full: with unused pages left, it maps the page and changes no other translation.
use qemu_tztest.Common.{
  ℕ, suc, ◌+◌, ◌*◌, ◌/◌, ◌%◌, ◌^◌, ◌≤◌, ◌<◌, ◌≡◌, refl, arith, ap, ◌∙◌, ◌≢◌, Option, some, ◌==◌,
  inl, inr, Bool-cases, ==_iff,
}
use qemu_tztest.Mem64.{MemState, store, map_level, map_levels, map_page, mem_map_pa, pte_user_rw}
use qemu_tztest.Mem64.Table.{frame, slot, table}
use qemu_tztest.Mem64.Decode.{descriptor-frame, descriptor-odd, page_bits}
use qemu_tztest.Mem64.Leaf.{page, Leaf-IsTree, Leaf-table, Leaf-self, Leaf-other}
use qemu_tztest.Mem64.Fast.{map_page-Writes, map_level-valid, page_entry}
use qemu_tztest.Mem64.State.{IsMapped, SameBut}
use qemu_tztest.Mem64.NewTable.{
  linked, linked-IsMapped, linked-runs, linked-reached, linked-keep, linked-same, linked-next,
  linked-heap,
}

module _ {root limit : ℕ} (v ta i q : ℕ) {s : MemState} (inv : IsMapped root limit s)
    (upper : i < 3) (attr : ta < 0x1000) (at : table s.mem root v i ≡ some q) (fuel : ℕ) where
  abbrev nested : ℕ → MemState → Option MemState
  nested n = mem_map_pa (suc fuel) n n 0 pte_user_rw

  pub record Level : Type 0 where
    pub after : MemState
    pub child : ℕ
    pub inv' : IsMapped root limit after
    pub runs : map_level nested v ta i (q * 0x1000) s ≡ some (child * 0x1000, after)
    pub reached : table after.mem root v (suc i) ≡ some child
    pub grows : inv.next ≤ inv'.next
    pub little : inv'.next ≤ suc inv.next
    pub kept :
        (w j c : ℕ) → j ≤ 3 → table s.mem root w j ≡ some c → table after.mem root w j ≡ some c
    pub same : SameBut root inv.next inv'.next s after (λ w. Unit {0})
    pub heap : after.mem_heap_pool ≡ s.mem_heap_pool

  level_valid : s.mem (slot q v i) % 2 ≡ 1 → Level
  level_valid odd = record {
    after = s;
    child = frame (s.mem (slot q v i));
    inv' = inv;
    runs = map_level-valid nested v ta i q s odd;
    reached = unfold table in rw (at, odd);
    grows = omega arith;
    little = omega arith;
    kept = λ w j c h e. e;
    same = λ w p h. refl;
    heap = refl;
  }

  level_new : s.mem (slot q v i) % 2 ≡ 0 → inv.next < limit → Level
  level_new even room = record {
    after = linked v ta i q fuel inv upper attr at even room;
    child = inv.next;
    inv' = linked-IsMapped v ta i q fuel inv upper attr at even room;
    runs = linked-runs v ta i q fuel inv upper attr at even room;
    reached = linked-reached v ta i q fuel inv upper attr at even room;
    grows = omega (arith, linked-next v ta i q fuel inv upper attr at even room);
    little = omega (arith, linked-next v ta i q fuel inv upper attr at even room);
    kept = linked-keep v ta i q fuel inv upper attr at even room;
    same = linked-same v ta i q fuel inv upper attr at even room;
    heap = linked-heap v ta i q fuel inv upper attr at even room;
  }

  pub level : inv.next < limit → Level
  level room = elim (Bool-cases (s.mem (slot q v i) % 2 == 0)) [
    | inl even ↦ level_new ((==_iff _ _).0 even) room
    | inr odd ↦ level_valid (ground arith)
  ]

-- The three rounds of the loop.
module _ {root limit : ℕ} (v ta fuel : ℕ) {s : MemState} (inv : IsMapped root limit s)
    (attr : ta < 0x1000) (room : inv.next + 3 ≤ limit) where
  abbrev nested' : ℕ → MemState → Option MemState
  nested' n = mem_map_pa (suc fuel) n n 0 pte_user_rw

  pub record Levels : Type 0 where
    pub after : MemState
    pub last : ℕ
    pub inv' : IsMapped root limit after
    pub runs : map_levels nested' v ta 3 0 s.mem_pgtbl_base s ≡ some (last * 0x1000, after)
    pub reached : table after.mem root v 3 ≡ some last
    pub grows : inv.next ≤ inv'.next
    pub little : inv'.next ≤ inv.next + 3
    pub same : SameBut root inv.next inv'.next s after (λ w. Unit {0})
    pub heap : after.mem_heap_pool ≡ s.mem_heap_pool

  pub levels : Levels
  unfolding map_levels table
  levels =
      let a = level v ta 0 root inv (omega arith) attr refl fuel (omega arith) in
      let b =
        level v ta 1 a.child a.inv' (omega arith) attr a.reached fuel (omega (arith, a.little)) in
      let c =
        level v ta 2 b.child b.inv' (omega arith) attr b.reached fuel
          (omega (arith, a.little, b.little)) in
      record {
        after = c.after;
        last = c.child;
        inv' = c.inv';
        runs =
            ap (λ base. map_levels nested' v ta 3 0 base s) inv.based ∙ rw (a.runs, b.runs, c.runs);
        reached = c.reached;
        grows = omega (arith, a.grows, b.grows, c.grows);
        little = omega (arith, a.little, b.little, c.little);
        same = λ w u h.
            c.same w u (omega (arith, a.grows, b.grows, c.grows))
            ∙ b.same w u (omega (arith, a.grows, b.grows, c.grows))
            ∙ a.same w u (omega (arith, a.grows, b.grows, c.grows));
        heap = c.heap ∙ b.heap ∙ a.heap;
      }

-- What a call that maps `v` to the frame `n` leaves behind.
pub record Mapping (root limit v n : ℕ) (s : MemState) (inv : IsMapped root limit s)
    (result : Option MemState) : Type 0 where
  pub after : MemState
  pub returns : result ≡ some after
  pub inv' : IsMapped root limit after
  pub grows : inv.next ≤ inv'.next
  pub little : inv'.next ≤ inv.next + 3
  pub hit : table after.mem root v 4 ≡ some n
  pub same : SameBut root inv.next inv'.next s after (λ w. page w ≢ page v)
  pub heap : after.mem_heap_pool ≡ s.mem_heap_pool

pub mem_map_pa-Mapping :
    {root limit : ℕ} (v paddr ta pgattr fuel : ℕ) {s : MemState} (inv : IsMapped root limit s)
    → ta < 0x1000
    → pgattr < 0x1000
    → paddr < 2 ^ 36
    → inv.next + 3 ≤ limit
    → Mapping root limit v (paddr / 0x1000) s inv (mem_map_pa (suc (suc fuel)) v paddr ta pgattr s)
unfolding mem_map_pa
mem_map_pa-Mapping {root} {limit} v paddr ta pgattr fuel {s} inv attr pattr phys room =
    let l = levels v ta fuel inv attr room in
    let p = l.last in
    let after = map_page v paddr pgattr (p * 0x1000) l.after in
    let w = map_page-Writes v paddr pgattr p l.after (omega arith) in
    let bits = page_bits pgattr pattr in
    let leads : frame (page_entry paddr pgattr) ≡ paddr / 0x1000 =
      descriptor-frame (paddr / 0x1000) _ bits.0 (omega arith) in
    let odd : page_entry paddr pgattr % 2 ≡ 1 = descriptor-odd (paddr / 0x1000) _ bits.0 bits.1 in
    record {
      after = after;
      returns = rw l.runs;
      inv' = record {
        next = l.inv'.next;
        lvl = l.inv'.lvl;
        up = l.inv'.up;
        tree = Leaf-IsTree l.inv'.tree v p _ l.reached w;
        based = unfold map_page store in l.inv'.based;
        pool = unfold map_page store in l.inv'.pool;
        bound = l.inv'.bound;
        ready = λ k h b.
            let r = l.inv'.ready k h b in
            (r.0, Leaf-table l.inv'.tree v p _ l.reached w (k * 0x1000) 3 (omega arith) ∙ r.1);
      };
      grows = l.grows;
      little = l.little;
      hit = Leaf-self l.inv'.tree v p _ l.reached w ∙ rw (odd, leads);
      same = λ x ne h. Leaf-other l.inv'.tree v p _ l.reached w x ne ∙ l.same x tt h;
      heap = unfold map_page store in l.heap;
    }
