-- ===== src/Mem64/Refinement.antt =====
-- The page tables refine a function from pages to physical pages.
use qemu_tztest.Common.{
  ℕ, suc, ◌+◌, ◌*◌, ◌/◌, ◌^◌, ◌≤◌, ◌<◌, ◌≡◌, refl, arith, ap, ◌∙◌, sym, Option, none, some, inl,
  inr, List, [], ◌∷◌, ◌==◌, ==_iff, Bool-cases, Option-cases,
}
use qemu_tztest.Mem64.{MemState, mem_lookup_pa, ptr_minus_one, int_minus_one, pte_user_rw}
use qemu_tztest.Mem64.Table.{idx, table}
use qemu_tztest.Mem64.Leaf.{page}
use qemu_tztest.Mem64.State.{IsMapped}
use qemu_tztest.Mem64.Lookup.{
  phys, lookup-table, Maps, Unmapped, mem_lookup_pa-mem_map_pa, mem_lookup_pa-mem_unmap_va,
}
use qemu_tztest.Mem64.Abstract.{
  Call, map_pa, unmap_va, lookup_pa, run, View, set_page, replay, Outside, IsClient, most, Shows,
  Refines,
}

-- A translation depends on the page alone.
pub table-page : (m : ℕ → ℕ) (root v w : ℕ) → page v ≡ page w → table m root v 4 ≡ table m root w 4
unfolding table idx
table-page m root v w same =
    let a : idx v 0 ≡ idx w 0 = omega (arith, same) in
    let b : idx v 1 ≡ idx w 1 = omega (arith, same) in
    let c : idx v 2 ≡ idx w 2 = omega (arith, same) in
    let d : idx v 3 ≡ idx w 3 = omega (arith, same) in rw (a, b, c, d) refl

module _ {root limit : ℕ} {s : MemState} (inv : IsMapped root limit s) where
  mem_lookup_pa-page : (v w : ℕ) → page v ≡ page w → mem_lookup_pa v s ≡ mem_lookup_pa w s
  mem_lookup_pa-page v w same =
      lookup-table s root v inv.based
      ∙ ap phys (table-page s.mem root v w same)
      ∙ sym (lookup-table s root w inv.based)

module _ {root from limit : ℕ} {s : MemState} (f : View) (inv : IsMapped root limit s)
    (shows : Shows from limit s f) where
  map-Shows :
      (v p : ℕ) {result : Option MemState}
      (m : Maps root limit v (p / 0x1000 * 0x1000) s inv result)
      → from ≤ inv.next
      → inv.next + 3 ≤ limit
      → p < 2 ^ 36
      → Shows from limit m.after (set_page (page v) (some (p / 0x1000)) f)
  map-Shows v p m low room fits = record {
    lookups = λ w out. elim (Bool-cases (page w == page v)) [
      | inl e ↦ rw e (mem_lookup_pa-page m.inv' w v ((==_iff (page w) (page v)).0 e) ∙ m.hit)
      | inr e ↦ rw e (m.others w (ground arith) (omega (arith, out, m.taken)) ∙ shows.lookups w out)
    ];
    small = λ k n e. ground (arith, shows.small k n);
  }

  unmap-Shows :
      (v : ℕ) {result : ℕ × MemState} (u : Unmapped root limit v s inv result)
      → Shows from limit result.1 (set_page (page v) none f)
  unmap-Shows v u = record {
    lookups = λ w out. elim (Bool-cases (page w == page v)) [
      | inl e ↦ rw e (mem_lookup_pa-page u.inv' w v ((==_iff (page w) (page v)).0 e) ∙ u.gone)
      | inr e ↦ rw e (u.others w (ground arith) ∙ shows.lookups w out)
    ];
    small = λ k n e. ground (arith, shows.small k n);
  }

  -- The code of an unmapping says whether there was a translation.
  unmap-code :
      (v : ℕ) {result : ℕ × MemState} (u : Unmapped root limit v s inv result)
      → Outside from limit v
      → result.0 ≡ (elim (f (page v)) [ none ↦ int_minus_one | some n ↦ 0 ])
  unmap-code v {result} u out = elim (Option-cases (f (page v))) [
    | inl e ↦
        let miss : mem_lookup_pa v s ≡ ptr_minus_one = shows.lookups v out ∙ ap phys e in
        elim u.status [
          | inl (_, r) ↦ rw e (ap (λ t. t.0) r)
          | inr (b, r) ↦ absurd (omega (arith, miss, b))
        ]
    | inr (n, e) ↦
        let hit : mem_lookup_pa v s ≡ n * 0x1000 = shows.lookups v out ∙ ap phys e in
        elim u.status [
          | inl (b, r) ↦ absurd (omega (arith, hit, b, shows.small (page v) n e))
          | inr (_, r) ↦ rw e r
        ]
  ]

-- From well-formed tables that show a function, any sequence of maps to physical addresses of 36 bits with the
-- attributes of a user page, unmaps and lookups, all of pages outside the pool, with three pool pages for each map,
-- returns; its replies are those of the function that the calls
-- change, and the tables are well formed and show that function at the end.
pub run-Refines :
    {root from limit : ℕ} (depth : ℕ) (cs : List Call) {s : MemState} (f : View)
    (inv : IsMapped root limit s)
    → IsClient from limit cs
    → from ≤ inv.next
    → inv.next + most cs ≤ limit
    → Shows from limit s f
    → Refines root from limit (replay cs f) (run (suc (suc depth)) cs s)
unfolding run replay
run-Refines depth [] {s} f inv ok low room shows = record {
  after = s;
  returns = refl;
  inv' = inv;
  shows = shows;
}
run-Refines depth (map_pa v p ∷ cs) f inv ok low room shows =
    let m =
      mem_lookup_pa-mem_map_pa v p 0 pte_user_rw depth inv (omega arith) (omega arith) ok.0.1
        (omega (arith, room)) in
    let r =
      run-Refines depth cs (set_page (page v) (some (p / 0x1000)) f) m.inv' ok.1
        (omega (arith, m.taken)) (omega (arith, m.taken))
        (map-Shows f inv shows v p m low (omega (arith, room)) ok.0.1) in
    record { after = r.after; returns = rw m.returns r.returns; inv' = r.inv'; shows = r.shows }
run-Refines depth (unmap_va v ∷ cs) {s} f inv ok low room shows =
    let u = mem_lookup_pa-mem_unmap_va v inv in
    let r =
      run-Refines depth cs (set_page (page v) none f) u.inv' ok.1 (omega (arith, u.same_next))
        (omega (arith, u.same_next)) (unmap-Shows f inv shows v u) in
    record {
      after = r.after;
      returns = rw (r.returns, unmap-code f inv shows v u ok.0) refl;
      inv' = r.inv';
      shows = r.shows;
    }
run-Refines depth (lookup_pa v ∷ cs) f inv ok low room shows =
    let r = run-Refines depth cs f inv ok.1 low room shows in
    record {
      after = r.after;
      returns = rw (r.returns, shows.lookups v ok.0) refl;
      inv' = r.inv';
      shows = r.shows;
    }
