-- ===== src/Mem32/Fresh.antt =====
-- mem_map_va and mem_unmap_va of ARMv7 over the pool.
use qemu_tztest.Common.{
  ℕ, suc, ◌+◌, ◌*◌, ◌/◌, ◌%◌, ◌^◌, ◌≤◌, ◌<◌, ◌≡◌, ◌≢◌, arith, ap, ◌∙◌, some, Option, u32,
  Bool-cases, ◌==◌, refl, inl, inr,
}
use qemu_tztest.Mem64.{page_size}
use qemu_tztest.Mem32.{
  MemState, mem_map_pa, mem_map_va, mem_allocate_pa, mem_unmap_va, mem_lookup_pa, pte_user_rw,
}
use qemu_tztest.Mem32.Lookup.{Present, slot, megabyte}
use qemu_tztest.Mem32.Map.{mem_unmap_va-Cleared, mem_unmap_va-missing}
use qemu_tztest.Mem32.Pool.{IsPool, taken_page, OneWord-IsPool, OneWord-Present}
use qemu_tztest.Mem32.Mapping.{mem_map_pa-Pooled}

-- Tables and pool are well formed, at most `k` pages of the pool are taken, and every table stays.
pub record Kept (root limit k : ℕ) (s : MemState) (inv : IsPool root limit s) (after : MemState)
    : Type 0 where
  pub inv' : IsPool root limit after
  pub taken : (inv.next ≤ inv'.next) × (inv'.next ≤ inv.next + k)
  pub stays : (w : ℕ) → Present root w s → Present root w after

pub Kept-refl :
    {root limit : ℕ} (k : ℕ) {s : MemState} (inv : IsPool root limit s) → Kept root limit k s inv s
Kept-refl k inv = record { inv' = inv; taken = (omega arith, omega arith); stays = λ w p. p }

pub Kept-trans :
    {root limit j k n : ℕ} {s t u : MemState} {inv : IsPool root limit s}
    (a : Kept root limit j s inv t)
    → Kept root limit k t a.inv' u
    → j + k ≤ n
    → Kept root limit n s inv u
Kept-trans a b fits = record {
  inv' = b.inv';
  taken = (omega (arith, a.taken, b.taken), omega (arith, a.taken, b.taken, fits));
  stays = λ w p. b.stays w (a.stays w p);
}

-- The address is mapped to the next page of the pool.
pub record Fresh (root limit v : ℕ) (s : MemState) (inv : IsPool root limit s)
    (result : Option MemState) : Type 0 where
  pub after : MemState
  pub returns : result ≡ some after
  pub kept : Kept root limit 2 s inv after
  pub grows : suc inv.next ≤ kept.inv'.next
  pub heap : after.mem_heap_pool ≡ s.mem_heap_pool
  pub present : Present root v after
  pub hit :
      (w : ℕ)
      → w < 2 ^ 32
      → w / 4096 ≡ v / 4096
      → mem_lookup_pa w after ≡ inv.next * 0x1000 + w % 4096

pub mem_map_va-Fresh :
    {root limit : ℕ} {s : MemState} (f v : ℕ) (inv : IsPool root limit s)
    → v < 2 ^ 32
    → inv.next + 2 ≤ limit
    → Fresh root limit v s inv (mem_map_va (suc (suc f)) v 0 pte_user_rw s)
unfolding mem_map_va mem_allocate_pa taken_page
mem_map_va-Fresh {root} {limit} {s} f v inv narrow room =
    let inv1 = taken_page inv (omega arith) in
    let m =
      mem_map_pa-Pooled f v (inv.next * 0x1000) pte_user_rw inv1 narrow (omega (arith, inv.bound))
        (omega arith) (omega arith) in
    let frame : inv.next * 0x1000 / 4096 * 4096 ≡ inv.next * 0x1000 = omega arith in
    record {
      after = m.after;
      returns =
          ap
            (λ a.
              mem_map_pa (suc (suc f)) v a 0 pte_user_rw
                (record s { mem_next_pa = u32 (s.mem_next_pa + page_size) }))
            inv.pool
          ∙ m.returns;
      kept = record {
        inv' = m.inv';
        taken = (omega (arith, m.taken), omega (arith, m.taken));
        stays = m.stays;
      };
      grows = m.taken.0;
      heap = m.heap;
      present = m.present;
      hit = λ w fit e. m.hit w fit e ∙ ap (λ x. x + w % 4096) frame;
    }

-- A page that has a table is unmapped, and nothing is taken.
pub record Freed (root limit v : ℕ) (s : MemState) (inv : IsPool root limit s) (after : MemState)
    : Type 0 where
  pub kept : Kept root limit 0 s inv after
  pub gone : (w : ℕ) → w < 2 ^ 32 → w / 4096 ≡ v / 4096 → mem_lookup_pa w after ≡ w % 4096
  pub others :
      (w : ℕ) → w < 2 ^ 32 → w / 4096 ≢ v / 4096 → mem_lookup_pa w after ≡ mem_lookup_pa w s

pub mem_unmap_va-Freed :
    {root limit : ℕ} {s : MemState} (v : ℕ) (inv : IsPool root limit s)
    → v < 2 ^ 32
    → Present root v s
    → Freed root limit v s inv (mem_unmap_va v s).1
unfolding OneWord-IsPool
mem_unmap_va-Freed {root} {limit} {s} v inv narrow present =
    let m = mem_unmap_va-Cleared v inv.tables narrow present in
    record {
      kept = record {
        inv' = OneWord-IsPool inv v present m.writes m.inv';
        taken = (omega arith, omega arith);
        stays = OneWord-Present inv v present m.writes m.inv';
      };
      gone = m.hit;
      others = m.others;
    }

-- Whether or not there is a page to unmap, tables and pool are well formed afterwards and nothing is taken.
pub record Unmapped (root limit : ℕ) (s : MemState) (inv : IsPool root limit s) (after : MemState)
    : Type 0 where
  pub inv' : IsPool root limit after
  pub same_next : inv'.next ≡ inv.next
  pub same_heap : after.mem_heap_pool ≡ s.mem_heap_pool

pub mem_unmap_va-Unmapped :
    {root limit : ℕ} {s : MemState} (v : ℕ) (inv : IsPool root limit s)
    → v < 2 ^ 32
    → Unmapped root limit s inv (mem_unmap_va v s).1
unfolding OneWord-IsPool
mem_unmap_va-Unmapped {root} {limit} {s} v inv narrow =
    elim (Bool-cases (s.mem (slot root (megabyte v)) % 4 == 0)) [
      | inl gone ↦
          rw (mem_unmap_va-missing v inv.tables gone)
            (record { inv' = inv; same_next = refl; same_heap = refl })
      | inr there ↦
          let present : Present root v s = ground (arith, there) in
          let m = mem_unmap_va-Cleared v inv.tables narrow present in
          record {
            inv' = OneWord-IsPool inv v present m.writes m.inv';
            same_next = refl;
            same_heap = m.writes.heap;
          }
    ]
