-- ===== src/El1/Loader/Kept.antt =====
-- What the loader's mappings keep: well-formed tables, and each page that has a translation.
use qemu_tztest.Common.{
  ℕ, ◌+◌, ◌≤◌, ◌<◌, ◌≡◌, ◌≢◌, ◌⊎◌, arith, ◌∙◌, inl, inr, some, ◌==◌, ==_iff, Bool-cases,
}
use qemu_tztest.Mem64.{MemState}
use qemu_tztest.Mem64.Table.{table}
use qemu_tztest.Mem64.Leaf.{page}
use qemu_tztest.Mem64.State.{IsMapped, SameBut}
use qemu_tztest.Mem64.Refinement.{table-page}

-- The page of the address has a translation, and lies outside the pool.
abbrev pub Backed : (root v : ℕ) → MemState → Type 0
Backed root v s = (q : ℕ) × (table s.mem root v 4 ≡ some q)

abbrev pub Outside : (from limit v : ℕ) → Type 0
Outside from limit v = (page v < from) ⊎ (limit ≤ page v)

-- At most `k` pages of the pool are taken, and every page outside it that has a translation still has one.
pub record Kept (root limit k : ℕ) (s : MemState) (inv : IsMapped root limit s) (after : MemState)
    : Type 0 where
  pub inv' : IsMapped root limit after
  pub grows : inv.next ≤ inv'.next
  pub little : inv'.next ≤ inv.next + k
  pub stays : (w : ℕ) → Outside inv.next limit w → Backed root w s → Backed root w after

pub Kept-refl :
    {root limit : ℕ} {s : MemState} (inv : IsMapped root limit s) → Kept root limit 0 s inv s
Kept-refl inv = record {
  inv' = inv;
  grows = omega arith;
  little = omega arith;
  stays = λ w out b. b;
}

pub Kept-weaken :
    {root limit j n : ℕ} {s t : MemState} {inv : IsMapped root limit s}
    → Kept root limit j s inv t
    → j ≤ n
    → Kept root limit n s inv t
Kept-weaken a fits = record {
  inv' = a.inv';
  grows = a.grows;
  little = omega (arith, a.little, fits);
  stays = a.stays;
}

pub Kept-trans :
    {root limit j k n : ℕ} {s t u : MemState} {inv : IsMapped root limit s}
    (a : Kept root limit j s inv t)
    → Kept root limit k t a.inv' u
    → j + k ≤ n
    → Kept root limit n s inv u
Kept-trans a b fits = record {
  inv' = b.inv';
  grows = omega (arith, a.grows, b.grows);
  little = omega (arith, a.little, b.little, fits);
  stays = λ w out here. b.stays w (omega (arith, out, a.grows)) (a.stays w out here);
}

-- One page mapped, at `v`.
pub mapped-Kept :
    {root limit : ℕ} (k n v : ℕ) {s t : MemState} (inv : IsMapped root limit s)
    (inv' : IsMapped root limit t)
    → inv.next ≤ inv'.next
    → inv'.next ≤ inv.next + k
    → inv'.next ≤ limit
    → table t.mem root v 4 ≡ some n
    → SameBut root inv.next inv'.next s t (λ w. page w ≢ page v)
    → Kept root limit k s inv t
mapped-Kept {root} k n v {s} {t} inv inv' grows little within hit same = record {
  inv' = inv';
  grows = grows;
  little = little;
  stays = λ w out here. elim (Bool-cases (page w == page v)) [
    | inl e ↦ (n, table-page t.mem root w v ((==_iff (page w) (page v)).0 e) ∙ hit)
    | inr ne ↦ (here.0, same w (ground arith) (omega (arith, out, within)) ∙ here.1)
  ];
}
