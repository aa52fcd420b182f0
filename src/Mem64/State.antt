-- ===== src/Mem64/State.antt =====
-- The invariant of the memory state of mem_util.c, and what a mapping leaves alone.
use qemu_tztest.Common.{ℕ, ◌*◌, ◌≤◌, ◌<◌, ◌≡◌, ◌⊎◌, some}
use qemu_tztest.Mem64.{MemState}
use qemu_tztest.Mem64.Table.{table}
use qemu_tztest.Mem64.Tree.{IsTree}
use qemu_tztest.Mem64.Leaf.{page}

-- The invariant of the memory state: the tables form a tree below `root`, and the pool of unused
-- frames from `next` to `limit` is reachable through the tables at its own addresses, as the
-- start-up code (el3_map_pt) arranges.
pub record IsMapped (root limit : ℕ) (s : MemState) : Type 0 where
  pub next : ℕ
  pub lvl : ℕ → ℕ
  pub up : ℕ → ℕ
  pub tree : IsTree s.mem root next limit lvl up
  pub based : s.mem_pgtbl_base ≡ root * 0x1000
  pub pool : s.mem_next_pa ≡ next * 0x1000
  pub bound : limit ≤ 0x1000000
  pub ready : (n : ℕ) → next ≤ n → n < limit → (q : ℕ) × (table s.mem root (n * 0x1000) 3 ≡ some q)

-- No translation differs between `s` and `t`, but for pages `from` to `to` and for what `P` exempts.
abbrev pub SameBut : ℕ → (from to : ℕ) → MemState → MemState → (ℕ → Type 0) → Type 0
SameBut root from to s t P =
    (w : ℕ) → P w → (page w < from) ⊎ (to ≤ page w) → table t.mem root w 4 ≡ table s.mem root w 4
