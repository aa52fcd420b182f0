-- ===== src/Mem64/Abstract.antt =====
-- What mem_util.c promises its callers: a function from pages to physical pages, whatever the tables.
use qemu_tztest.Common.{
  ℕ, ◌+◌, ◌/◌, ◌^◌, ◌≤◌, ◌<◌, ◌≡◌, ◌⊎◌, Option, none, some, List, [], ◌∷◌, ◌==◌, if◌then◌else◌,
  ◌>>=◌,
}
use qemu_tztest.Mem64.{
  MemState, mem_map_pa, mem_lookup_pa, mem_unmap_va, int_minus_one, pte_user_rw,
}
use qemu_tztest.Mem64.Leaf.{page}
use qemu_tztest.Mem64.State.{IsMapped}
use qemu_tztest.Mem64.Lookup.{phys}

-- A caller's use of the three functions, and what it gets back of each.
pub data Call : Type 0 where
  map_pa : (vaddr paddr : ℕ) → Call
  unmap_va : (addr : ℕ) → Call
  lookup_pa : (va : ℕ) → Call

abbrev pub Replies : Type 0 → Type 0
Replies S = List ℕ × S

abbrev pub also : {S : Type 0} → ℕ → Replies S → Replies S
also r (rs, s) = (r ∷ rs, s)

-- The calls, one after the other, on the page tables.
unfoldable pub run : (depth : ℕ) → List Call → MemState → Option (Replies MemState)
run depth [] s = some ([], s)
run depth (map_pa v p ∷ cs) s = do s' ← mem_map_pa depth v p 0 pte_user_rw s; run depth cs s'
run depth (unmap_va v ∷ cs) s = do
  let (r, s') = mem_unmap_va v s
  rest ← run depth cs s'
  some (also r rest)
run depth (lookup_pa v ∷ cs) s = do rest ← run depth cs s; some (also (mem_lookup_pa v s) rest)

-- The same calls on a function from pages to physical pages.
abbrev pub View : Type 0
View = ℕ → Option ℕ

abbrev pub set_page : ℕ → Option ℕ → View → View
set_page k o f j = if j == k then o else f j

unfoldable pub replay : List Call → View → Replies View
replay [] f = ([], f)
replay (map_pa v p ∷ cs) f = replay cs (set_page (page v) (some (p / 0x1000)) f)
replay (unmap_va v ∷ cs) f =
    also (elim (f (page v)) [ none ↦ int_minus_one | some n ↦ 0 ])
      (replay cs (set_page (page v) none f))
replay (lookup_pa v ∷ cs) f = also (phys (f (page v))) (replay cs f)

-- Pages outside the pool, whose own mappings the tables make for themselves.
abbrev pub Outside : (from limit v : ℕ) → Type 0
Outside from limit v = (page v < from) ⊎ (limit ≤ page v)

abbrev pub IsCall : (from limit : ℕ) → Call → Type 0
IsCall from limit (map_pa v p) = Outside from limit v × (p < 2 ^ 36)
IsCall from limit (unmap_va v) = Outside from limit v
IsCall from limit (lookup_pa v) = Outside from limit v

abbrev pub IsClient : (from limit : ℕ) → List Call → Type 0
IsClient from limit [] = Unit
IsClient from limit (c ∷ cs) = IsCall from limit c × IsClient from limit cs

-- The pool pages that the calls may take.
abbrev pub most : List Call → ℕ
most [] = 0
most (map_pa v p ∷ cs) = 3 + most cs
most (unmap_va v ∷ cs) = most cs
most (lookup_pa v ∷ cs) = most cs

-- The tables show the function outside the pool.
pub record Shows (from limit : ℕ) (s : MemState) (f : View) : Type 0 where
  pub lookups : (w : ℕ) → Outside from limit w → mem_lookup_pa w s ≡ phys (f (page w))
  pub small : (k n : ℕ) → f k ≡ some n → n < 2 ^ 24

pub record Refines (root from limit : ℕ) (expected : Replies View)
    (result : Option (Replies MemState)) : Type 0 where
  pub after : MemState
  pub returns : result ≡ some (expected.0, after)
  pub inv' : IsMapped root limit after
  pub shows : Shows from limit after expected.1
