-- ===== src/Mem64.antt =====
-- common/aarch64/mem_util.c: the four-level page tables, the physical page counter and the heap.
-- `mem` is physical memory by 8-byte words: the code reaches the tables through an identity
-- mapping, so a pointer to an entry is its physical address. `none` is a recursion of `mem_map_pa`
-- (or a loop) that has used up its fuel.
pub mod Table
pub mod Decode
pub mod Walk
pub mod Tree
pub mod Leaf
pub mod Grow
pub mod Fast
pub mod State
pub mod NewTable
pub mod Lookup
pub mod Heap
pub mod Unmap
pub mod Abstract
pub mod Refinement
pub mod Examples
pub mod Map
use qemu_tztest.Common.{
  ℕ, zero, suc, ◌+◌, ◌-◌, ◌*◌, ◌/◌, ◌%◌, ◌^◌, Bool, Option, none, some, bit_and, bit_or, ◌==◌, ltb,
  if◌then◌else◌, u64, ◌<<<◌, ◌>>>◌, ◌>>=◌,
}

abbrev pub page_size : ℕ
page_size = 0x1000

-- Attribute bits of common/aarch64/vmsa.h.
abbrev pub pte_access : ℕ
pte_access = 0x400

abbrev pub pte_priv_rw : ℕ
pte_priv_rw = 0

abbrev pub pte_user_rw : ℕ
pte_user_rw = 0x40

abbrev pub pte_page : ℕ
pte_page = 3

abbrev pub pte_table : ℕ
pte_table = 3

pub record MemState : Type 0 where
  pub mem : ℕ → ℕ
  pub mem_pgtbl_base : ℕ
  pub mem_next_pa : ℕ
  pub mem_heap_pool : ℕ

abbrev pub update : (ℕ → ℕ) → ℕ → ℕ → ℕ → ℕ
update f a v b = if a == b then v else f b

unfoldable pub store : ℕ → ℕ → MemState → MemState
store a v s = record s { mem = update s.mem a v }

unfoldable pub mem_allocate_pa : MemState → ℕ × MemState
mem_allocate_pa s = (s.mem_next_pa, record s { mem_next_pa = u64 (s.mem_next_pa + page_size) })

-- `((vaddr >> (39-(i*9))) & 0x1FF) << 3`, and the entry's address `pa | off`.
unfoldable pub pte_off : ℕ → ℕ → ℕ
pte_off vaddr i = bit_and (vaddr >>> (39 - i * 9)) 0x1FF <<< 3

unfoldable pub pte_at : ℕ → ℕ → ℕ → ℕ
pte_at pa vaddr i = bit_or pa (pte_off vaddr i)

unfoldable pub is_invalid : ℕ → Bool
is_invalid e = bit_and e 0x1 == 0

unfoldable pub next_table : ℕ → ℕ
next_table e = bit_and e 0x000FFFFFF000

-- What `*pte = pa; *pte |= (PTE_TABLE | tblattr);` does.
unfoldable pub link_table : ℕ → ℕ → ℕ → MemState → MemState
link_table pte pa tblattr s =
    let s' = store pte pa s in store pte (bit_or (s'.mem pte) (bit_or pte_table tblattr)) s'

-- One round of the loop of `mem_map_pa`; `nested pa` is its call `mem_map_pa(pa, pa, 0, PTE_USER_RW)`.
unfoldable pub map_level :
    (ℕ → MemState → Option MemState) → (vaddr tblattr i pa : ℕ) → MemState → Option (ℕ × MemState)
map_level nested vaddr tblattr i pa s =
    let pte = pte_at pa vaddr i in
    if is_invalid (s.mem pte)
    then (let (pa', s1) = mem_allocate_pa s in
        do s2 ← nested pa' s1; some (pa', link_table pte pa' tblattr s2))
    else some (next_table (s.mem pte), s)

unfoldable pub map_levels :
    (ℕ → MemState → Option MemState)
    → (vaddr tblattr left i pa : ℕ) → MemState
    → Option (ℕ × MemState)
map_levels nested vaddr tblattr zero i pa s = some (pa, s)
map_levels nested vaddr tblattr (suc left) i pa s = do
  (pa', s') ← map_level nested vaddr tblattr i pa s
  map_levels nested vaddr tblattr left (i + 1) pa' s'

-- The last level: `*pte = paddr & ~0xFFF; *pte |= (PTE_PAGE | PTE_ACCESS | pgattr);`.
unfoldable pub map_page : (vaddr paddr pgattr pa : ℕ) → MemState → MemState
map_page vaddr paddr pgattr pa s =
    let pte = pte_at pa vaddr 3 in
    let s' = store pte (bit_and paddr 0xFFFFFFFFFFFFF000) s in
    store pte (bit_or (s'.mem pte) (bit_or (bit_or pte_page pte_access) pgattr)) s'

-- The fuel bounds how deep the calls for new tables nest.
unfoldable pub mem_map_pa : ℕ → (vaddr paddr tblattr pgattr : ℕ) → MemState → Option MemState
mem_map_pa zero vaddr paddr tblattr pgattr s = none
mem_map_pa (suc fuel) vaddr paddr tblattr pgattr s = do
  (pa, s') ←
      map_levels (λ q. mem_map_pa fuel q q 0 pte_user_rw) vaddr tblattr 3 0 s.mem_pgtbl_base s
  some (map_page vaddr paddr pgattr pa s')

unfoldable pub mem_map_va : ℕ → (addr tblattr pgattr : ℕ) → MemState → Option MemState
mem_map_va fuel addr tblattr pgattr s =
    let (pa, s') = mem_allocate_pa s in mem_map_pa fuel addr pa tblattr pgattr s'

-- The loop of `mem_unmap_va` and `mem_lookup_pa`: the last entry's address and its page, or the
-- early return at an invalid entry.
unfoldable pub walk : (vaddr left i pa pte : ℕ) → MemState → Option (ℕ × ℕ)
walk vaddr zero i pa pte s = some (pte, pa)
walk vaddr (suc left) i pa pte s =
    let pte' = pte_at pa vaddr i in
    let rest = walk vaddr left (i + 1) (next_table (s.mem pte')) pte' s in
    if is_invalid (s.mem pte') then none else rest

-- `-1` as an `int` and as a `void *`.
abbrev pub int_minus_one : ℕ
int_minus_one = 0xFFFFFFFF

abbrev pub ptr_minus_one : ℕ
ptr_minus_one = 0xFFFFFFFFFFFFFFFF

unfoldable pub mem_unmap_va : ℕ → MemState → ℕ × MemState
mem_unmap_va addr s = elim (walk addr 4 0 s.mem_pgtbl_base 0 s) [
  | none ↦ (int_minus_one, s)
  | some (pte, pa) ↦ (0, store pte 0 s)
]

unfoldable pub mem_lookup_pa : ℕ → MemState → ℕ
mem_lookup_pa va s = elim (walk va 4 0 s.mem_pgtbl_base 0 s) [
  | none ↦ ptr_minus_one
  | some (pte, pa) ↦ pa
]

-- The loop of `mem_heap_allocate`, `for (off = 0; off < len; off += 0x1000)`; it returns `off`.
unfoldable pub heap_loop : ℕ → (depth len off : ℕ) → MemState → Option (ℕ × MemState)
heap_loop zero depth len off s = none
heap_loop (suc fuel) depth len off s =
    let rest = (do
      s' ← mem_map_va depth (u64 (s.mem_heap_pool + off)) 0 pte_user_rw s
      heap_loop fuel depth len (u64 (off + 0x1000)) s') in
    if ltb off len then rest else some (off, s)

unfoldable pub mem_heap_allocate : (depth len : ℕ) → MemState → Option (ℕ × MemState)
mem_heap_allocate depth len s = do
  (off, s') ← heap_loop (len / 0x1000 + 2) depth len 0 s
  some (s.mem_heap_pool, record s' { mem_heap_pool = u64 (s'.mem_heap_pool + off) })
