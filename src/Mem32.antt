-- ===== src/Mem32.antt =====
-- common/arm/mem_util.c and vmsa.h: the two-level page tables of ARMv7. `mem` is physical memory by 4-byte
-- words; `none` is a recursion of `mem_map_pa`, or a loop, that has used up its fuel.
pub mod Decode
pub mod Lookup
pub mod Map
pub mod Pool
pub mod Grow
pub mod Left
pub mod Mapping
pub mod Fresh
pub mod Heap
pub mod Block
pub mod Examples
use qemu_tztest.Common.{
  ℕ, zero, suc, ◌+◌, ◌*◌, ◌/◌, ◌%◌, ◌^◌, Bool, Option, none, some, bit_and, bit_or, ◌==◌, ltb,
  if◌then◌else◌, u32, ◌<<<◌, ◌>>>◌, ◌>>=◌,
}
use qemu_tztest.Mem64.{page_size, update}

abbrev pub pte_access : ℕ
pte_access = 0x10

abbrev pub pte_user_rw : ℕ
pte_user_rw = 0x30

abbrev pub pte_page : ℕ
pte_page = 2

abbrev pub pte_table : ℕ
pte_table = 1

pub record MemState : Type 0 where
  pub mem : ℕ → ℕ
  pub mem_pgtbl_base : ℕ
  pub mem_next_pa : ℕ
  pub mem_heap_pool : ℕ

unfoldable pub store : ℕ → ℕ → MemState → MemState
store a v s = record s { mem = update s.mem a v }

unfoldable pub mem_allocate_pa : MemState → ℕ × MemState
mem_allocate_pa s = (s.mem_next_pa, record s { mem_next_pa = u32 (s.mem_next_pa + page_size) })

-- The addresses of the two entries of an address: `l1idx` is its megabyte, `l2idx` its page of that.
unfoldable pub l1_pte : (base vaddr : ℕ) → ℕ
l1_pte base vaddr = bit_or (bit_and base 0xFFFFC000) (bit_and (vaddr >>> 20) 0xFFF <<< 2)

unfoldable pub l2_pte : (entry vaddr : ℕ) → ℕ
l2_pte entry vaddr = bit_or (bit_and entry 0xFFFFFC00) (bit_and (vaddr >>> 12) 0xFF <<< 2)

unfoldable pub no_table : ℕ → Bool
no_table e = bit_and e 0x3 == 0

-- A new table for an invalid entry; `nested pa` is the call `mem_map_pa(pa, pa, 0, PTE_USER_RW)`.
unfoldable pub link_new :
    (ℕ → MemState → Option MemState) → (pte tblattr : ℕ) → MemState → Option MemState
link_new nested pte tblattr s =
    let (pa, s1) = mem_allocate_pa s in
    let added = (do
      s2 ← nested pa s1
      let s3 = store pte pa s2
      some (store pte (bit_or (s3.mem pte) (bit_or pte_table tblattr)) s3)) in
    if no_table (s.mem pte) then added else some s

-- `*pte = paddr & ~0xFFF; *pte |= (PTE_PAGE | PTE_ACCESS | pgattr);`.
unfoldable pub map_page : (vaddr paddr pgattr entry : ℕ) → MemState → MemState
map_page vaddr paddr pgattr entry s =
    let pte = l2_pte entry vaddr in
    let s' = store pte (bit_and paddr 0xFFFFF000) s in
    store pte (bit_or (s'.mem pte) (bit_or (bit_or pte_page pte_access) pgattr)) s'

-- The fuel bounds how deep the calls for new tables nest.
unfoldable pub mem_map_pa : ℕ → (vaddr paddr tblattr pgattr : ℕ) → MemState → Option MemState
mem_map_pa zero vaddr paddr tblattr pgattr s = none
mem_map_pa (suc fuel) vaddr paddr tblattr pgattr s = do
  let pte = l1_pte s.mem_pgtbl_base vaddr
  s' ← link_new (λ q. mem_map_pa fuel q q 0 pte_user_rw) pte tblattr s
  some (map_page vaddr paddr pgattr (s'.mem pte) s')

unfoldable pub mem_map_va : ℕ → (addr tblattr pgattr : ℕ) → MemState → Option MemState
mem_map_va fuel addr tblattr pgattr s =
    let (pa, s') = mem_allocate_pa s in mem_map_pa fuel addr pa tblattr pgattr s'

unfoldable pub mem_unmap_va : ℕ → MemState → ℕ × MemState
mem_unmap_va addr s =
    let entry = s.mem (l1_pte s.mem_pgtbl_base addr) in
    if no_table entry then (0xFFFFFFFF, s) else (0, store (l2_pte entry addr) 0 s)

unfoldable pub heap_loop : ℕ → (depth len off : ℕ) → MemState → Option (ℕ × MemState)
heap_loop zero depth len off s = none
heap_loop (suc fuel) depth len off s =
    let rest = (do
      s' ← mem_map_va depth (u32 (s.mem_heap_pool + off)) 0 pte_user_rw s
      heap_loop fuel depth len (u32 (off + 0x1000)) s') in
    if ltb off len then rest else some (off, s)

unfoldable pub mem_heap_allocate : (depth len : ℕ) → MemState → Option (ℕ × MemState)
mem_heap_allocate depth len s = do
  (off, s') ← heap_loop (len / 0x1000 + 2) depth len 0 s
  some (s.mem_heap_pool, record s' { mem_heap_pool = u32 (s'.mem_heap_pool + off) })

-- Only the first-level entry is tested.
unfoldable pub mem_lookup_pa : ℕ → MemState → ℕ
mem_lookup_pa va s =
    let entry = s.mem (l1_pte s.mem_pgtbl_base va) in
    if no_table entry
    then 0xFFFFFFFF
    else bit_or (bit_and (s.mem (l2_pte entry va)) 0xFFFFF000) (bit_and va 0xFFF)
