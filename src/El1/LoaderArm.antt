-- ===== src/El1/LoaderArm.antt =====
-- el1/arm/el1_loader.c: the loader of the user program for ARMv7. Addresses and sizes have 32 bits; the header
-- structures of elf.h are what the image says (their sizes multiply without overflow).
pub mod Image
pub mod Loads
pub mod Examples
use qemu_tztest.Common.{
  ℕ, zero, suc, ◌+◌, ◌*◌, ◌/◌, ◌%◌, ◌^◌, Bool, true, ◌&&◌, Option, none, some, ltb, if◌then◌else◌,
  u32, ◌>>=◌,
}
use qemu_tztest.Mem32.{MemState, mem_map_pa, mem_map_va, mem_unmap_va, pte_user_rw}
use qemu_tztest.El1.Loader.{Memory, Libc, Section, Elf, has_magic, is_arm, is_loaded}

pub record Loading : Type 0 where
  pub mm : MemState
  pub bytes : Memory

-- `for (off = 0x1000; off < elf_len; off += 0x1000) mem_map_pa(elfbase + off, elfbase + off, …);`
unfoldable pub map_image : (fuel depth elfbase elf_len off : ℕ) → MemState → Option MemState
map_image zero depth elfbase elf_len off m = none
map_image (suc fuel) depth elfbase elf_len off m =
    let rest = (do
      m' ← mem_map_pa depth (u32 (elfbase + off)) (u32 (elfbase + off)) 0 pte_user_rw m
      map_image fuel depth elfbase elf_len (u32 (off + 0x1000)) m') in
    if ltb off elf_len then rest else some m

-- `for (off = 0; off < elf_len; off += 0x1000) mem_unmap_va(elfbase + off);`
unfoldable pub unmap_image : (fuel elfbase elf_len off : ℕ) → MemState → Option MemState
unmap_image zero elfbase elf_len off m = none
unmap_image (suc fuel) elfbase elf_len off m =
    let rest =
      unmap_image fuel elfbase elf_len (u32 (off + 0x1000))
        (mem_unmap_va (u32 (elfbase + off)) m).1 in
    if ltb off elf_len then rest else some m

abbrev pub elf_len : Elf → ℕ
elf_len e = u32 (e.e_shoff + e.e_shentsize * e.e_shnum)

module _ (libc : Libc) where
  -- The pages of one section, mapped to new pages and filled.
  unfoldable pub load_pages : (fuel depth base_va sect size off : ℕ) → Loading → Option Loading
  load_pages zero depth base_va sect size off l = none
  load_pages (suc fuel) depth base_va sect size off l =
      let rest = (do
        m ← mem_map_va depth (u32 (base_va + off)) 0 pte_user_rw l.mm
        load_pages fuel depth base_va sect size (u32 (off + 0x1000)) (record {
          mm = m;
          bytes = libc.memcpy (u32 (base_va + off)) (u32 (sect + off)) 0x1000 l.bytes;
        })) in
      if ltb off size then rest else some l

  -- The loop over the section headers, with `left` of them to go.
  unfoldable pub load_sections : (left i depth elfbase : ℕ) → Elf → Loading → Option Loading
  unfolding load_pages
  load_sections zero i depth elfbase e l = some l
  load_sections (suc left) i depth elfbase e l = do
    let h = e.shdr i
    l' ←
        (if is_loaded libc h
          then load_pages (h.sh_size / 0x1000 + 2) depth h.sh_addr (u32 (elfbase + h.sh_offset))
              h.sh_size 0 l
          else some l)
    load_sections left (i + 1) depth elfbase e l'

  -- `exit` is SMC_EXIT(), after which the loader would go on. `reads` says whether the processor can read an address with
  -- given page tables, as for AArch64: the entry point is read when the image is unmapped already, at offset 24 of its
  -- header, and faults otherwise. The result is the value returned, which is true, and the entry point.
  unfoldable pub el1_load_el0 :
      (exit : Loading → Option Loading) (reads : MemState → ℕ → Bool) (depth elfbase : ℕ)
      → Elf
      → Loading
      → Option (Bool × ℕ × Loading)
  unfolding map_image load_sections unmap_image
  el1_load_el0 exit reads depth elfbase e l = do
    m ← mem_map_pa depth elfbase elfbase 0 pte_user_rw l.mm
    let l1 = record l { mm = m }
    l2 ← (if has_magic e && is_arm e then some l1 else exit l1)
    m3 ← map_image (elf_len e / 0x1000 + 2) depth elfbase (elf_len e) 0x1000 l2.mm
    l4 ← load_sections e.e_shnum 0 depth elfbase e (record l2 { mm = m3 })
    m5 ← unmap_image (elf_len e / 0x1000 + 2) elfbase (elf_len e) 0 l4.mm
    if reads m5 (u32 (elfbase + 24)) then some (true, e.e_entry, record l4 { mm = m5 }) else none
