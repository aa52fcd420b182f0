-- ===== src/El1/Loader.antt =====
-- el1/aarch64/el1_loader.c: the loader of the user program. The header structures of elf.h are what the
-- image says (their sizes multiply without overflow); memory by virtual address holds what the copies move.
pub mod Copied
pub mod Kept
pub mod Pages
pub mod Loads
pub mod Examples
use qemu_tztest.Common.{
  ℕ, zero, suc, ◌+◌, ◌*◌, ◌/◌, ◌%◌, ◌^◌, Bool, true, false, ◌&&◌, ◌||◌, not, Option, none, some,
  List, [], ◌∷◌, ◌==◌, ltb, if◌then◌else◌, u64, ◌>>=◌,
}
use qemu_tztest.Mem64.{MemState, mem_map_pa, mem_map_va, pte_user_rw}
use qemu_tztest.Mem64.Unmap.{unmap_loop}

-- A section header, with the name that `sh_name` leads to.
pub record Section : Type 0 where
  pub name : List ℕ
  pub sh_addr : ℕ
  pub sh_offset : ℕ
  pub sh_size : ℕ

pub record Elf : Type 0 where
  pub mag0 : ℕ
  pub mag1 : ℕ
  pub mag2 : ℕ
  pub mag3 : ℕ
  pub e_machine : ℕ
  pub e_shoff : ℕ
  pub e_shentsize : ℕ
  pub e_shnum : ℕ
  pub e_entry : ℕ
  pub shdr : ℕ → Section

-- The ELF constants: the magic bytes, EM_ARM and EM_AARCH64.
abbrev pub has_magic : Elf → Bool
has_magic e = (e.mag0 == 0x7F) && ((e.mag1 == 0x45) && ((e.mag2 == 0x4C) && (e.mag3 == 0x46)))

abbrev pub is_arm : Elf → Bool
is_arm e = (e.e_machine == 40) || (e.e_machine == 183)

abbrev pub text : List ℕ
text = b'.' ∷ b't' ∷ b'e' ∷ b'x' ∷ b't' ∷ []

abbrev pub data_name : List ℕ
data_name = b'.' ∷ b'd' ∷ b'a' ∷ b't' ∷ b'a' ∷ []

abbrev pub Memory : Type 0
Memory = ℕ → ℕ

-- The two functions of libcflat that the loader calls: `memcpy` on memory by bytes, and `strcmp` on two
-- strings by their bytes, without the zero that ends them.
pub record Libc : Type 0 where
  pub memcpy : (dest src n : ℕ) → Memory → Memory
  pub strcmp : List ℕ → List ℕ → ℕ

-- The page tables and the bytes by virtual address.
pub record Loading : Type 0 where
  pub mm : MemState
  pub bytes : Memory

-- `for (off = 0x1000; off < elf_len; off += 0x1000) mem_map_pa(elfbase + off, elfbase + off, …);`
unfoldable pub map_image : (fuel depth elfbase elf_len off : ℕ) → MemState → Option MemState
map_image zero depth elfbase elf_len off m = none
map_image (suc fuel) depth elfbase elf_len off m =
    let rest = (do
      m' ← mem_map_pa depth (u64 (elfbase + off)) (u64 (elfbase + off)) 0 pte_user_rw m
      map_image fuel depth elfbase elf_len (u64 (off + 0x1000)) m') in
    if ltb off elf_len then rest else some m

abbrev pub elf_len : Elf → ℕ
elf_len e = u64 (e.e_shoff + e.e_shentsize * e.e_shnum)

module _ (libc : Libc) where
  open libc use {memcpy, strcmp}

  -- The pages of one section, mapped to new pages and filled.
  unfoldable pub load_pages : (fuel depth base_va sect size off : ℕ) → Loading → Option Loading
  load_pages zero depth base_va sect size off l = none
  load_pages (suc fuel) depth base_va sect size off l =
      let rest = (do
        m ← mem_map_va depth (u64 (base_va + off)) 0 pte_user_rw l.mm
        load_pages fuel depth base_va sect size (u64 (off + 0x1000)) (record {
          mm = m;
          bytes = memcpy (u64 (base_va + off)) (u64 (sect + off)) 0x1000 l.bytes;
        })) in
      if ltb off size then rest else some l

  abbrev pub is_loaded : Section → Bool
  is_loaded h = (strcmp h.name text == 0) || (strcmp h.name data_name == 0)

  -- The loop over the section headers, with `left` of them to go.
  unfoldable pub load_sections : (left i depth elfbase : ℕ) → Elf → Loading → Option Loading
  unfolding load_pages
  load_sections zero i depth elfbase e l = some l
  load_sections (suc left) i depth elfbase e l = do
    let h = e.shdr i
    l' ←
        (if is_loaded h
          then load_pages (h.sh_size / 0x1000 + 2) depth h.sh_addr (u64 (elfbase + h.sh_offset))
              h.sh_size 0 l
          else some l)
    load_sections left (i + 1) depth elfbase e l'

  -- `exit` is SMC_EXIT(), which shuts the machine down; if it returned, the loader would go on. `reads` says whether the
  -- processor can read an address with given page tables, which the tables alone do not decide, since no code here
  -- invalidates translations that it holds: the entry point is read when the image is unmapped already, at offset 24
  -- of its header, and faults otherwise. The result is the value returned, which is false, and the entry point.
  unfoldable pub el1_load_el0 :
      (exit : Loading → Option Loading) (reads : MemState → ℕ → Bool) (depth elfbase : ℕ)
      → Elf
      → Loading
      → Option (Bool × ℕ × Loading)
  unfolding map_image load_sections
  el1_load_el0 exit reads depth elfbase e l = do
    m ← mem_map_pa depth elfbase elfbase 0 pte_user_rw l.mm
    let l1 = record l { mm = m }
    l2 ← (if has_magic e && is_arm e then some l1 else exit l1)
    m3 ← map_image (elf_len e / 0x1000 + 2) depth elfbase (elf_len e) 0x1000 l2.mm
    l4 ← load_sections e.e_shnum 0 depth elfbase e (record l2 { mm = m3 })
    m5 ← unmap_loop (elf_len e / 0x1000 + 2) (elf_len e) 0 elfbase l4.mm
    if reads m5 (u64 (elfbase + 24)) then some (false, e.e_entry, record l4 { mm = m5 }) else none
