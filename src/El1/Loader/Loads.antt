-- ===== src/El1/Loader/Loads.antt =====
-- The loader copies the sections, and takes the image out of the page tables again.
use qemu_tztest.Common.{
  ℕ, zero, suc, ◌+◌, ◌*◌, ◌≤◌, ◌<◌, ◌≡◌, ◌≢◌, ◌⊎◌, Bool, true, false, Option, none, some,
  if◌then◌else◌, u64,
}
use qemu_tztest.Mem64.{MemState, mem_lookup_pa, ptr_minus_one}
use qemu_tztest.Mem64.Leaf.{page}
use qemu_tztest.Mem64.State.{IsMapped}
use qemu_tztest.El1.Loader.{Libc, Elf, Loading, is_loaded}
use qemu_tztest.El1.Loader.Copied.{pages_of, copied_sections}
use qemu_tztest.El1.Loader.Kept.{Kept, Backed, Outside}

-- `left` sections from the `i`th on have been walked over.
record Loads (libc : Libc) (root limit left i elfbase pages : ℕ) (e : Elf) (l : Loading)
    (inv : IsMapped root limit l.mm) (result : Option Loading) : Type 0 where
  after : Loading
  returns : result ≡ some after
  kept : Kept root limit (4 * pages) l.mm inv after.mm
  bytes : after.bytes ≡ copied_sections libc u64 left i elfbase e l.bytes
  backed :
      (h k : ℕ)
      → i ≤ h
      → h < i + left
      → is_loaded libc (e.shdr h) ≡ true
      → k < pages_of (e.shdr h).sh_size
      → Outside inv.next limit (u64 ((e.shdr h).sh_addr + k * 0x1000))
      → Backed root (u64 ((e.shdr h).sh_addr + k * 0x1000)) after.mm

-- What `el1_load_el0` leaves: false and the entry point, if that can be read still, well-formed tables without a
-- translation of the image, the bytes of the sections, and a translation of each of their pages.
pub record Loaded (libc : Libc) (reads : MemState → ℕ → Bool) (root limit b n : ℕ) (e : Elf)
    (l : Loading) (inv : IsMapped root limit l.mm) (result : Option (Bool × ℕ × Loading))
    : Type 0 where
  pub after : Loading
  pub returns :
      result ≡ (if reads after.mm (b * 0x1000 + 24) then some (false, e.e_entry, after) else none)
  pub inv' : IsMapped root limit after.mm
  pub gone : (k : ℕ) → b ≤ k → k < b + n → mem_lookup_pa (k * 0x1000) after.mm ≡ ptr_minus_one
  pub bytes : after.bytes ≡ copied_sections libc u64 e.e_shnum 0 (b * 0x1000) e l.bytes
  pub backed :
      (h k : ℕ)
      → h < e.e_shnum
      → is_loaded libc (e.shdr h) ≡ true
      → k < pages_of (e.shdr h).sh_size
      → Outside inv.next limit (u64 ((e.shdr h).sh_addr + k * 0x1000))
      → (page (u64 ((e.shdr h).sh_addr + k * 0x1000)) < b)
        ⊎ (b + n ≤ page (u64 ((e.shdr h).sh_addr + k * 0x1000)))
      → mem_lookup_pa (u64 ((e.shdr h).sh_addr + k * 0x1000)) after.mm ≢ ptr_minus_one

module _ (libc : Libc) where
  -- The pages of the sections `i` to `i + left` that are loaded.
  unfoldable pub pages_needed : (left i : ℕ) → Elf → ℕ
  pages_needed zero i e = 0
  pages_needed (suc left) i e =
      (if is_loaded libc (e.shdr i) then pages_of (e.shdr i).sh_size else 0)
      + pages_needed left (i + 1) e
