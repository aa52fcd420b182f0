-- ===== src/El1/LoaderArm/Loads.antt =====
-- The ARMv7 loader copies the sections, and takes the image out of the page tables again.
use qemu_tztest.Common.{
  ℕ, ◌+◌, ◌-◌, ◌*◌, ◌≤◌, ◌<◌, ◌≡◌, true, Bool, if◌then◌else◌, none, Option, some, u32,
}
use qemu_tztest.Mem32.{MemState, mem_lookup_pa}
use qemu_tztest.Mem32.Lookup.{Present}
use qemu_tztest.Mem32.Pool.{IsPool}
use qemu_tztest.Mem32.Fresh.{Kept}
use qemu_tztest.El1.Loader.{Libc, Elf, is_loaded}
use qemu_tztest.El1.Loader.Copied.{pages_of, copied_pages, copied_sections}
use qemu_tztest.El1.LoaderArm.{Loading}

-- Pages `j` to `n` of a section at `base` have been mapped and filled from `sect`.
record Paged (libc : Libc) (root limit base sect j n : ℕ) (l : Loading)
    (inv : IsPool root limit l.mm) (result : Option Loading) : Type 0 where
  after : Loading
  returns : result ≡ some after
  kept : Kept root limit (2 * (n - j)) l.mm inv after.mm
  bytes : after.bytes ≡ copied_pages libc u32 (n - j) j base sect l.bytes
  there : (k : ℕ) → j ≤ k → k < n → Present root (u32 (base + k * 0x1000)) after.mm

-- `left` sections from the `i`th on have been walked over.
record Loads (libc : Libc) (root limit left i elfbase pages : ℕ) (e : Elf) (l : Loading)
    (inv : IsPool root limit l.mm) (result : Option Loading) : Type 0 where
  after : Loading
  returns : result ≡ some after
  kept : Kept root limit (2 * pages) l.mm inv after.mm
  bytes : after.bytes ≡ copied_sections libc u32 left i elfbase e l.bytes
  there :
      (h k : ℕ)
      → i ≤ h
      → h < i + left
      → is_loaded libc (e.shdr h) ≡ true
      → k < pages_of (e.shdr h).sh_size
      → Present root (u32 ((e.shdr h).sh_addr + k * 0x1000)) after.mm

-- What `el1_load_el0` leaves: true and the entry point, if that can be read still, well-formed tables, lookups of the
-- image's pages that give 0, the bytes of the sections, and a table for each of their pages.
pub record Loaded (libc : Libc) (reads : MemState → ℕ → Bool) (root limit b n : ℕ) (e : Elf)
    (l : Loading) (inv : IsPool root limit l.mm) (result : Option (Bool × ℕ × Loading))
    : Type 0 where
  pub after : Loading
  pub returns :
      result ≡ (if reads after.mm (b * 0x1000 + 24) then some (true, e.e_entry, after) else none)
  pub inv' : IsPool root limit after.mm
  pub gone : (k : ℕ) → k < n → mem_lookup_pa ((b + k) * 0x1000) after.mm ≡ 0
  pub stays : (w : ℕ) → Present root w l.mm → Present root w after.mm
  pub bytes : after.bytes ≡ copied_sections libc u32 e.e_shnum 0 (b * 0x1000) e l.bytes
  pub there :
      (h k : ℕ)
      → h < e.e_shnum
      → is_loaded libc (e.shdr h) ≡ true
      → k < pages_of (e.shdr h).sh_size
      → Present root (u32 ((e.shdr h).sh_addr + k * 0x1000)) after.mm
