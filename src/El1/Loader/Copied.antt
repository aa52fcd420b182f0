-- ===== src/El1/Loader/Copied.antt =====
-- What the loaders copy: the pages of the sections, counted rather than walked by offsets. `wrap` is the wrap-around of
-- the addresses.
use qemu_tztest.Common.{ℕ, zero, suc, ◌+◌, ◌*◌, ◌/◌, ◌≡◌, refl, true, false, if◌then◌else◌}
use qemu_tztest.El1.Loader.{Memory, Libc, Elf, is_loaded}

abbrev pub pages_of : ℕ → ℕ
pages_of size = (size + 0xFFF) / 0x1000

module _ (libc : Libc) (wrap : ℕ → ℕ) where
  -- `left` pages from the `j`th on.
  unfoldable pub copied_pages : (left j base sect : ℕ) → Memory → Memory
  copied_pages zero j base sect m = m
  copied_pages (suc left) j base sect m =
      copied_pages left (j + 1) base sect
        (libc.memcpy (wrap (base + j * 0x1000)) (wrap (sect + j * 0x1000)) 0x1000 m)

  -- The loaded ones of `left` sections from the `i`th on.
  unfoldable pub copied_sections : (left i elfbase : ℕ) → Elf → Memory → Memory
  copied_sections zero i elfbase e m = m
  copied_sections (suc left) i elfbase e m =
      let h = e.shdr i in
      let here = copied_pages (pages_of h.sh_size) 0 h.sh_addr (wrap (elfbase + h.sh_offset)) m in
      copied_sections left (i + 1) elfbase e (if is_loaded libc h then here else m)

  pub copied_sections-loaded :
      (left i elfbase : ℕ) (e : Elf) (m : Memory)
      → is_loaded libc (e.shdr i) ≡ true
      → copied_sections (suc left) i elfbase e m
        ≡ copied_sections left (i + 1) elfbase e (
            copied_pages
              (pages_of (e.shdr i).sh_size)
              0
              (e.shdr i).sh_addr
              (wrap (elfbase + (e.shdr i).sh_offset))
              m)
  unfolding copied_sections
  copied_sections-loaded left i elfbase e m yes' = rw yes' refl

  pub copied_sections-skipped :
      (left i elfbase : ℕ) (e : Elf) (m : Memory)
      → is_loaded libc (e.shdr i) ≡ false
      → copied_sections (suc left) i elfbase e m ≡ copied_sections left (i + 1) elfbase e m
  unfolding copied_sections
  copied_sections-skipped left i elfbase e m no' = rw no' refl
