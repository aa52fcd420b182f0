-- ===== src/El1/Loader/Examples.antt =====
-- The loader at the small memory of Mem64/Examples.antt: an image of two pages with one code section.
use qemu_tztest.Common.{ℕ, Bool, true, ◌+◌, ◌-◌, List, [], ◌∷◌, ◌==◌, ◌&&◌, leb, ltb, if◌then◌else◌}
use qemu_tztest.Mem64.Examples.{boot}
use qemu_tztest.El1.Loader.{Memory, Libc, Section, Elf, Loading, text}

-- A block copy and a comparison of names.
pub copy : (dest src n : ℕ) → Memory → Memory
copy dest src n m a = if leb dest a && ltb a (dest + n) then m (src + (a - dest)) else m a

unfoldable pub compare_names : List ℕ → List ℕ → ℕ
compare_names [] [] = 0
compare_names [] (y ∷ ys) = 1
compare_names (x ∷ xs) [] = 1
compare_names (x ∷ xs) (y ∷ ys) = let rest = compare_names xs ys in if x == y then rest else 1

abbrev pub plain_libc : Libc
plain_libc = record { memcpy = copy; strcmp = compare_names }

abbrev pub code : Section
code = record { name = text; sh_addr = 0x40000000; sh_offset = 0x40; sh_size = 0x1001 }

abbrev pub image : Elf
image = record {
  mag0 = 0x7F;
  mag1 = 0x45;
  mag2 = 0x4C;
  mag3 = 0x46;
  e_machine = 183;
  e_shoff = 0x1800;
  e_shentsize = 0x40;
  e_shnum = 1;
  e_entry = 0x40000000;
  shdr = λ i. code;
}

abbrev bare : Loading
bare = record { mm = boot; bytes = λ a. a }

-- A processor that reads whatever it has read before.
abbrev pub remembers : {S : Type 0} → S → ℕ → Bool
remembers s v = true
