-- ===== src/El1/LoaderArm/Examples.antt =====
-- The ARMv7 loader at the small memory of Mem32/Examples.antt: an image of two pages with one code section.
use qemu_tztest.Mem32.Examples.{small}
use qemu_tztest.El1.LoaderArm.{Loading}

abbrev bare : Loading
bare = record { mm = small; bytes = λ a. a }
