-- ===== src/Layout.antt =====
-- common/aarch64/memory.h and common/arm/memory.h: where the levels have their memory, over the bases of
-- platform/virt/platform.h.
pub mod Aarch64
pub mod Arm
pub mod Requests
use qemu_tztest.Common.{ℕ, ◌+◌, ◌≤◌, ◌<◌}

abbrev pub flash_base : ℕ
flash_base = 0

abbrev pub ram_base : ℕ
ram_base = 0x40000000

abbrev pub stack_size : ℕ
stack_size = 0x40000

-- The constants of the monitor or of a kernel, and of a user program.
pub record Layout : Type 0 where
  pub flash : ℕ
  pub ram : ℕ
  pub ram_size : ℕ
  pub base_va : ℕ
  pub pgtbl_size : ℕ
  pub pgtbl_base : ℕ
  pub stack_size : ℕ
  pub stack_base : ℕ
  pub pa_pool_base : ℕ
  pub pte_pool_base : ℕ
  pub init_stack : ℕ
  pub va_heap_base : ℕ

pub record UserLayout : Type 0 where
  pub flash : ℕ
  pub ram : ℕ
  pub ram_size : ℕ
  pub base_va : ℕ
  pub stack_size : ℕ
  pub stack_base : ℕ

-- The level that a layout is of.
pub data Level : Type 0 where
  monitor secure_kernel nonsecure_kernel : Level

pub data World : Type 0 where
  secure_world nonsecure_world : World

-- Who owns a part of the memory.
pub data Owner : Type 0 where
  kernel : Level → Owner
  user : World → Owner

unfoldable pub InRam : (Level → Layout) → (World → UserLayout) → Owner → ℕ → Type 0
InRam layout user_layout (kernel l) a =
    ((layout l).ram ≤ a) × (a < (layout l).ram + (layout l).ram_size)
InRam layout user_layout (user w) a =
    ((user_layout w).ram ≤ a) × (a < (user_layout w).ram + (user_layout w).ram_size)
