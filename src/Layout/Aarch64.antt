-- ===== src/Layout/Aarch64.antt =====
-- common/aarch64/memory.h.
mod Apart
pub mod Bounds
pub mod Heap
pub mod Serve
pub mod Examples
use qemu_tztest.Common.{ℕ, ◌+◌, ◌*◌, ◌-◌}
use qemu_tztest.Layout.{
  flash_base, ram_base, stack_size, Layout, UserLayout, Level, monitor, secure_kernel,
  nonsecure_kernel, World, secure_world, nonsecure_world,
}

abbrev pub el3_layout : Layout
el3_layout = record {
  flash = flash_base;
  ram = ram_base;
  ram_size = 512 * 1024;
  base_va = 0xF000000000;
  pgtbl_size = 0x40000;
  pgtbl_base = ram_base + 512 * 1024 - 0x40000;
  stack_size = stack_size;
  stack_base = 0xFF00000000;
  pa_pool_base = ram_base + (0x40000 - 0x4000);
  pte_pool_base = ram_base;
  init_stack = ram_base + 512 * 1024 - 0x1000;
  va_heap_base = 0xF000000000 + 0x1000000;
}

abbrev pub el1_s_layout : Layout
el1_s_layout = record {
  flash = flash_base + 0x10000;
  ram = ram_base + 0x1000000;
  ram_size = 512 * 1024;
  base_va = 0xC000000000;
  pgtbl_size = 0x40000;
  pgtbl_base = ram_base + 0x1000000 + 512 * 1024 - 0x40000;
  stack_size = stack_size;
  stack_base = 0xCF00000000;
  pa_pool_base = ram_base + 0x1000000 + 512 * 1024 - 0x40000 + 0x40000;
  pte_pool_base = ram_base + 0x1000000 + 512 * 1024 - 0x40000 + 0x4000;
  init_stack = ram_base + 0x1000000 + 512 * 1024 - 0x1000;
  va_heap_base = 0xC000000000 + 0x1000000;
}

abbrev pub el1_ns_layout : Layout
el1_ns_layout = record {
  flash = flash_base + 0x20000;
  ram = ram_base + 0x2000000;
  ram_size = 512 * 1024;
  base_va = 0x80000000;
  pgtbl_size = 0x40000;
  pgtbl_base = ram_base + 0x2000000 + 512 * 1024 - 0x40000;
  stack_size = stack_size;
  stack_base = 0xFFFFF000;
  pa_pool_base = ram_base + 0x2000000 + 512 * 1024 - 0x40000 + 0x40000;
  pte_pool_base = ram_base + 0x2000000 + 512 * 1024 - 0x40000 + 0x4000;
  init_stack = ram_base + 0x2000000 + 512 * 1024 - 0x1000;
  va_heap_base = 0x80000000 + 0x1000000;
}

abbrev pub el0_s_layout : UserLayout
el0_s_layout = record {
  flash = flash_base + 0x50000;
  ram = ram_base + 0x4000000;
  ram_size = 512 * 1024;
  base_va = 0xC0000;
  stack_size = stack_size;
  stack_base = 0x80000000 - 0x1000;
}

abbrev pub el0_ns_layout : UserLayout
el0_ns_layout = record {
  flash = flash_base + 0x30000;
  ram = ram_base + 0x4000000;
  ram_size = 512 * 1024;
  base_va = 0x80000;
  stack_size = stack_size;
  stack_base = 0x70000000 - 0x1000;
}

abbrev pub layout : Level → Layout
layout monitor = el3_layout
layout secure_kernel = el1_s_layout
layout nonsecure_kernel = el1_ns_layout

abbrev pub user_layout : World → UserLayout
user_layout secure_world = el0_s_layout
user_layout nonsecure_world = el0_ns_layout
