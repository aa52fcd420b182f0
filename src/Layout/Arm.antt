-- ===== src/Layout/Arm.antt =====
-- common/arm/memory.h. Monitor mode shares the page tables of the secure kernel.
mod Apart
pub mod Bounds
pub mod Heap
pub mod Serve
pub mod Examples
use qemu_tztest.Common.{ℕ, ◌+◌, ◌*◌, ◌-◌}
use qemu_tztest.Layout.{
  flash_base, ram_base, stack_size, Layout, UserLayout, Level, monitor, secure_kernel,
  nonsecure_kernel, World, secure_world, nonsecure_world,
}

abbrev pub el3_layout : Layout
el3_layout = record {
  flash = flash_base;
  ram = ram_base;
  ram_size = 512 * 1024;
  base_va = 0x70000000;
  pgtbl_size = 0x40000;
  pgtbl_base = ram_base + 0xC000000;
  stack_size = stack_size;
  stack_base = 0x7FFF0000;
  pa_pool_base = ram_base + (0x40000 - 0x4000);
  pte_pool_base = ram_base;
  init_stack = ram_base + 512 * 1024 - 0x1000;
  va_heap_base = 0x70000000 + 0x1000000;
}

abbrev pub el1_s_layout : Layout
el1_s_layout = record {
  flash = flash_base + 0x10000;
  ram = ram_base + 0xC000000;
  ram_size = 512 * 1024;
  base_va = 0x60000000;
  pgtbl_size = 0x40000;
  pgtbl_base = ram_base + 0xC000000;
  stack_size = stack_size;
  stack_base = 0x6FFFF000;
  pa_pool_base = ram_base + 0xC000000 + 0x40000;
  pte_pool_base = ram_base + 0xC000000 + 0x4000;
  init_stack = ram_base + 0xC000000 + 512 * 1024 - 0x1000;
  va_heap_base = 0x60000000 + 0x1000000;
}

abbrev pub el1_ns_layout : Layout
el1_ns_layout = record {
  flash = flash_base + 0x20000;
  ram = ram_base + 0x8000000;
  ram_size = 512 * 1024;
  base_va = 0x50000000;
  pgtbl_size = 0x40000;
  pgtbl_base = ram_base + 0x8000000;
  stack_size = stack_size;
  stack_base = 0x5FFF0000;
  pa_pool_base = ram_base + 0x8000000 + 0x40000;
  pte_pool_base = ram_base + 0x8000000 + 0x4000;
  init_stack = ram_base + 0x8000000 + 512 * 1024 - 0x1000;
  va_heap_base = 0x50000000 + 0x1000000;
}

abbrev pub el0_s_layout : UserLayout
el0_s_layout = record {
  flash = flash_base + 0x50000;
  ram = ram_base + 0x4000000;
  ram_size = 512 * 1024;
  base_va = 0xC0000;
  stack_size = stack_size;
  stack_base = 0xEFF0000;
}

abbrev pub el0_ns_layout : UserLayout
el0_ns_layout = record {
  flash = flash_base + 0x30000;
  ram = ram_base + 0x4000000;
  ram_size = 512 * 1024;
  base_va = 0x80000;
  stack_size = stack_size;
  stack_base = 0xFFF0000;
}

-- The lowest of the stacks of a kernel's modes: SVC below UND, IRQ and ABT.
abbrev pub abt_stack_base : Layout → ℕ
abt_stack_base l = l.stack_base

abbrev pub irq_stack_base : Layout → ℕ
irq_stack_base l = abt_stack_base l - 0x2000

abbrev pub und_stack_base : Layout → ℕ
und_stack_base l = irq_stack_base l - 0x2000

abbrev pub svc_stack_base : Layout → ℕ
svc_stack_base l = und_stack_base l - 0x2000

abbrev pub layout : Level → Layout
layout monitor = el3_layout
layout secure_kernel = el1_s_layout
layout nonsecure_kernel = el1_ns_layout

abbrev pub user_layout : World → UserLayout
user_layout secure_world = el0_s_layout
user_layout nonsecure_world = el0_ns_layout
