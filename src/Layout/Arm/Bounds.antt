-- ===== src/Layout/Arm/Bounds.antt =====
-- common/arm/memory.h against mem_util.c: the heap of a level grows towards its stacks.
use qemu_tztest.Common.{ℕ, ◌+◌, ◌-◌, ◌*◌, ◌/◌, ◌^◌, ◌≤◌, ◌<◌, ◌≡◌, refl, arith}
use qemu_tztest.Layout.{Level, monitor, secure_kernel, nonsecure_kernel}
use qemu_tztest.Layout.Arm.{layout, svc_stack_base}

-- The first-level table in units of its size, the pages from the base of the pool to the end of the level's memory, and
-- the first page of its heap.
unfoldable pub root_table : Level → ℕ
root_table l = (layout l).pgtbl_base / 0x4000

unfoldable pub pool_start : Level → ℕ
pool_start l = (layout l).pa_pool_base / 0x1000

unfoldable pub pool_end : Level → ℕ
pool_end l = ((layout l).ram + (layout l).ram_size) / 0x1000

unfoldable pub heap_page : Level → ℕ
heap_page l = (layout l).va_heap_base / 0x1000

-- Where the stack of the monitor ends, and the lowest of the stacks of a kernel's modes.
unfoldable pub stack_end : Level → ℕ
stack_end monitor = (layout monitor).stack_base - (layout monitor).stack_size
stack_end secure_kernel = svc_stack_base (layout secure_kernel) - (layout secure_kernel).stack_size
stack_end nonsecure_kernel =
    svc_stack_base (layout nonsecure_kernel) - (layout nonsecure_kernel).stack_size

pub pool_end-pool_start : (l : Level) → pool_end l ≤ pool_start l + 68
unfolding pool_end pool_start
pool_end-pool_start monitor = omega arith
pool_end-pool_start secure_kernel = omega arith
pool_end-pool_start nonsecure_kernel = omega arith

pub heap_page-stack_end : (l : Level) → (heap_page l + 68) * 0x1000 ≤ stack_end l
unfolding heap_page stack_end
heap_page-stack_end monitor = omega arith
heap_page-stack_end secure_kernel = omega arith
heap_page-stack_end nonsecure_kernel = omega arith

pub stack_end_lt : (l : Level) → stack_end l < 2 ^ 32
unfolding stack_end
stack_end_lt monitor = omega arith
stack_end_lt secure_kernel = omega arith
stack_end_lt nonsecure_kernel = omega arith

pub heap_page-va_heap_base : (l : Level) → heap_page l * 0x1000 ≡ (layout l).va_heap_base
unfolding heap_page
heap_page-va_heap_base monitor = refl
heap_page-va_heap_base secure_kernel = refl
heap_page-va_heap_base nonsecure_kernel = refl
