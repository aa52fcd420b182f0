-- ===== src/Layout/Aarch64/Bounds.antt =====
-- common/aarch64/memory.h against mem_util.c: the heap of a level grows towards its stack.
use qemu_tztest.Common.{ℕ, ◌+◌, ◌-◌, ◌*◌, ◌/◌, ◌^◌, ◌≤◌, ◌≡◌, refl, arith}
use qemu_tztest.Layout.{Level, monitor, secure_kernel, nonsecure_kernel}
use qemu_tztest.Layout.Aarch64.{layout}

-- The frame of a level's root table, the end of its frames for tables, and the first page of its heap.
unfoldable pub root_frame : Level → ℕ
root_frame l = (layout l).pgtbl_base / 0x1000

unfoldable pub pool_end : Level → ℕ
pool_end l = ((layout l).pgtbl_base + (layout l).pgtbl_size) / 0x1000

unfoldable pub heap_page : Level → ℕ
heap_page l = (layout l).va_heap_base / 0x1000

-- Where the stack of a level ends.
unfoldable pub stack_end : Level → ℕ
stack_end l = (layout l).stack_base - (layout l).stack_size

pub pool_end-heap_page : (l : Level) → pool_end l ≤ heap_page l
unfolding pool_end heap_page
pool_end-heap_page monitor = omega arith
pool_end-heap_page secure_kernel = omega arith
pool_end-heap_page nonsecure_kernel = omega arith

pub pool_end-root_frame : (l : Level) → pool_end l ≡ root_frame l + 64
unfolding pool_end root_frame
pool_end-root_frame monitor = refl
pool_end-root_frame secure_kernel = refl
pool_end-root_frame nonsecure_kernel = refl

pub heap_page-stack_end : (l : Level) → (heap_page l + 64) * 0x1000 ≤ stack_end l
unfolding heap_page stack_end
heap_page-stack_end monitor = omega arith
heap_page-stack_end secure_kernel = omega arith
heap_page-stack_end nonsecure_kernel = omega arith

pub stack_end_lt : (l : Level) → stack_end l ≤ 2 ^ 48
unfolding stack_end
stack_end_lt monitor = omega arith
stack_end_lt secure_kernel = omega arith
stack_end_lt nonsecure_kernel = omega arith

pub heap_page-va_heap_base : (l : Level) → heap_page l * 0x1000 ≡ (layout l).va_heap_base
unfolding heap_page
heap_page-va_heap_base monitor = refl
heap_page-va_heap_base secure_kernel = refl
heap_page-va_heap_base nonsecure_kernel = refl
