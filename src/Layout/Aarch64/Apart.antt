-- ===== src/Layout/Aarch64/Apart.antt =====
-- common/aarch64/memory.h: who owns which part of the memory.
use qemu_tztest.Common.{ℕ, ◌+◌, ◌≤◌, ◌<◌, ◌≡◌, refl, arith}
use qemu_tztest.Layout.{
  Level, monitor, secure_kernel, nonsecure_kernel, secure_world, nonsecure_world, Owner, kernel,
  user, InRam,
}
use qemu_tztest.Layout.Aarch64.{layout, user_layout}

-- An address in the memory of the monitor or of a kernel belongs to nobody else.
ram-Apart :
    (l : Level) (o : Owner) (a : ℕ)
    → InRam layout user_layout (kernel l) a
    → InRam layout user_layout o a
    → o ≡ kernel l
unfolding InRam
ram-Apart monitor (kernel monitor) a h k = refl
ram-Apart monitor (kernel secure_kernel) a h k = absurd (omega arith)
ram-Apart monitor (kernel nonsecure_kernel) a h k = absurd (omega arith)
ram-Apart monitor (user secure_world) a h k = absurd (omega arith)
ram-Apart monitor (user nonsecure_world) a h k = absurd (omega arith)
ram-Apart secure_kernel (kernel monitor) a h k = absurd (omega arith)
ram-Apart secure_kernel (kernel secure_kernel) a h k = refl
ram-Apart secure_kernel (kernel nonsecure_kernel) a h k = absurd (omega arith)
ram-Apart secure_kernel (user secure_world) a h k = absurd (omega arith)
ram-Apart secure_kernel (user nonsecure_world) a h k = absurd (omega arith)
ram-Apart nonsecure_kernel (kernel monitor) a h k = absurd (omega arith)
ram-Apart nonsecure_kernel (kernel secure_kernel) a h k = absurd (omega arith)
ram-Apart nonsecure_kernel (kernel nonsecure_kernel) a h k = refl
ram-Apart nonsecure_kernel (user secure_world) a h k = absurd (omega arith)
ram-Apart nonsecure_kernel (user nonsecure_world) a h k = absurd (omega arith)

-- The tables of the monitor or of a kernel lie in its own memory.
tables-InRam :
    (l : Level) (a : ℕ)
    → (layout l).pgtbl_base ≤ a
    → a < (layout l).pgtbl_base + (layout l).pgtbl_size
    → InRam layout user_layout (kernel l) a
unfolding InRam
tables-InRam monitor a h k = (omega arith, omega arith)
tables-InRam secure_kernel a h k = (omega arith, omega arith)
tables-InRam nonsecure_kernel a h k = (omega arith, omega arith)
