-- ===== src/Lib.antt =====
-- qemu-tztest: a bare-metal test program for the ARM security extensions. It runs at four exception
-- levels and worlds: a monitor at EL3, a kernel at EL1 and a user program at EL0 in the secure and in
-- the nonsecure world. The user program issues SVCs to its kernel; the kernel answers or issues an SMC
-- with a descriptor in a buffer that it shares with EL3; the monitor answers or switches worlds and so
-- resumes the other kernel in the SMC_OP_YIELD it waits in. The tests are run at the level and in the
-- world that a table names, and count their verdicts in one control block that all levels share.
--
-- The AArch64 configuration of the sources is modelled, and of ARMv7 the memory
-- utilities, the ELF loader and four tests.
--   Common, Bits: tests, lists and binary digits over the native numbers; machine words are numbers
--     with their wrap-around written out.
--   Mem64: common/aarch64/mem_util.c and vmsa.h. `MemState` is the page table memory, the table base,
--     the next pool page and the heap pointer; each C function has its definition. The depth given to
--     mem_map_pa bounds the nesting of its calls for new tables, and a new table is
--     itself mapped by such a call, below tables that exist by then. heap_loop has one round of fuel per
--     page and two more, since it goes on by a page per round. Mem64.Unmap is the loop by which a level
--     unmaps its start-up segment, with a round of fuel per page and one more.
--     Mem64.Abstract is the abstract view of the three calls, a function from pages to physical pages.
--   Mem32: common/arm/mem_util.c and vmsa.h, the two-level tables of ARMv7, under the same names, with
--     the same depth and fuel. Mem32.Pool has the invariant of its pool of pages; a new table is one page. Mem32.Left
--     follows a mapping below a table and with a new one, Mem32.Block a block of the heap.
--   Layout: common/aarch64/memory.h and common/arm/memory.h over platform/virt/platform.h: where each level
--     has its tables, pool, heap and stack. Layout.Requests is a run of mappings, unmappings and heap requests
--     over an interface `Memory`, with a `Contract` for the states; Aarch64 and Arm fill both with their
--     mem_util.c, the tables and pools of a level being those of its memory.h. On ARMv7 the pool is taken to
--     end with the level's memory.
--     Apart is about who owns which part of the memory.
--   Interop: common/interop.h, smc.h, svc.h, syscntl.h. A descriptor is its five 64-bit words, and each
--     structure of the union reads and writes its own bytes of them.
--   Tztest: tztest/tztest.c (Run, Driver), the check macros of tztest/tztest_internal.h (Check) and the
--     test functions (Cpu): tztest/el0/tztest_el0.c (User), tztest/el1/tztest_el1.c and
--     tztest_el1_nsec.c (Kernel). A test runs on a `Cpu`: the control block, the instructions that it
--     executes and the access to system registers, each with all that a trap does. Its checks are
--     followed on a `View` of the state: the four registers that matter, and the control block.
--     Arm has the tests that are compiled for ARMv7 alone or differ there, of tztest_el1_nsec.c,
--     tztest_el1_sec.c and tztest/el3/tztest_el3.c, on a CPU that may also read and write its CPSR.
--   El3: el3/el3.c, the SMC and exception handlers; El3.World adds the
--     SMC path of the vector and the switch of worlds in assembly, El3.Start is el3_start.
--   El1: el1/el1.c, the SVC and exception handlers of either kernel. What lies below a kernel is the
--     interface `Below`, and its field `monitor` is the state of EL3. El1.Start is el1_start, and
--     El1.Loader is el1/aarch64/el1_loader.c and El1.LoaderArm el1/arm/el1_loader.c; each loop by pages has
--     fuel for its pages and two more. Copied says what they copy. The functions of libcflat that the
--     loaders call are the record `Libc`.
--   El0: el0/el0.c, el0/secure/el0_sec.c and el0/nonsecure/el0_nsec.c.
--   System: one request through all levels, composed of the handlers above (Interop), and one world's
--     machine (Machine): a kernel over the monitor as the `Cpu` of the test functions, where an instruction
--     or register access that traps goes through the exception handlers of el1/el1.c and el3/el3.c.
--     Which access traps where is the architecture's and is written out there for the registers and
--     instructions that the tests use. Worlds puts two such machines on one monitor: the world that waits
--     is the field `parked` of El1State, a switch exchanges the two with the registers that the monitor
--     banks, and the secure world's turn is a round or two of its program's loop. `start` is
--     tztest_start there, from the interop test to the end of the table, and Worlds.Main is main of the
--     nonsecure program around it. Arm puts check_mask_bits on the monitor.
--
-- A handler takes and returns its state; `none` is a fault, or fuel that ran out; a shutdown is
-- a value of the configuration register in EL3's state. What the
-- levels around a handler do, how the processor's registers react and what an unfilled descriptor on
-- the stack holds are parameters. The loaders read the image's headers as they are before the copying,
-- except that a read of the entry point after the unmapping may fault, as the parameter `reads` says.
-- The processor does not implement SCR.SMD, which would make SMC undefined: el1_check_smc sets the bit and
-- expects no effect. The test counters are kept in the shared control block, by value, so that a count
-- reaches every level whatever the page tables map; that the page of counters is mapped is stated apart.
--
-- Not modelled: the rest of the assembly (context save, start-up), the other ARMv7 variants, among them
-- the tables of test functions; libcflat, a copy of the library of kvm-unit-tests; device
-- output; the boards other than virt.
pub mod Common
pub mod Bits
pub mod Mem64
pub mod Mem32
pub mod Layout
pub mod Interop
pub mod Tztest
pub mod El3
pub mod El1
pub mod El0
pub mod System
