-- ===== src/Tztest.antt =====
-- tztest/: the test driver that all exception levels link.
pub mod Arm
pub mod Run
pub mod Check
pub mod Driver
pub mod Cpu
pub mod Examples
