-- ===== src/System.antt =====
-- The levels of both worlds put together.
pub mod Arm
pub mod Interop
pub mod Machine
pub mod Worlds
pub mod Examples
