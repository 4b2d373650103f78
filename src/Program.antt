-- ===== src/Program.antt =====
-- The two programs under cmd.
pub mod Flags
pub mod Device
pub mod Service
