-- ===== src/Sys.antt =====
-- The kernel's messages, kernel/sys.
pub mod Logger
pub mod Panic
