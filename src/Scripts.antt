-- ===== src/Scripts.antt =====
-- The programs under backend/scripts.
pub mod Seed
pub mod ResetForTests
