-- ===== src/Db.antt =====
-- The database layer: backend/src/db/.
pub mod Pool
pub mod Client
pub mod Users
pub mod Problems
pub mod SeedLoader
mod Tests
