-- ===== src/Auth.antt =====
-- backend/src/auth: the rules for names and passwords, session ids and cookies, password hashing.
pub mod Validator
pub mod Session
pub mod Password
mod Tests
