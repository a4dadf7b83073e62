-- ===== src/Judge.antt =====
-- backend/src/judge: compiling and running a submission, comparing outputs, the worker pool.
pub mod Diff
pub mod Runner
pub mod Compiler
pub mod Pipeline
pub mod WorkerPool
mod Tests
