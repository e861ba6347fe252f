-- ===== src/Db.antt =====
-- crates/zkie-runtime/src/db.rs and db/: the durable state of a run, a module for each file or
-- group of operations.
pub mod Tables
pub mod Jobs
pub mod Apply
pub mod Attempts
pub mod Blocking
pub mod Failures
pub mod Commits
pub mod Peaks
pub mod Readiness
pub mod Steps
