-- ===== src/Pool.antt =====
-- crates/dbm-core/src/connection_pool.rs: the pools that tabs share, one for each connection.
-- An `Arc` is an address in `arcs`; `held` has one entry for every clone outside the manager's map,
-- so that `Arc::strong_count` is a count over both. Each section under the lock is one function;
-- what a call does between two sections, with the lock released, is an argument of the second.
pub mod Manager
pub mod Counts
pub mod Invariant
pub mod Sharing
pub mod Health
mod Examples
