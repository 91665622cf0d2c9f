-- ===== src/Paginate.antt =====
-- Paging of queries on the server: crates/dbm-driver-pg/src/pagination.rs.
pub mod Tokens
pub mod Statement
pub mod Scan
pub mod Single
mod Examples
