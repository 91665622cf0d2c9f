-- ===== src/Editability.antt =====
-- Which results may be edited: the analysis of a query,
-- crates/dbm-tui2/src/common/utils/sql_editability.rs, and the check that follows on it,
-- features/sql_workspace/sql_tab/results/effect.rs.
pub mod Comments
pub mod Keywords
pub mod Identifiers
pub mod Columns
pub mod Analyze
pub mod Check
pub mod Hidden
pub mod Scan
pub mod Places
pub mod Standing
pub mod Toplevel
pub mod Lists
pub mod Tables
pub mod Editable
pub mod Unlock
mod Examples
