-- ===== src/Edit.antt =====
-- Row editing of a result grid: crates/dbm-tui2/src/features/sql_workspace/sql_tab/results, files
-- edit.rs (Session), the editing methods of list/state.rs (Live) and edit_sql.rs (Sql).
pub mod Session
pub mod Valid
pub mod Count
pub mod Sql
pub mod Quote
pub mod Commit
pub mod Conflict
pub mod Keys
pub mod Live
pub mod Cells
pub mod Appending
pub mod Deleting
pub mod Coherence
pub mod Undelete
mod Examples
