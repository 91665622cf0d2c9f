-- ===== src/Results.antt =====
-- The results pane as a whole, crates/dbm-tui2/src/features/sql_workspace/sql_tab/results: the list
-- (Grid) and the detail pane with its cell editor behind one `update`, update.rs, msg.rs and state.rs.
pub mod Editor
pub mod Detail
pub mod Message
pub mod State
pub mod Arms
pub mod Update
pub mod Gates
pub mod Draft
pub mod Sound
pub mod Saving
pub mod Stale
pub mod Rerun
mod Examples
