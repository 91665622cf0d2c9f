-- ===== src/Splitter.antt =====
-- The splitters between panes: crates/dbm-tui2/src/common/layout/splitter.rs and the state of the SQL
-- tab's two splitters, features/sql_workspace/sql_tab/splitter/state.rs. `none` is a panic.
pub mod Geometry
pub mod Tab
pub mod Room
pub mod Moves
mod Examples
