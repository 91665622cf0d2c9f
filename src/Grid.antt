-- ===== src/Grid.antt =====
-- The list of the results pane,
-- crates/dbm-tui2/src/features/sql_workspace/sql_tab/results/list: state.rs, search.rs and update.rs,
-- with the search input of common/components/search.rs.
pub mod Search
pub mod Layout
pub mod State
pub mod Find
pub mod View
pub mod Effect
pub mod Paging
pub mod Handlers
pub mod Update
pub mod Invariant
pub mod Sane
pub mod Kept
pub mod Counting
pub mod Turning
pub mod Landing
pub mod Cursor
pub mod Chord
pub mod Still
pub mod Disarm
pub mod Occurrences
mod Examples
