-- ===== src/Page.antt =====
-- The pages of a query's results, crates/dbm-tui2/src/features/sql_workspace/sql_tab/results/pagination.rs:
-- the page arithmetic, the moves by a viewport, the chord of a repeated key, and the toolbar's layout.
pub mod Math
pub mod Cover
pub mod Scroll
pub mod Toolbar
pub mod Hits
pub mod Input
mod Examples
