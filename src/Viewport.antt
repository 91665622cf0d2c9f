-- ===== src/Viewport.antt =====
-- Panes and their scrollbars: crates/dbm-tui2/src/common/layout/pane_scrollbar.rs. Lengths of type
-- usize are added without a wrap, since those of lists in memory and of terminals stay far below 2^64.
pub mod Track
pub mod Anchor
pub mod Hit
pub mod Window
mod Examples
