-- ===== src/Cursor.antt =====
-- The text cursor of the editor: crates/dbm-tui2/src/common/utils/cursor.rs.
pub mod Offset
pub mod Boundary
pub mod RoundTrip
mod Examples
