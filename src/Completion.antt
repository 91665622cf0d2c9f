-- ===== src/Completion.antt =====
-- The completion of SQL: its tokenizer,
-- crates/dbm-tui2/src/features/sql_workspace/sql_tab/editor/sql_completion/tokens.rs.
pub mod Tokens
pub mod Spans
pub mod Total
pub mod Suppressed
mod Examples
