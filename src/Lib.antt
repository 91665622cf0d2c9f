-- ===== src/Lib.antt =====
-- dbm2, a terminal tool for PostgreSQL instances: its crates are a core (crates/dbm-core), the
-- discovery of local servers (crates/dbm-discovery), the PostgreSQL driver (crates/dbm-driver-pg), a
-- store (crates/dbm-store), a command line (crates/dbm-cli) and the terminal interface
-- (crates/dbm-tui2). The interface keeps a state for each pane, which pure `update` functions and
-- methods change; tabs share database pools through the core's connection pool manager.
--
-- What is modelled where:
-- - Base: what the models share. Numbers are the native ℕ, with the wrap-around or saturation of a
--   machine width written out (Base/Words); a text is the list of its code points (Base/Strings), a
--   hash map an association list (Base/Assoc), a hash set a list (Base/HashSet), both in no
--   particular order.
-- - Pool: crates/dbm-core/src/connection_pool.rs. The manager's map, the `Arc`s that were made and
--   the clones that others hold; each section under the lock is a function, and a step relation
--   interleaves the sections of concurrent calls with what callers do between them.
-- - Edit: row editing of the result grid, crates/dbm-tui2/src/features/sql_workspace/sql_tab/results:
--   Session is edit.rs, Live the editing methods of list/state.rs, Sql edit_sql.rs.
-- - Page: the pages of a query's results, results/pagination.rs beside the former. An `Instant` is a
--   number of nanoseconds.
-- - Viewport: crates/dbm-tui2/src/common/layout/pane_scrollbar.rs. Track is a drag's way to an
--   offset, Anchor the viewport, Hit the tracks and hit tests. The layout solver of ratatui is a
--   parameter.
-- - Splitter: common/layout/splitter.rs beside it, and the SQL tab's splitter state,
--   features/sql_workspace/sql_tab/splitter/state.rs. A panic is `none`.
-- - Paginate: crates/dbm-driver-pg/src/pagination.rs. The tokenizer works on what is left of the text,
--   with a round of fuel for each character; a slice inside a character is `none`.
-- - Grid: the list of the results pane, results/list with common/components/search.rs and the column
--   widths of common/view/format.rs. State is the state, whose edited part is Edit's; Search the search
--   input; Find the matches; View what is shown; Paging and Handlers the arms of `update`, each of
--   which returns the state, the effects in their order and whether to draw; Update puts them together.
--   A panic of the search is `none`; the case folding and the display width of a text, and the two
--   clocks, are arguments.
-- - Results: the pane around the list, results/update.rs, msg.rs, state.rs, detail_edit.rs and detail/.
--   Detail is the detail pane and its draft, Message the messages and what the gates refuse, State the
--   pane's state, Arms the arms of `update` that do not ask the list, Update the whole of it. The editor of edtui is a parameter, a record of its operations (Editor, with what
--   is modelled of crates/dbm-tui2/src/common/editor.rs). The intents and the splitter are left out.
-- - Editability: crates/dbm-tui2/src/common/utils/sql_editability.rs, which works on what is left of the
--   text, and the effect CheckEditability of results/effect.rs (Check), in which the answer of the
--   database about primary keys is a parameter. The loops that take a part off the text each time have a
--   round of fuel for each of its characters.
-- - Cursor: crates/dbm-tui2/src/common/utils/cursor.rs, positions in a text and byte offsets.
-- - Completion: the tokenizer of the completion, sql_tab/editor/sql_completion/tokens.rs, with a round of
--   fuel for each character; each round takes at least one.
--
-- Not modelled: drawing, terminal input and output and the event loop; the store, the driver's
-- connections and the discovery, which are database, file and network access around little logic of
-- their own; the vendored editor, another project's library; and, for now, the explorer, the
-- instance workspace, the history, the ranking of completions, and the key and mouse handlers.
pub mod Base
pub mod Pool
pub mod Edit
pub mod Page
pub mod Viewport
pub mod Splitter
pub mod Paginate
pub mod Grid
pub mod Results
pub mod Editability
pub mod Cursor
pub mod Completion
