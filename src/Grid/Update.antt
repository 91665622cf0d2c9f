-- ===== src/Grid/Update.antt =====
-- `update` of list/update.rs.
use dbm.Base.{ℕ, Bool, true, false, Option, none, some, Text, nat_eq, list_eq, if◌then◌else◌}
use dbm.Edit.Live
use dbm.Edit.Live.{is_some, live_rows, ColumnInfo}
use dbm.Grid.State.{ListState}
use dbm.Grid.Find.{advance_search_match}
use dbm.Grid.View.{set_viewport}
use dbm.Grid.Effect.{
  ListMessage, set_result, editability_ready, clear_result, query_error, move_selection,
  set_selection, begin_search, search_key, search_navigate, copy_name, reset_selection, enter_edit,
  exit_edit, rollback, add_row, dup_row, del_row, del_chord, del_chord_cancel, set_row_limit,
  set_page, page_nav, chord, count, count_ready, run, commit_edits, sync_viewport, set_v_scroll,
  set_h_scroll, scroll_h, adjust_col_width, adjust_col_width_to,
}
use dbm.Grid.Paging.{
  Outcome, handle_set_result, handle_set_row_limit, handle_set_page, handle_page_nav,
  handle_page_chord, handle_count_rows, handle_count_ready,
}
use dbm.Grid.Handlers.{
  with_live, quiet, handle_editability_ready, handle_clear_result, handle_query_error,
  handle_move_selection, handle_set_selection, handle_begin_search, handle_search_key,
  handle_copy_name, handle_reset_selection, handle_run_query, handle_enter_edit, handle_del_chord,
  handle_commit, handle_set_v_scroll, handle_set_h_scroll, handle_scroll_h, handle_adjust_col_width,
  handle_adjust_col_width_to,
}

-- The messages that leave an armed `dd` armed: another `d` and the synchronisation of the viewport.
unfoldable pub keeps_chord : ListMessage → Bool
keeps_chord del_chord = true
keeps_chord (sync_viewport rows width) = true
keeps_chord _ = false

unfoldable pub disarm : ListMessage → ListState → ListState
unfolding keeps_chord
disarm message s = if keeps_chord message then s else record s { del_chord_at = none }

-- The handler of a message; `now` and `wall` are the readings of the two clocks.
unfoldable pub handle :
    (Text → Text) → (Text → ℕ) → ℕ → ℕ → ListMessage → ListState → Option Outcome
handle lower width now wall (set_result result paginated) s =
    some (handle_set_result width wall s result paginated)
handle lower width now wall (editability_ready target blocked) s =
    some (quiet (handle_editability_ready s target blocked) true)
handle lower width now wall clear_result s = some (handle_clear_result s)
handle lower width now wall (query_error message) s = some (handle_query_error s message)
handle lower width now wall (move_selection dr dc) s = some (handle_move_selection s dr dc)
handle lower width now wall (set_selection row col) s = some (handle_set_selection s row col)
handle lower width now wall begin_search s = handle_begin_search lower s
handle lower width now wall (search_key key) s = handle_search_key lower s key
handle lower width now wall (search_navigate forward) s =
    some (quiet (advance_search_match s forward) true)
handle lower width now wall copy_name s = some (handle_copy_name s)
handle lower width now wall reset_selection s = some (handle_reset_selection s)
handle lower width now wall enter_edit s = some (handle_enter_edit s)
handle lower width now wall exit_edit s = some (quiet (with_live s (Live.exit_edit s.live)) true)
handle lower width now wall rollback s =
    some (quiet (with_live s (Live.rollback_edits s.live)) true)
handle lower width now wall add_row s = some (quiet (with_live s (Live.edit_add_row s.live)) true)
handle lower width now wall dup_row s = some (quiet (with_live s (Live.edit_dup_row s.live)) true)
handle lower width now wall del_row s = some (quiet (with_live s (Live.edit_del_row s.live)) true)
handle lower width now wall del_chord s = some (handle_del_chord now s)
handle lower width now wall del_chord_cancel s = some (quiet s false)
handle lower width now wall (set_row_limit limit) s = some (handle_set_row_limit s limit)
handle lower width now wall (set_page page) s = some (handle_set_page s page)
handle lower width now wall (page_nav action) s = some (handle_page_nav s action)
handle lower width now wall (chord forward) s = some (handle_page_chord now s forward)
handle lower width now wall count s = some (handle_count_rows s)
handle lower width now wall (count_ready sql total) s = some (handle_count_ready s sql total)
handle lower width now wall (run context sql paginated page row_limit) s =
    some (handle_run_query s context sql paginated page row_limit)
handle lower width now wall commit_edits s = some (handle_commit s)
handle lower width now wall (sync_viewport rows w) s = some (quiet (set_viewport s rows w) false)
handle lower width now wall (set_v_scroll position) s = some (handle_set_v_scroll s position)
handle lower width now wall (set_h_scroll position) s = some (handle_set_h_scroll s position)
handle lower width now wall (scroll_h delta) s = some (handle_scroll_h s delta)
handle lower width now wall (adjust_col_width delta) s = some (handle_adjust_col_width s delta)
handle lower width now wall (adjust_col_width_to col w) s =
    some (handle_adjust_col_width_to s col w)

unfoldable pub update :
    (Text → Text) → (Text → ℕ) → ℕ → ℕ → ListMessage → ListState → Option Outcome
unfolding disarm handle
update lower width now wall message s = handle lower width now wall message (disarm message s)
