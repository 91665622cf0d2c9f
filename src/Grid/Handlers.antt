-- ===== src/Grid/Handlers.antt =====
-- The other handlers of list/update.rs: the cursor, the search, editing, the view and the widths.
use dbm.Base.{
  ℕ, ◌+◌, ◌-◌, ◌/◌, min, max, Bool, true, false, not, ◌&&◌, ◌||◌, Option, none, some, List, [], ◌∷◌,
  map, Text, codes, join, get_elem?, get_or, set, ltb, leb, ◌==◌, ◌=?◌, nat_eq, list_eq,
  if◌then◌else◌,
}
use dbm.Base.Int.{ℤ, pos, negsuc, shift}
use dbm.Edit.Live
use dbm.Edit.Live.{is_some, live_rows, ColumnInfo}
use dbm.Edit.Sql.{is_empty, EditTarget, ok, err}
use dbm.Grid.Search.{
  KeyEvent, KeyCode, esc, enter, PaneSearchInput, ignored, cancelled, applied, query_changed,
  options_changed, navigate, handle_key, start, end, reset,
}
use dbm.Grid.Layout.{clamp_col_width, clamp_signed_width, wrap_i16}
use dbm.Grid.State.{ListState, Context, row_count, column_count, no_text}
use dbm.Grid.State
use dbm.Grid.Find.{refresh_search_matches, advance_search_match}
use dbm.Grid.View.{auto_scroll_h, max_h_scroll}
use dbm.Grid.Effect.{run_query, commit, copy_column_name}
use dbm.Grid.Paging.{Outcome}

abbrev pub with_live : ListState → Live.ListState → ListState
with_live s live = record s { live = live }

abbrev pub quiet : ListState → Bool → Outcome
quiet s dirty = (s, [], dirty)

unfoldable pub handle_editability_ready : ListState → Option EditTarget → Option Text → ListState
handle_editability_ready s target blocked =
    let live = record s.live { edit_target = target } in
    record s {
      edit_blocked_reason = blocked;
      live = if is_some target then live else Live.exit_edit live;
    }

-- What ClearResult and QueryError share; the row limit, the edit session and the last query stay.
unfoldable pub without_result : ListState → Option Text → ListState
unfolding reset
without_result s error = record s {
  result_at = none;
  col_widths = [];
  query_error = error;
  at_last_page = true;
  page_anchor_bottom = false;
  page_chord = none;
  counting = false;
  pending_page_after_count = none;
  total_cache = none;
  live = record s.live { result = none; row = 0; col = 0; edit_target = none };
  search = reset s.search;
  search_matches = [];
  search_match_index = 0;
  search_scope_column = none;
  edit_blocked_reason = none;
}

abbrev is_error : Option Text → Text → Bool
is_error none message = false
is_error (some old) message = old =? message

unfoldable pub handle_clear_result : ListState → Outcome
unfolding without_result
handle_clear_result s = quiet (without_result s none) (is_some s.live.result)

unfoldable pub handle_query_error : ListState → Text → Outcome
unfolding without_result
handle_query_error s message =
    quiet (without_result s (some message))
      (is_some s.live.result || not (is_error s.query_error message))

unfoldable pub handle_move_selection : ListState → ℤ → ℤ → Outcome
unfolding State.move_selection auto_scroll_h
handle_move_selection s dr dc =
    let (moved, changed) = State.move_selection (record s { scroll_locked = false }) dr dc in
    quiet (if changed && not (State.is_zero dc) then auto_scroll_h moved else moved) changed

unfoldable pub handle_set_selection : ListState → ℕ → ℕ → Outcome
unfolding row_count column_count auto_scroll_h
handle_set_selection s row col =
    let to_row = min row (row_count s - 1) in
    let to_col = min col (column_count s - 1) in
    let changed = not (s.live.row == to_row) || not (s.live.col == to_col) in
    let placed = record s {
      selected = true;
      live = record s.live { row = to_row; col = to_col };
    } in
    quiet (if changed then auto_scroll_h placed else placed) changed

-- The search starts on the selected column, or on all columns where none is selected.
unfoldable pub search_started : ListState → ListState
unfolding start column_count
search_started s = record s {
  search = start s.search;
  search_match_index = 0;
  search_matches = [];
  search_scope_column =
      if s.selected && ltb s.live.col (column_count s) then some s.live.col else none;
}

abbrev pub drawn : Option ListState → Bool → Option Outcome
drawn none dirty = none
drawn (some s) dirty = some (s, [], dirty)

unfoldable pub handle_begin_search : (Text → Text) → ListState → Option Outcome
unfolding search_started refresh_search_matches
handle_begin_search lower s = drawn (refresh_search_matches lower (search_started s)) true

-- What the input made of a key.
unfoldable pub after_search_key : (Text → Text) → ListState → PaneSearchInput → Option Outcome
unfolding refresh_search_matches advance_search_match
after_search_key lower s (navigate forward) = some (advance_search_match s forward, [], true)
after_search_key lower s query_changed = drawn (refresh_search_matches lower s) true
after_search_key lower s options_changed = drawn (refresh_search_matches lower s) true
after_search_key lower s ignored = some (s, [], false)
after_search_key lower s cancelled = some (s, [], true)
after_search_key lower s applied = some (s, [], true)

-- Esc and Enter end the search here; the other keys go to the input, whose outcome is `typed`.
unfoldable pub by_key_code : KeyCode → ListState → Option Outcome → Option Outcome
unfolding reset end
by_key_code esc s typed = some (
  record s {
    search = reset s.search;
    search_match_index = 0;
    search_matches = [];
    search_scope_column = none;
  },
  [],
  true,
)
by_key_code enter s typed = some (record s { search = end s.search }, [], true)
by_key_code _ s typed = typed

unfoldable pub handle_search_key : (Text → Text) → ListState → KeyEvent → Option Outcome
unfolding by_key_code handle_key after_search_key
handle_search_key lower s key = by_key_code key.code s (
    after_search_key lower (record s { search = (handle_key s.search key).0 })
      (handle_key s.search key).1)

abbrev names_of : List ColumnInfo → List Text
names_of columns = map (λ c. c.name) columns

-- The selected column's name, or all names.
unfoldable pub name_to_copy : ListState → List ColumnInfo → Text
name_to_copy s columns = elim (get_elem? columns s.live.col) [
  | some c ↦ if s.selected then c.name else join (codes ", ") (names_of columns)
  | none ↦ join (codes ", ") (names_of columns)
]

unfoldable pub handle_copy_name : ListState → Outcome
unfolding name_to_copy
handle_copy_name s =
    let disarmed = record s { page_chord = none } in
    elim s.live.result [
      | none ↦ (disarmed, [], false)
      | some result ↦
          if is_empty (name_to_copy s result.columns)
          then (disarmed, [], false)
          else (disarmed, copy_column_name (name_to_copy s result.columns) ∷ [], true)
    ]

unfoldable pub handle_reset_selection : ListState → Outcome
unfolding reset
handle_reset_selection s =
    quiet
      (record s {
        selected = false;
        live = record s.live { row = 0; col = 0 };
        h_scroll = 0;
        search = reset s.search;
      })
      (not (s.live.row == 0)
        || not (s.live.col == 0)
        || not (s.h_scroll == 0)
        || s.search.active
        || s.selected)

unfoldable pub handle_run_query : ListState → Context → Text → Bool → ℕ → ℕ → Outcome
handle_run_query s context sql paginated page row_limit = (
  record s {
    query_error = none;
    page_anchor_bottom = false;
    page_chord = none;
    counting = false;
    pending_page_after_count = none;
    total_cache = if s.last_sql =? sql then s.total_cache else none;
    last_sql = sql;
    context = context;
  },
  run_query context sql paginated page row_limit ∷ [],
  true,
)

unfoldable pub handle_enter_edit : ListState → Outcome
unfolding Live.enter_edit
handle_enter_edit s =
    if s.live.edit.editing then quiet s false else quiet (with_live s (Live.enter_edit s.live)) true

abbrev del_chord_window_ms : ℕ
del_chord_window_ms = 500

-- The press before was at most 500 ms ago.
unfoldable pub is_second_press : Option ℕ → ℕ → Bool
is_second_press none now = false
is_second_press (some at) now = leb ((now - at) / 1_000_000) del_chord_window_ms

unfoldable pub handle_del_chord : ℕ → ListState → Outcome
unfolding is_second_press Live.edit_del_row
handle_del_chord now s =
    let armed = record s { del_chord_at = some now } in
    if is_second_press s.del_chord_at now
    then quiet (with_live armed (Live.edit_del_row s.live)) true
    else quiet armed false

unfoldable pub handle_commit : ListState → Outcome
unfolding Live.build_commit_statements
handle_commit s = elim (Live.build_commit_statements s.live) [
  | none ↦ (s, [], false)
  | some (err e) ↦ (s, [], false)
  | some (ok statements) ↦ (s, commit s.context statements ∷ [], false)
]

unfoldable pub handle_set_v_scroll : ListState → ℕ → Outcome
unfolding row_count
handle_set_v_scroll s position =
    let to = min position (row_count s - max s.viewport_rows 1) in
    quiet (record s { scroll_locked = true; v_scroll = to }) (not (to == s.v_scroll))

unfoldable pub scroll_h_to : ListState → ℕ → Outcome
scroll_h_to s to = quiet (record s { scroll_locked = true; h_scroll = to }) (not (to == s.h_scroll))

unfoldable pub handle_set_h_scroll : ListState → ℕ → Outcome
unfolding scroll_h_to max_h_scroll
handle_set_h_scroll s position = scroll_h_to s (min position (max_h_scroll s))

unfoldable pub handle_scroll_h : ListState → ℤ → Outcome
unfolding scroll_h_to max_h_scroll
handle_scroll_h s (pos n) = scroll_h_to s (min (s.h_scroll + n) (max_h_scroll s))
handle_scroll_h s (negsuc n) = scroll_h_to s (s.h_scroll - (n + 1))

-- A column's new width, where there is such a column.
unfoldable pub set_width : ListState → ℕ → ℕ → Outcome
set_width s col width = elim (get_elem? s.col_widths col) [
  | none ↦ quiet s false
  | some old ↦ quiet (record s { col_widths = set s.col_widths col width }) (not (width == old))
]

unfoldable pub handle_adjust_col_width : ListState → ℤ → Outcome
unfolding set_width clamp_signed_width
handle_adjust_col_width s delta =
    set_width s s.live.col
      (clamp_signed_width (wrap_i16 (shift (get_or s.col_widths s.live.col 0) delta)))

unfoldable pub handle_adjust_col_width_to : ListState → ℕ → ℕ → Outcome
unfolding set_width clamp_col_width
handle_adjust_col_width_to s col width = set_width s col (clamp_col_width width)
