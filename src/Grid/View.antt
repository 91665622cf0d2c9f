-- ===== src/Grid/View.antt =====
-- The methods of list/state.rs on what the pane shows, and max_h_scroll of list/update.rs.
use dbm.Base.{ℕ, ◌+◌, ◌-◌, min, max, Bool, true, none, some, Text, leb, ◌==◌, if◌then◌else◌}
use dbm.Edit.Live.{QueryResultData}
use dbm.Edit.Sql.{is_empty}
use dbm.Grid.Layout.{col_x_start, col_x_end, results_table_width, init_results_layout}
use dbm.Grid.State.{ListState, row_count}

-- The scroll position that shows the columns from `left` to `right` of a table, in a viewport that
-- is at `scroll`.
unfoldable scroll_to_columns : ℕ → ℕ → ℕ → ℕ → ℕ → ℕ
scroll_to_columns left right scroll viewport table_w =
    min
      (if leb right scroll
        then left
        else if leb (scroll + viewport) left
        then right - viewport
        else scroll)
      (table_w - viewport)

unfoldable pub auto_scroll_h : ListState → ListState
unfolding col_x_start col_x_end results_table_width scroll_to_columns
auto_scroll_h s =
    if is_empty s.col_widths then s else if s.viewport_width == 0 then s else record s {
      h_scroll =
          scroll_to_columns (col_x_start s.live.col s.col_widths)
            (col_x_end s.live.col s.col_widths) s.h_scroll s.viewport_width
            (results_table_width s.col_widths);
    }

unfoldable pub set_viewport : ListState → ℕ → ℕ → ListState
unfolding row_count results_table_width
set_viewport s rows width = record s {
  viewport_rows = max rows 1;
  viewport_width = width;
  v_scroll = min s.v_scroll (row_count s - max rows 1);
  h_scroll =
      if is_empty s.col_widths
      then s.h_scroll
      else min s.h_scroll (results_table_width s.col_widths - width);
}

unfoldable pub set_result : (Text → ℕ) → ListState → QueryResultData → ListState
unfolding init_results_layout
set_result display_width s result = record s {
  col_widths = init_results_layout display_width result.columns result.rows;
  live = record s.live { result = some result };
}

unfoldable pub max_h_scroll : ListState → ℕ
unfolding results_table_width
max_h_scroll s = results_table_width s.col_widths - s.viewport_width

unfoldable pub refresh_allowed : ListState → ℕ → Bool
refresh_allowed s now = elim s.refresh_cooldown_until [ none ↦ true | some until ↦ leb until now ]

-- One second, in nanoseconds.
unfoldable pub mark_refresh_started : ListState → ℕ → ListState
mark_refresh_started s now = record s { refresh_cooldown_until = some (now + 1_000_000_000) }
