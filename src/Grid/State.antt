-- ===== src/Grid/State.antt =====
-- list/state.rs: the state of the list and its methods, except for the editing ones (Edit/Live).
use dbm.Base.{
  ℕ, ◌+◌, ◌-◌, min, Bool, true, false, not, ◌&&◌, ◌||◌, Option, none, some, List, [], Text, trim,
  length, get_elem?, ltb, leb, ◌==◌, if◌then◌else◌,
}
use dbm.Base.Int.{ℤ, pos, negsuc}
use dbm.Edit.Live
use dbm.Edit.Live.{QueryResultData, ColumnInfo, live_rows, is_some}
use dbm.Edit.Session
use dbm.Edit.Session.{is_dirty}
use dbm.Edit.Sql.{is_empty}
use dbm.Page.Math.{can_go_next, page_offset}
use dbm.Page.Scroll.{ResultsPageAction}
use dbm.Paginate.Statement.{count_select_sql, paginated_select_sql}
use dbm.Grid.Search.{PaneSearch}

pub record ResultsSearchMatch : Type 0 where
  pub row : ℕ
  pub col : ℕ
  pub start : ℕ

-- `last_instance`, `last_connection`, `last_database` and `last_schema`.
pub record Context : Type 0 where
  pub instance_name : Text
  pub connection : Text
  pub database : Option Text
  pub schema : Text

-- `live` holds the fields that the editing methods change: result, row, col, edit and edit_target. An
-- `Instant` is a number of nanoseconds.
pub record ListState : Type 0 where
  pub live : Live.ListState
  pub result_at : Option ℕ
  pub query_error : Option Text
  pub selected : Bool
  pub search : PaneSearch
  pub search_scope_column : Option ℕ
  pub search_matches : List ResultsSearchMatch
  pub search_match_index : ℕ
  pub page : ℕ
  pub row_limit : ℕ
  pub at_last_page : Bool
  pub paginated : Bool
  pub page_anchor_bottom : Bool
  pub page_chord : Option (Bool × ℕ)
  pub del_chord_at : Option ℕ
  pub counting : Bool
  pub refresh_cooldown_until : Option ℕ
  pub pending_page_after_count : Option ResultsPageAction
  pub total_cache : Option ℕ
  pub h_scroll : ℕ
  pub v_scroll : ℕ
  pub viewport_rows : ℕ
  pub viewport_width : ℕ
  pub last_sql : Text
  pub context : Context
  pub edit_blocked_reason : Option Text
  pub col_widths : List ℕ
  pub scroll_locked : Bool
  pub leave_warning : Bool

abbrev default_results_row_limit : ℕ
default_results_row_limit = 100

unfoldable pub new : ListState
new = record {
  live = record { result = none; row = 0; col = 0; edit = Session.default; edit_target = none };
  result_at = none;
  query_error = none;
  selected = true;
  search = record { active = false; query = []; ignore_case = false };
  search_scope_column = none;
  search_matches = [];
  search_match_index = 0;
  page = 1;
  row_limit = default_results_row_limit;
  at_last_page = false;
  paginated = false;
  page_anchor_bottom = false;
  page_chord = none;
  del_chord_at = none;
  counting = false;
  refresh_cooldown_until = none;
  pending_page_after_count = none;
  total_cache = none;
  h_scroll = 0;
  v_scroll = 0;
  viewport_rows = 0;
  viewport_width = 0;
  last_sql = [];
  context = record { instance_name = []; connection = []; database = none; schema = [] };
  edit_blocked_reason = none;
  col_widths = [];
  scroll_locked = false;
  leave_warning = false;
}

abbrev pub no_text : Text → Bool
no_text s = is_empty s

abbrev pub or_else {ℓ} : {A : Type ℓ} → Option A → A → A
or_else none d = d
or_else (some x) d = x

unfoldable pub row_count : ListState → ℕ
row_count s = length (live_rows s.live.result)

unfoldable pub column_count : ListState → ℕ
column_count s = Live.column_count s.live.result

abbrev result_total : Option QueryResultData → Option ℕ
result_total none = none
result_total (some r) = r.total_rows

unfoldable pub total_rows : ListState → Option ℕ
total_rows s = result_total s.live.result

unfoldable executed_sql_display : ListState → Text
executed_sql_display s =
    if not (is_some s.live.result) || no_text (trim s.last_sql)
    then []
    else if s.paginated
    then or_else
        (paginated_select_sql (trim s.last_sql) s.row_limit (page_offset s.page s.row_limit))
        (trim s.last_sql)
    else trim s.last_sql

unfoldable pub selected_cell : ListState → Option Text
selected_cell s = elim (get_elem? (live_rows s.live.result) s.live.row) [
  | none ↦ none
  | some cells ↦ get_elem? cells s.live.col
]

unfoldable pub can_go_next_page : ListState → Bool
unfolding row_count total_rows
can_go_next_page s =
    if not s.paginated
    then false
    else can_go_next s.page s.row_limit (row_count s) (total_rows s) s.at_last_page

unfoldable pub can_count_rows : ListState → Bool
can_count_rows s =
    s.paginated
    && is_some s.live.result
    && not (no_text s.last_sql)
    && is_some (count_select_sql s.last_sql)

unfoldable pub show_count_button : ListState → Bool
unfolding can_count_rows total_rows
show_count_button s = can_count_rows s && not (is_some (total_rows s))

unfoldable can_go_prev_page : ListState → Bool
can_go_prev_page s = s.paginated && ltb 1 s.page

-- The row-scroll part of `move_selection`, after the row has moved to `row`.
unfoldable pub scroll_to_row : ℕ → ℕ → ℕ → ℕ → ℕ
scroll_to_row row viewport_rows v_scroll row_count =
    if viewport_rows == 0
    then v_scroll
    else min
        (if leb (v_scroll + viewport_rows) row
          then row - (viewport_rows - 1)
          else if ltb row v_scroll
          then row
          else v_scroll)
        (row_count - 1)

-- One step in the direction of `d`'s sign among `count` places.
unfoldable pub step_towards : ℤ → ℕ → ℕ → ℕ
step_towards (pos n) at count = if n == 0 then at else min (at + 1) (count - 1)
step_towards (negsuc n) at count = at - 1

abbrev pub is_zero : ℤ → Bool
is_zero (pos n) = n == 0
is_zero (negsuc n) = false

unfoldable pub move_selection : ListState → ℤ → ℤ → ListState × Bool
unfolding row_count column_count scroll_to_row step_towards
move_selection s dr dc = if row_count s == 0 then (s, false) else (
  record s {
    selected = true;
    v_scroll =
        if is_zero dr
        then s.v_scroll
        else scroll_to_row (step_towards dr s.live.row (row_count s)) s.viewport_rows s.v_scroll
            (row_count s);
    live = record s.live {
      row = step_towards dr s.live.row (row_count s);
      col = step_towards dc s.live.col (column_count s);
    };
  },
  not (step_towards dr s.live.row (row_count s) == s.live.row)
      || not (step_towards dc s.live.col (column_count s) == s.live.col),
)
