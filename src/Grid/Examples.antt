-- ===== src/Grid/Examples.antt =====
-- The theorems on the list of the results pane at concrete inputs: the first page of a table.
use Prim.Native.String.{String}
use dbm.Base.{
  inl, ℕ, ◌+◌, ◌-◌, ◌*◌, ◌≡◌, ◌≤◌, ◌<◌, refl, not, ◌||◌, true, false, none, some, List, [], ◌∷◌,
  arith, length, Text, codes, trim, if◌then◌else◌, ltb, ◌==◌,
}
use dbm.Base.Int.{pos}
use dbm.Edit.Session
use dbm.Edit.Session.{ResultsEditState}
use dbm.Edit.Live
use dbm.Edit.Live.{ColumnInfo, QueryResultData, edit_del_row, live_rows}
use dbm.Edit.Sql.{EditTarget}
use dbm.Edit.Valid.{default-IsValid}
use dbm.Page.Math.{page_count}
use dbm.Page.Scroll.{prev, next, last}
use dbm.Paginate.Statement.{count_select_sql}
use dbm.Grid.Search.{find_match_starts}
use dbm.Grid.State.{
  ListState, total_rows, can_count_rows, can_go_next_page, row_count, column_count, move_selection,
  is_zero,
}
use dbm.Grid.Effect.{run_query, count_rows, page_nav, exit_edit, query_error}
use dbm.Grid.Paging.{Outcome, handle_page_nav, handle_count_ready, handle_set_result, land_result}
use dbm.Grid.Handlers.{
  handle_del_chord, handle_enter_edit, handle_editability_ready, is_second_press, without_result,
  handle_query_error,
}
use dbm.Grid.Update.{update, keeps_chord}
use dbm.Grid.Invariant.{IsSane}
use dbm.Grid.Sane.{IsSaneIf}
use dbm.Grid.Kept.{update-IsSane}
use dbm.Grid.Counting.{last_page_counted}
use dbm.Grid.Turning.{page_nav_bounds}
use dbm.Grid.Landing.{land_result_pages, stale_session}
use dbm.Grid.Cursor.{move_selection_lem}
use dbm.Grid.Chord.{handle_del_chord_lem}
use dbm.Grid.Disarm.{update-disarms, update-keeps_edits, touches_edit}
use dbm.Grid.Occurrences.{AreMatches, find_match_starts-AreMatches}

abbrev column : String → ColumnInfo
column name = record {
  name = codes name;
  type_name = codes "text";
  type_display = [];
  comment = none;
}

abbrev two_people : QueryResultData
two_people = record {
  columns = column "id" ∷ column "name" ∷ [];
  rows = (codes "1" ∷ codes "ann" ∷ []) ∷ (codes "2" ∷ codes "bob" ∷ []) ∷ [];
  rows_affected = none;
  total_rows = none;
}

abbrev one_person : QueryResultData
one_person = record two_people { rows = (codes "5" ∷ codes "eve" ∷ []) ∷ [] }

abbrev people : ListState
people = record {
  live = record {
    result = some two_people;
    row = 0;
    col = 1;
    edit = Session.default;
    edit_target = none;
  };
  result_at = some 0;
  query_error = none;
  selected = true;
  search = record { active = false; query = codes "n"; ignore_case = false };
  search_scope_column = none;
  search_matches =
      record { row = 0; col = 1; start = 1 } ∷ record { row = 0; col = 1; start = 2 } ∷ [];
  search_match_index = 0;
  page = 1;
  row_limit = 2;
  at_last_page = false;
  paginated = true;
  page_anchor_bottom = false;
  page_chord = none;
  del_chord_at = none;
  counting = false;
  refresh_cooldown_until = none;
  pending_page_after_count = none;
  total_cache = none;
  h_scroll = 0;
  v_scroll = 0;
  viewport_rows = 1;
  viewport_width = 80;
  last_sql = codes "select * from people";
  context = record {
    instance_name = codes "local";
    connection = codes "app";
    database = none;
    schema = codes "public";
  };
  edit_blocked_reason = none;
  col_widths = 5 ∷ 6 ∷ [];
  scroll_locked = false;
  leave_warning = false;
}

-- The total is known.
abbrev five_people : ListState
five_people = record people {
  live = record people.live { result = some (record two_people { total_rows = some 5 }) };
}

-- An edit session without changes.
abbrev editing : ListState
editing = record people {
  live = record people.live {
    edit = record Session.default { editing = true; snapshots = two_people.rows };
  };
}

abbrev target : EditTarget
target = record {
  schema = codes "public";
  table = codes "people";
  primary_keys = codes "id" ∷ [];
  columns = codes "id" ∷ codes "name" ∷ [];
}

-- Texts are folded and measured character by character.
abbrev fold : Text → Text
fold s = s

abbrev width : Text → ℕ
width s = length s

people-IsSane : IsSane people
people-IsSane = record {
  page_pos = omega arith;
  limit_pos = omega arith;
  waits = inl refl;
  match_at = omega arith;
  in_range = (omega arith, omega arith, (omega arith, omega arith, tt));
  session = default-IsValid;
}

update-IsSane_example : IsSaneIf (update fold width 0 0 (page_nav next) people)
update-IsSane_example = update-IsSane fold width 0 0 (page_nav next) people tt people-IsSane

last_page_counted_example :
    ((handle_page_nav people last).1 ≡ count_rows people.context people.last_sql ∷ [])
    × ((handle_page_nav people last).0.page ≡ 1)
    × ((handle_count_ready (handle_page_nav people last).0 people.last_sql (some 5)).0.page
        ≡ page_count 5 2)
    × ((handle_count_ready (handle_page_nav people last).0 people.last_sql (some 5)).0.at_last_page
        ≡ true)
    × ((handle_count_ready (handle_page_nav people last).0 people.last_sql (some 5)).0.counting
        ≡ false)
    × ((handle_count_ready
          (handle_page_nav people last).0
          people.last_sql
          (some 5)).0.pending_page_after_count
        ≡ none)
    × ((handle_count_ready (handle_page_nav people last).0 people.last_sql (some 5)).1 ≡ (
        if page_count 5 2 == 1
        then []
        else run_query people.context people.last_sql true (page_count 5 2) 2 ∷ []))
unfolding total_rows can_count_rows count_select_sql Session.is_dirty
last_page_counted_example = last_page_counted people 5 refl refl refl refl refl

page_nav_bounds_example :
    (1 ≤ (handle_page_nav five_people last).0.page)
    × ((handle_page_nav five_people last).0.page ≤ page_count 5 2)
    × ((handle_page_nav five_people last).1 ≡ (
        if (handle_page_nav five_people last).0.page == 1
        then []
        else run_query people.context people.last_sql true
            (handle_page_nav five_people last).0.page
            2
          ∷ []))
    × (can_go_next_page five_people ≡ true
        → (handle_page_nav (handle_page_nav five_people next).0 prev).0.page ≡ 1)
unfolding total_rows Session.is_dirty page_count
page_nav_bounds_example =
    page_nav_bounds five_people last 5 refl refl refl (omega arith) (omega arith) (omega arith)
      (omega arith) refl

land_result_pages_example :
    (0 < 1
      → 1 < 2
      → (total_rows (land_result width 0 people one_person true) ≡ some ((1 - 1) * 2 + 1))
        × ((land_result width 0 people one_person true).at_last_page ≡ true)
        × (can_go_next_page (land_result width 0 people one_person true) ≡ false))
    × (2 ≤ 1
        → (total_rows (land_result width 0 people one_person true) ≡ none)
          × ((land_result width 0 people one_person true).at_last_page ≡ false)
          × (can_go_next_page (land_result width 0 people one_person true) ≡ true))
    × (◌≡◌ {A = ℕ} 1 0
        → (total_rows (land_result width 0 people one_person true) ≡ none)
          × ((land_result width 0 people one_person true).at_last_page ≡ true)
          × (can_go_next_page (land_result width 0 people one_person true) ≡ false))
land_result_pages_example =
    land_result_pages width 0 people one_person refl refl (omega arith) (omega arith) (omega arith)

stale_session_example :
    (live_rows
        (handle_enter_edit (
          handle_editability_ready
            (handle_set_result width 0 editing one_person true).0
            (some target)
            none)).0.live.result
      ≡ one_person.rows)
    × (Live.editable
          (handle_enter_edit (
            handle_editability_ready
              (handle_set_result width 0 editing one_person true).0
              (some target)
              none)).0.live
        ≡ true)
    × ((handle_enter_edit (
          handle_editability_ready
            (handle_set_result width 0 editing one_person true).0
            (some target)
            none)).0.live.edit
        ≡ editing.live.edit)
stale_session_example = stale_session width 0 editing one_person true target refl

move_selection_lem_example :
    ((move_selection people (pos 1) (pos 0)).0.live.row < 2)
    × ((move_selection people (pos 1) (pos 0)).0.live.col < 2)
    × ((move_selection people (pos 1) (pos 0)).0.selected ≡ true)
    × (is_zero (pos 1) ≡ false
        → 0 < 1
        → ((move_selection people (pos 1) (pos 0)).0.v_scroll
            ≤ (move_selection people (pos 1) (pos 0)).0.live.row)
          × ((move_selection people (pos 1) (pos 0)).0.live.row
              < (move_selection people (pos 1) (pos 0)).0.v_scroll + 1))
    × ((move_selection people (pos 1) (pos 0)).1 ≡ (
        not ((move_selection people (pos 1) (pos 0)).0.live.row == 0)
        || not ((move_selection people (pos 1) (pos 0)).0.live.col == 1)))
unfolding row_count column_count
move_selection_lem_example = move_selection_lem people (pos 1) (pos 0) (omega arith) (omega arith)

handle_del_chord_lem_example :
    ((handle_del_chord 10 editing).0.live ≡ editing.live)
    × ((handle_del_chord 20 (handle_del_chord 10 editing).0).0.live
        ≡ (if ltb 20 (10 + 501_000_000) then edit_del_row editing.live else editing.live))
    × (20 < 10 + 501_000_000
        → 30 < 20 + 501_000_000
        → (handle_del_chord 30 (handle_del_chord 20 (handle_del_chord 10 editing).0).0).0.live
          ≡ edit_del_row (edit_del_row editing.live))
unfolding is_second_press
handle_del_chord_lem_example = handle_del_chord_lem editing 10 20 30 refl

abbrev left : Outcome
left = (
  record editing { live = record editing.live { edit = Session.default }; del_chord_at = none },
  [],
  true,
)

update-disarms_example : (handle_del_chord 20 left.0).0.live ≡ left.0.live
unfolding update keeps_chord Live.exit_edit Session.exit_edit Session.clear
update-disarms_example =
    update-disarms fold width 10 0 20 exit_edit (record editing { del_chord_at = some 10 }) left
      refl refl

find_match_starts-AreMatches_example :
    (starts : List ℕ) × (find_match_starts fold (codes "anna") (codes " n") false ≡ some starts)
    × AreMatches (trim (codes " n")) (codes "anna") 0 starts
unfolding trim
find_match_starts-AreMatches_example =
    find_match_starts-AreMatches fold (codes "anna") (codes " n") refl

-- The session after a query has failed.
abbrev failed : Outcome
failed = (
  record editing {
    live = record editing.live { result = none; row = 0; col = 0; edit_target = none };
    result_at = none;
    col_widths = [];
    query_error = some (codes "down");
    at_last_page = true;
    del_chord_at = none;
    search = record { active = false; query = []; ignore_case = false };
    search_matches = [];
  },
  [],
  true,
)

update-keeps_edits_example : failed.0.live.edit ≡ editing.live.edit
unfolding update keeps_chord touches_edit without_result handle_query_error
update-keeps_edits_example =
    update-keeps_edits fold width 0 0 (query_error (codes "down")) editing failed refl refl refl
