-- ===== src/Edit/Live.antt =====
-- The editing methods of list/state.rs: the edit session together with the rows that the grid
-- shows, which these methods change side by side.
use dbm.Base.{
  ℕ, zero, suc, ◌+◌, ◌-◌, Bool, true, false, not, ◌&&◌, ◌||◌, Option, none, some, List, [], ◌∷◌,
  ◌++◌, length, get_elem?, replicate, remove_at, Text, nat_eq, ltb, ◌==◌, if◌then◌else◌,
}
use dbm.Base.HashSet.{contains}
use dbm.Edit.Session
use dbm.Edit.Session.{Cells, ResultsEditState, set_cell, row_is_dirty}
use dbm.Edit.Sql
use dbm.Edit.Sql.{EditTarget, Result, is_empty}

-- A result column, sql_completion/provider.rs of the editor.
pub record ColumnInfo : Type 0 where
  pub name : Text
  pub type_name : Text
  pub type_display : Text
  pub comment : Option Text

pub record QueryResultData : Type 0 where
  pub columns : List ColumnInfo
  pub rows : List (List Text)
  pub rows_affected : Option ℕ
  pub total_rows : Option ℕ

-- The part of `ListState` that the editing methods use: the result, the cursor and the session.
pub record ListState : Type 0 where
  pub result : Option QueryResultData
  pub row : ℕ
  pub col : ℕ
  pub edit : ResultsEditState
  pub edit_target : Option EditTarget

abbrev pub is_some {ℓ} : {A : Type ℓ} → Option A → Bool
is_some none = false
is_some (some x) = true

unfoldable pub editable : ListState → Bool
editable s = is_some s.edit_target

-- The rows of the result, none if there is no result.
abbrev pub live_rows : Option QueryResultData → List (List Text)
live_rows none = []
live_rows (some r) = r.rows

abbrev with_rows : Option QueryResultData → List (List Text) → Option QueryResultData
with_rows none rows = none
with_rows (some r) rows = some (record r { rows = rows })

unfoldable pub enter_edit : ListState → ListState
unfolding editable
enter_edit s =
    if not (editable s)
    then s
    else record s { edit = Session.enter_edit s.edit (live_rows s.result) }

unfoldable pub rollback_edits : ListState → ListState
rollback_edits s =
    let edit = Session.rollback s.edit in
    record s { edit = edit; result = with_rows s.result edit.snapshots }

unfoldable pub exit_edit : ListState → ListState
exit_edit s = record s { edit = Session.exit_edit s.edit }

unfoldable pub apply_cell_value : ListState → ℕ → ℕ → Text → ListState
apply_cell_value s row col value = record s {
  edit = Session.apply_cell s.edit row col value;
  result = with_rows s.result (set_cell (live_rows s.result) row col value);
}

unfoldable pub append_row : ListState → List Text → ListState
append_row s values = elim s.result [
  | none ↦ s
  | some r ↦ record s {
    result = some (record r { rows = r.rows ++ values ∷ [] });
    row = length (r.rows ++ values ∷ []) - 1;
    col = 0;
  }
]

abbrev pub column_count : Option QueryResultData → ℕ
column_count none = 0
column_count (some r) = length r.columns

unfoldable pub edit_add_row : ListState → ListState
unfolding append_row
edit_add_row s =
    if not s.edit.editing
    then s
    else append_row (record s { edit = Session.insert_row s.edit (column_count s.result) })
        (replicate (column_count s.result) [])

unfoldable pub edit_dup_row : ListState → ListState
unfolding append_row
edit_dup_row s = if not s.edit.editing then s else elim (get_elem? (live_rows s.result) s.row) [
  | none ↦ s
  | some values ↦
      if is_empty values
      then s
      else append_row (record s { edit = Session.insert_row_values s.edit values }) values
]

-- What follows `mark_delete`; `remove_at` changes nothing out of range.
unfoldable pub after_mark : ListState → ResultsEditState × Bool → ListState
after_mark s (edit, removed_insert) = record s {
  edit = edit;
  result =
      if removed_insert
      then with_rows s.result (remove_at (live_rows s.result) s.row)
      else s.result;
}

unfoldable pub edit_del_row : ListState → ListState
unfolding after_mark
edit_del_row s = if not s.edit.editing then s else after_mark s (Session.mark_delete s.edit s.row)

unfoldable pub build_commit_statements : ListState → Option (Result (List Text))
build_commit_statements s = elim s.edit_target [
  | none ↦ none
  | some target ↦ some (Sql.build_commit_statements target s.edit)
]

-- The least modified column of a row.
unfoldable first_dirty_col : ℕ → Cells → Option ℕ
first_dirty_col row [] = none
first_dirty_col row (((r, c), v) ∷ m) =
    let rest = first_dirty_col row m in
    if r == row
    then elim rest [ none ↦ some c | some d ↦ some (if ltb d c then d else c) ]
    else rest

-- The stops among the loaded rows from `row` on, `n` of them.
unfoldable loaded_anchors : ResultsEditState → ℕ → ℕ → List (ℕ × ℕ)
unfolding first_dirty_col
loaded_anchors e row zero = []
loaded_anchors e row (suc n) =
    let rest = loaded_anchors e (row + 1) n in
    if contains row e.deleted
    then (row, 0) ∷ rest
    else elim (first_dirty_col row e.dirty_cells) [ some c ↦ (row, c) ∷ rest | none ↦ rest ]

unfoldable new_anchors : ℕ → ℕ → List (ℕ × ℕ)
new_anchors row zero = []
new_anchors row (suc n) = (row, 0) ∷ new_anchors (row + 1) n

-- `a > cursor`, in the order of pairs.
abbrev pub after : ℕ × ℕ → ℕ × ℕ → Bool
after (r, c) (x, y) = ltb x r || r == x && ltb y c

abbrev same_place : ℕ × ℕ → ℕ × ℕ → Bool
same_place (r, c) (x, y) = r == x && c == y

unfoldable find_after : ℕ × ℕ → List (ℕ × ℕ) → Option (ℕ × ℕ)
find_after cursor [] = none
find_after cursor (a ∷ more) =
    let rest = find_after cursor more in if after a cursor then some a else rest

unfoldable anchors : ResultsEditState → List (ℕ × ℕ)
unfolding loaded_anchors new_anchors
anchors e =
    loaded_anchors e 0 (length e.snapshots) ++ new_anchors (length e.snapshots) (length e.new_rows)

-- The stop after the cursor, or else the first one.
abbrev stop_from : ℕ × ℕ → List (ℕ × ℕ) → Option (ℕ × ℕ)
stop_from cursor [] = none
stop_from cursor (a ∷ more) = elim (find_after cursor (a ∷ more)) [
  | some b ↦ if same_place b cursor then none else some b
  | none ↦ if same_place a cursor then none else some a
]

-- The anchors are built in ascending order, which the source's `sort_unstable` keeps as it is.
unfoldable next_change : ListState → Option (ℕ × ℕ)
unfolding anchors
next_change s = if not s.edit.editing then none else stop_from (s.row, s.col) (anchors s.edit)
