-- ===== src/Edit/Examples.antt =====
-- The theorems on row editing at concrete inputs: a table with one loaded row.
use Prim.Native.String.{String}
use dbm.Base.{
  ◌≡◌, refl, true, none, some, List, [], ◌∷◌, ◌++◌, arith, Text, codes, eq_ignore_ascii_case, any,
  join,
}
use dbm.Base.Assoc.{lookup, insert}
use dbm.Base.HashSet
use dbm.Base.HashSet.{contains}
use dbm.Edit.Session
use dbm.Edit.Session.{
  ResultsEditState, default, enter_edit, apply_cell, mark_delete, row_is_dirty, dirty_rows,
  count_changes, commit_row_count, row_change_kind, no_change, toggle_delete,
}
use dbm.Edit.Valid.{
  IsValid, enters, applies, marks_delete, run, run-IsValid, default-IsValid, cell_at,
}
use dbm.Edit.Count.{count_below, is_change, commit_row_count_lem}
use dbm.Edit.Sql.{
  EditTarget, ok, err, nothing_to_commit, quote_ident, quote_literal, build_commit_statements,
  double_char, full_row_where, qualified_table, old_value_predicate, assignments, sort, update_text,
  column_index,
}
use dbm.Edit.Quote.{read_quoted, read_quoted-quote_literal}
use dbm.Edit.Keys.{key_edits_dropped}
use dbm.Edit.Live.{ColumnInfo, ListState, QueryResultData, live_rows, edit_del_row}
use dbm.Edit.Live
use dbm.Edit.Coherence.{set_value, add_row, presses, IsSafe, presses-enter_edit-IsSafe}
use dbm.Edit.Undelete.{undelete_forgets}

abbrev loaded_rows : List (List Text)
loaded_rows = (codes "1" ∷ codes "ann" ∷ []) ∷ []

abbrev users : EditTarget
users = record {
  schema = codes "public";
  table = codes "users";
  primary_keys = codes "id" ∷ [];
  columns = codes "id" ∷ codes "name" ∷ [];
}

abbrev column : String → ColumnInfo
column name = record {
  name = codes name;
  type_name = codes "text";
  type_display = [];
  comment = none;
}

-- The name of the row is changed.
abbrev renamed : ResultsEditState
renamed = record {
  editing = true;
  snapshots = loaded_rows;
  dirty_cells = ((0, 1), codes "bob") ∷ [];
  deleted = [];
  new_rows = [];
  conflict_rows = [];
  commit_row_count_cache = 1;
}

-- The key of the row is changed.
abbrev rekeyed : ResultsEditState
rekeyed = record renamed { dirty_cells = ((0, 0), codes "2") ∷ [] }

abbrev grid : ListState
grid = record {
  result = some (record {
    columns = column "id" ∷ column "name" ∷ [];
    rows = loaded_rows;
    rows_affected = none;
    total_rows = some 1;
  });
  row = 0;
  col = 1;
  edit = default;
  edit_target = some users;
}

abbrev renamed_grid : ListState
renamed_grid = record {
  result = some (record {
    columns = column "id" ∷ column "name" ∷ [];
    rows_affected = none;
    rows = (codes "1" ∷ codes "bob" ∷ []) ∷ [];
    total_rows = some 1;
  });
  row = 0;
  col = 1;
  edit = renamed;
  edit_target = some users;
}

run-IsValid_example :
    IsValid (run default (enters loaded_rows ∷ applies 0 1 (codes "bob") ∷ marks_delete 0 ∷ []))
run-IsValid_example = run-IsValid default _ default-IsValid

renamed-IsValid : IsValid renamed
unfolding run enter_edit apply_cell count_changes dirty_rows HashSet.extend HashSet.insert
    HashSet.remove insert contains
renamed-IsValid =
    run-IsValid default (enters loaded_rows ∷ applies 0 1 (codes "bob") ∷ []) default-IsValid

rekeyed-IsValid : IsValid rekeyed
unfolding run enter_edit apply_cell count_changes dirty_rows HashSet.extend HashSet.insert
    HashSet.remove insert contains
rekeyed-IsValid =
    run-IsValid default (enters loaded_rows ∷ applies 0 0 (codes "2") ∷ []) default-IsValid

commit_row_count_lem_example : 1 ≡ count_below 1 (λ r. is_change (row_change_kind renamed r))
commit_row_count_lem_example = commit_row_count_lem renamed renamed-IsValid

renamed_grid-IsSafe : IsSafe renamed_grid
unfolding presses Live.enter_edit enter_edit apply_cell count_changes dirty_rows HashSet.extend
    HashSet.insert HashSet.remove insert contains Live.apply_cell_value
renamed_grid-IsSafe =
    presses-enter_edit-IsSafe grid (set_value 0 1 (codes "bob") ∷ []) refl refl default-IsValid
      ((refl, refl, refl), tt)

presses-enter_edit-IsSafe_example :
    IsSafe (presses (Live.enter_edit grid) (add_row ∷ set_value 1 0 (codes "2") ∷ []))
unfolding presses Live.enter_edit enter_edit apply_cell count_changes dirty_rows HashSet.extend
    HashSet.insert HashSet.remove insert contains Live.apply_cell_value Live.edit_add_row
    Session.insert_row
presses-enter_edit-IsSafe_example =
    presses-enter_edit-IsSafe grid (add_row ∷ set_value 1 0 (codes "2") ∷ []) refl refl
      default-IsValid (tt, ((refl, refl, refl), tt))

undelete_forgets_example :
    cell_at (live_rows (edit_del_row (edit_del_row renamed_grid)).result) 0 1 ≡ some (codes "bob")
unfolding lookup
undelete_forgets_example =
    (undelete_forgets renamed_grid 1 (codes "bob") refl renamed-IsValid renamed_grid-IsSafe.coherent
      (omega arith) refl).0

read_quoted-quote_literal_example :
    read_quoted b'\'' (quote_literal (codes "O'Hara") ++ codes ", 'x'")
    ≡ some (codes "O'Hara", codes ", 'x'")
unfolding eq_ignore_ascii_case
read_quoted-quote_literal_example =
    (read_quoted-quote_literal (codes "O'Hara") (codes ", 'x'") refl).0 refl

abbrev renamed_sql : Text
renamed_sql =
    codes
      "UPDATE \"public\".\"users\" SET \"name\" = 'bob' WHERE \"id\" IS NOT DISTINCT FROM '1' AND \"name\" IS NOT DISTINCT FROM 'ann'"

renamed_statements : build_commit_statements users renamed ≡ ok (renamed_sql ∷ [])
unfolding build_commit_statements sort dirty_rows HashSet.insert contains assignments full_row_where
    qualified_table quote_ident quote_literal double_char eq_ignore_ascii_case old_value_predicate
    update_text column_index any join
renamed_statements = refl

key_edits_dropped_example : build_commit_statements users rekeyed ≡ err nothing_to_commit
unfolding any eq_ignore_ascii_case
key_edits_dropped_example =
    (key_edits_dropped users rekeyed rekeyed-IsValid refl (λ e. cc) refl refl (refl, tt)).1
