-- ===== src/Edit/Session.antt =====
-- edit.rs: the edit session, as pure functions on its state.
use dbm.Base.{
  ℕ, ◌+◌, ◌-◌, Bool, true, false, not, ◌&&◌, ◌||◌, Option, none, some, List, [], ◌∷◌, ◌++◌, length,
  get_elem?, set, replicate, remove_at, Text, nat_eq, pair_eq, list_eq, ◌=?◌, ltb, leb, ◌==◌,
  if◌then◌else◌,
}
use dbm.Base.Assoc
use dbm.Base.HashSet
use dbm.Base.HashSet.{contains}

pub data RowChangeKind : Type 0 where
  no_change insert delete update : RowChangeKind

-- Cell overrides are keyed by the row, which is an index of `snapshots`, and the column.
abbrev pub Cells : Type 0
Cells = List ((ℕ × ℕ) × Text)

pub record ResultsEditState : Type 0 where
  pub editing : Bool
  pub snapshots : List (List Text)
  pub dirty_cells : Cells
  pub deleted : List ℕ
  pub new_rows : List (List Text)
  pub conflict_rows : List ℕ
  pub commit_row_count_cache : ℕ

-- `Self::default()`
abbrev pub default : ResultsEditState
default = record {
  editing = false;
  snapshots = [];
  dirty_cells = [];
  deleted = [];
  new_rows = [];
  conflict_rows = [];
  commit_row_count_cache = 0;
}

-- `dirty_cells.keys().any(|(r, _)| *r == row)`
unfoldable pub row_is_dirty : ℕ → Cells → Bool
row_is_dirty row [] = false
row_is_dirty row (((r, c), v) ∷ m) = r == row || row_is_dirty row m

unfoldable pub row_change_kind : ResultsEditState → ℕ → RowChangeKind
row_change_kind state row =
    if not state.editing
    then no_change
    else if ltb row (length state.snapshots)
    then (if contains row state.deleted
        then delete
        else if row_is_dirty row state.dirty_cells
        then update
        else no_change)
    else if ltb (row - length state.snapshots) (length state.new_rows)
    then insert
    else no_change

unfoldable cell_is_dirty : ResultsEditState → ℕ → ℕ → Bool
cell_is_dirty state row col =
    state.editing
    && elim (Assoc.lookup (row, col) state.dirty_cells) [ some v ↦ true | none ↦ false ]

unfoldable gutter_glyph : RowChangeKind → ℕ
gutter_glyph no_change = b' '
gutter_glyph insert = b'+'
gutter_glyph delete = b'-'
gutter_glyph update = b'~'

-- The rows of the keys, each once.
unfoldable pub dirty_rows : Cells → List ℕ
dirty_rows [] = []
dirty_rows (((r, c), v) ∷ m) = HashSet.insert r (dirty_rows m)

-- The rows of the modified cells and the deleted rows, each once, and the new rows.
unfoldable pub count_changes : ResultsEditState → ℕ
count_changes s = length (HashSet.extend (dirty_rows s.dirty_cells) s.deleted) + length s.new_rows

unfoldable pub recompute_commit_count : ResultsEditState → ResultsEditState
recompute_commit_count s = record s { commit_row_count_cache = count_changes s }

unfoldable pub clear : ResultsEditState → ResultsEditState
clear s = default

unfoldable pub enter_edit : ResultsEditState → List (List Text) → ResultsEditState
unfolding recompute_commit_count
enter_edit s rows = recompute_commit_count (record {
  editing = true;
  snapshots = rows;
  dirty_cells = [];
  deleted = [];
  new_rows = [];
  conflict_rows = [];
  commit_row_count_cache = s.commit_row_count_cache;
})

unfoldable pub rollback : ResultsEditState → ResultsEditState
unfolding recompute_commit_count
rollback s =
    recompute_commit_count
      (record s { dirty_cells = []; deleted = []; new_rows = []; conflict_rows = [] })

unfoldable pub exit_edit : ResultsEditState → ResultsEditState
unfolding clear
exit_edit s = clear s

abbrev pub commit_row_count : ResultsEditState → ℕ
commit_row_count s = s.commit_row_count_cache

unfoldable pub is_dirty : ResultsEditState → Bool
is_dirty s = ltb 0 (commit_row_count s)

-- A write to one cell of one row; nothing where there is no such cell.
unfoldable pub set_cell : List (List Text) → ℕ → ℕ → Text → List (List Text)
set_cell rows row col value = elim (get_elem? rows row) [
  | some cells ↦ set rows row (set cells col value)
  | none ↦ rows
]

-- `snap.get(col).is_some_and(|old| old == &value)`
abbrev pub restores : Option Text → Text → Bool
restores none value = false
restores (some old) value = old =? value

-- The last part of `apply_cell`, for a loaded row with the cells `snap`.
unfoldable pub apply_loaded : ResultsEditState → ℕ → ℕ → Text → List Text → ResultsEditState
unfolding recompute_commit_count
apply_loaded s row col value snap = recompute_commit_count (record s {
  dirty_cells =
      if restores (get_elem? snap col) value
      then Assoc.remove (row, col) s.dirty_cells
      else Assoc.insert (row, col) value s.dirty_cells;
  conflict_rows = HashSet.remove row s.conflict_rows;
})

unfoldable pub apply_cell : ResultsEditState → ℕ → ℕ → Text → ResultsEditState
unfolding set_cell apply_loaded
apply_cell s row col value =
    if not s.editing || contains row s.deleted
    then s
    else if leb (length s.snapshots) row
    then record s { new_rows = set_cell s.new_rows (row - length s.snapshots) col value }
    else elim (get_elem? s.snapshots row) [
      | some snap ↦ apply_loaded s row col value snap
      | none ↦ s
    ]

unfoldable pub insert_row_values : ResultsEditState → List Text → ResultsEditState
unfolding recompute_commit_count
insert_row_values s values =
    if not s.editing
    then s
    else recompute_commit_count (record s { new_rows = s.new_rows ++ values ∷ [] })

unfoldable pub insert_row : ResultsEditState → ℕ → ResultsEditState
unfolding recompute_commit_count
insert_row s col_count =
    if not s.editing
    then s
    else recompute_commit_count (record s { new_rows = s.new_rows ++ replicate col_count [] ∷ [] })

-- The part of `mark_delete` for a loaded row: the mark is taken off, or it is set and the row's
-- modified cells are forgotten.
unfoldable pub toggle_delete : ResultsEditState → ℕ → ResultsEditState
unfolding recompute_commit_count
toggle_delete s row =
    let marks = record s {
      deleted =
          if contains row s.deleted
          then HashSet.remove row s.deleted
          else HashSet.insert row s.deleted;
      dirty_cells =
          if contains row s.deleted
          then s.dirty_cells
          else Assoc.retain (λ (r, c) v. not (r == row)) s.dirty_cells;
      conflict_rows = HashSet.remove row s.conflict_rows;
    } in
    recompute_commit_count marks

-- The result says that a pending insert was taken out of `new_rows`.
unfoldable pub mark_delete : ResultsEditState → ℕ → ResultsEditState × Bool
unfolding toggle_delete recompute_commit_count
mark_delete s row =
    if not s.editing
    then (s, false)
    else if ltb row (length s.snapshots)
    then (toggle_delete s row, false)
    else if ltb (row - length s.snapshots) (length s.new_rows)
    then (
      recompute_commit_count
          (record s { new_rows = remove_at s.new_rows (row - length s.snapshots) }),
      true,
    )
    else (s, false)
