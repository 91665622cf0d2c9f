-- ===== src/Edit/Valid.antt =====
-- What every operation on an edit session keeps.
use dbm.Base.{
  ℕ, ◌-◌, ◌<◌, ◌≡◌, refl, inl, inr, Bool, true, false, not, ◌||◌, Option, none, some, Option-cases,
  Bool-cases, if-cases, ltb, leb, List, [], ◌∷◌, arith, length, get_elem?, get_elem?-lt, set,
  length-set, Text, nat_eq, pair_eq, =?_iff, ◌==◌,
}
use dbm.Base.Assoc.{
  lookup, Distinct, lookup-insert, lookup-remove, lookup-retain, insert-Distinct, remove-Distinct,
  retain-Distinct,
}
use dbm.Base.HashSet.{
  contains, NoRepeats, contains-insert, contains-remove, insert-NoRepeats, remove-NoRepeats,
}
use dbm.Base.HashSet
use dbm.Edit.Session
use dbm.Edit.Session.{
  ResultsEditState, default, count_changes, recompute_commit_count, clear, enter_edit, rollback,
  exit_edit, restores, set_cell, apply_loaded, apply_cell, insert_row, insert_row_values,
  toggle_delete, mark_delete,
}

abbrev pub cell_at : List (List Text) → ℕ → ℕ → Option Text
cell_at rows row col = elim (get_elem? rows row) [ some cells ↦ get_elem? cells col | none ↦ none ]

-- Overrides and marks name loaded rows, no deleted row has an override, no override repeats the
-- loaded value, the cached count is exact, and there is nothing to commit outside of edit mode.
pub record IsValid (s : ResultsEditState) : Type 0 where
  pub cells_once : Distinct s.dirty_cells
  pub deleted_once : NoRepeats s.deleted
  pub deleted_loaded : (r : ℕ) → contains r s.deleted ≡ true → r < length s.snapshots
  pub cells_live :
      (r c : ℕ) (v : Text)
      → lookup (r, c) s.dirty_cells ≡ some v
      → (r < length s.snapshots)
        × (contains r s.deleted ≡ false)
        × (restores (cell_at s.snapshots r c) v ≡ false)
  pub counted : s.commit_row_count_cache ≡ count_changes s
  pub idle : s.editing ≡ false → (s.dirty_cells ≡ []) × (s.deleted ≡ []) × (s.new_rows ≡ [])

-- The public operations, with their arguments.
pub data Op : Type 0 where
  enters : List (List Text) → Op
  rolls_back exits : Op
  applies : ℕ → ℕ → Text → Op
  inserts : ℕ → Op
  inserts_values : List Text → Op
  marks_delete : ℕ → Op

unfoldable pub step : ResultsEditState → Op → ResultsEditState
step s (enters rows) = enter_edit s rows
step s rolls_back = rollback s
step s exits = exit_edit s
step s (applies row col value) = apply_cell s row col value
step s (inserts n) = insert_row s n
step s (inserts_values values) = insert_row_values s values
step s (marks_delete row) = (mark_delete s row).0

unfoldable pub run : ResultsEditState → List Op → ResultsEditState
unfolding step
run s [] = s
run s (op ∷ ops) = run (step s op) ops

pub default-IsValid : IsValid default
unfolding count_changes contains lookup HashSet.extend Session.dirty_rows
default-IsValid = record {
  cells_once = tt;
  deleted_once = tt;
  deleted_loaded = λ r h. cc;
  cells_live = λ r c v h. cc;
  counted = refl;
  idle = λ h. (refl, refl, refl);
}

unedited-IsValid :
    (s : ResultsEditState)
    → s.dirty_cells ≡ []
    → s.deleted ≡ []
    → (s.editing ≡ false → s.new_rows ≡ [])
    → IsValid (recompute_commit_count s)
unfolding recompute_commit_count count_changes contains lookup
unedited-IsValid s d e n = record {
  cells_once = rw d tt;
  deleted_once = rw e tt;
  deleted_loaded = λ r h. ground arith;
  cells_live = λ r c v h. ground arith;
  counted = refl;
  idle = λ h. (d, e, n h);
}

apply_loaded-IsValid :
    (s : ResultsEditState) (row col : ℕ) (value : Text) (snap : List Text)
    → IsValid s
    → s.editing ≡ true
    → contains row s.deleted ≡ false
    → get_elem? s.snapshots row ≡ some snap
    → IsValid (apply_loaded s row col value snap)
unfolding apply_loaded count_changes
apply_loaded-IsValid s row col value snap i on live e =
    elim (Bool-cases (restores (get_elem? snap col) value)) [
      | inl old ↦
          rw (old, apply_loaded)
            (record {
              cells_once = remove-Distinct (row, col) s.dirty_cells i.cells_once;
              deleted_once = i.deleted_once;
              deleted_loaded = i.deleted_loaded;
              cells_live = λ r c v h.
                  i.cells_live r c v
                    (ground (arith, lookup-remove (row, col) (r, c) s.dirty_cells));
              counted = refl;
              idle = λ h. cc;
            })
      | inr new ↦
          rw (new, apply_loaded)
            (record {
              cells_once = insert-Distinct (row, col) value s.dirty_cells i.cells_once;
              deleted_once = i.deleted_once;
              deleted_loaded = i.deleted_loaded;
              cells_live = λ r c v h. ground (
                arith,
                lookup-insert (row, col) (r, c) value s.dirty_cells,
                i.cells_live r c v,
                =?_iff {A = ℕ × ℕ} (row, col) (r, c),
                get_elem?-lt s.snapshots row snap e,
              );
              counted = refl;
              idle = λ h. cc;
            })
    ]

toggle_delete-IsValid :
    (s : ResultsEditState) (row : ℕ)
    → IsValid s
    → s.editing ≡ true
    → row < length s.snapshots
    → IsValid (toggle_delete s row)
unfolding toggle_delete count_changes
toggle_delete-IsValid s row i on loaded = elim (Bool-cases (contains row s.deleted)) [
  | inl old ↦
      rw (old, toggle_delete)
        (record {
          cells_once = i.cells_once;
          deleted_once = remove-NoRepeats row s.deleted i.deleted_once;
          deleted_loaded =
              λ r h. i.deleted_loaded r (ground (arith, contains-remove row r s.deleted));
          cells_live =
              λ r c v h. ground (arith, i.cells_live r c v, contains-remove row r s.deleted);
          counted = refl;
          idle = λ h. cc;
        })
  | inr new ↦
      rw (new, toggle_delete)
        (record {
          cells_once = retain-Distinct _ s.dirty_cells i.cells_once;
          deleted_once = insert-NoRepeats row s.deleted i.deleted_once;
          deleted_loaded =
              λ r h. ground (arith, i.deleted_loaded r, contains-insert row r s.deleted);
          cells_live = λ r c v h. ground (
            arith,
            i.cells_live r c v,
            contains-insert row r s.deleted,
            lookup-retain (λ (x, y) w. not (x == row)) (r, c) s.dirty_cells i.cells_once,
          );
          counted = refl;
          idle = λ h. cc;
        })
]

rows_changed-IsValid :
    (s : ResultsEditState) (rows : List (List Text))
    → IsValid s
    → s.editing ≡ true
    → IsValid (recompute_commit_count (record s { new_rows = rows }))
unfolding recompute_commit_count count_changes
rows_changed-IsValid s rows i on = record {
  cells_once = i.cells_once;
  deleted_once = i.deleted_once;
  deleted_loaded = i.deleted_loaded;
  cells_live = i.cells_live;
  counted = refl;
  idle = λ h. cc;
}

pub length-set_cell :
    (rows : List (List Text)) (row col : ℕ) (value : Text)
    → length (set_cell rows row col value) ≡ length rows
unfolding set_cell
length-set_cell rows row col value = elim (Option-cases (get_elem? rows row)) [
  | inl e ↦ rw (e, set_cell) refl
  | inr (cells, e) ↦ rw (e, set_cell) (length-set rows row (set cells col value))
]

apply_cell-IsValid :
    (s : ResultsEditState) (row col : ℕ) (value : Text)
    → IsValid s
    → IsValid (apply_cell s row col value)
unfolding apply_cell count_changes
apply_cell-IsValid s row col value i =
    if-cases IsValid (not s.editing || contains row s.deleted) (λ off. i)
      λ on.
        if-cases IsValid (leb (length s.snapshots) row) (λ new. new_cell-IsValid on)
          λ loaded. loaded_cell on (get_elem? s.snapshots row) refl
  where
    new_cell-IsValid :
        (not s.editing || contains row s.deleted) ≡ false
        → IsValid (record s { new_rows = set_cell s.new_rows (row - length s.snapshots) col value })
    new_cell-IsValid on = record {
      cells_once = i.cells_once;
      deleted_once = i.deleted_once;
      deleted_loaded = i.deleted_loaded;
      cells_live = i.cells_live;
      counted =
          ground
            (arith, i.counted, length-set_cell s.new_rows (row - length s.snapshots) col value);
      idle = λ h. ground arith;
    }

    loaded_cell :
        (not s.editing || contains row s.deleted) ≡ false
        → (o : Option (List Text)) → get_elem? s.snapshots row ≡ o
        → IsValid (elim o [ some snap ↦ apply_loaded s row col value snap | none ↦ s ])
    loaded_cell on none e = i
    loaded_cell on (some snap) e =
        apply_loaded-IsValid s row col value snap i (ground arith) (ground arith) e

mark_delete-IsValid : (s : ResultsEditState) (row : ℕ) → IsValid s → IsValid (mark_delete s row).0
unfolding mark_delete
mark_delete-IsValid s row i =
    if-cases (λ (r : ResultsEditState × Bool). IsValid r.0) (not s.editing) (λ off. i)
      λ on.
        if-cases (λ (r : ResultsEditState × Bool). IsValid r.0) (ltb row (length s.snapshots))
          (λ loaded. toggle_delete-IsValid s row i (ground arith) (ground arith))
          λ new.
            if-cases (λ (r : ResultsEditState × Bool). IsValid r.0)
              (ltb (row - length s.snapshots) (length s.new_rows))
              (λ h. rows_changed-IsValid s _ i (ground arith)) (λ h. i)

-- Every operation keeps the session valid.
pub step-IsValid : (s : ResultsEditState) (op : Op) → IsValid s → IsValid (step s op)
unfolding step
step-IsValid s (enters rows) i = unfold enter_edit in unedited-IsValid _ refl refl (λ h. cc)
step-IsValid s rolls_back i = unfold rollback in unedited-IsValid _ refl refl (λ h. refl)
step-IsValid s exits i = unfold exit_edit in default-IsValid
step-IsValid s (applies row col value) i = apply_cell-IsValid s row col value i
step-IsValid s (inserts n) i =
    unfold insert_row in
    if-cases IsValid (not s.editing) (λ off. i) λ on. rows_changed-IsValid s _ i (ground arith)
step-IsValid s (inserts_values values) i =
    unfold insert_row_values in
    if-cases IsValid (not s.editing) (λ off. i) λ on. rows_changed-IsValid s _ i (ground arith)
step-IsValid s (marks_delete row) i = mark_delete-IsValid s row i

-- Any sequence of operations on a valid session leaves it valid.
pub run-IsValid : (s : ResultsEditState) (ops : List Op) → IsValid s → IsValid (run s ops)
unfolding run
run-IsValid s [] i = i
run-IsValid s (op ∷ ops) i = run-IsValid (step s op) ops (step-IsValid s op i)
