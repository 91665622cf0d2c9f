-- ===== src/Edit/Undelete.antt =====
-- A delete mark that is set and taken off again.
use dbm.Base.{
  ℕ, ◌<◌, ◌≡◌, refl, ◌≢◌, ◌∙◌, true, false, not, some, [], ◌∷◌, arith, length, Text, nat_eq,
  pair_eq, list_eq, =?_iff, ◌==◌,
}
use dbm.Base.Assoc.{retain, lookup}
use dbm.Base.HashSet.{contains, insert, contains-insert, contains-remove}
use dbm.Edit.Session
use dbm.Edit.Session.{
  Cells, row_is_dirty, toggle_delete, ResultsEditState, restores, set_cell, apply_loaded,
}
use dbm.Edit.Valid.{IsValid, cell_at}
use dbm.Edit.Live.{ListState, live_rows, edit_del_row}
use dbm.Edit.Session.{no_change, row_change_kind}
use dbm.Edit.Cells.{session_cell, IsCoherent}
use dbm.Edit.Deleting.{row_is_dirty-lookup-none}

row_is_dirty-retain :
    (row : ℕ) (m : Cells) → row_is_dirty row (retain (λ (x, y) w. not (x == row)) m) ≡ false
unfolding row_is_dirty retain
row_is_dirty-retain row [] = refl
row_is_dirty-retain row (((x, y), v) ∷ m) = ground (arith, row_is_dirty-retain row m)

-- The delete key on a loaded row toggles its mark and leaves the grid's rows alone.
edit_del_row-loaded :
    (s : ListState)
    → s.edit.editing ≡ true
    → s.row < length s.edit.snapshots
    → edit_del_row s ≡ record s { edit = toggle_delete s.edit s.row }
unfolding edit_del_row Session.mark_delete
edit_del_row-loaded s on loaded = ground arith

-- The session after a mark is set on an unmarked row and taken off: the row has no overrides.
toggle_twice :
    (e : ResultsEditState) (row : ℕ)
    → contains row e.deleted ≡ false
    → let t = toggle_delete (toggle_delete e row) row in
      (t.editing ≡ e.editing)
      × (t.snapshots ≡ e.snapshots)
      × (contains row t.deleted ≡ false)
      × (t.dirty_cells ≡ retain (λ (x, y) w. not (x == row)) e.dirty_cells)
unfolding toggle_delete
toggle_twice e row unmarked =
    ground
      (arith, contains-insert row row e.deleted, contains-remove row row (insert row e.deleted))

edit_del_row-twice :
    (s : ListState)
    → s.edit.editing ≡ true
    → s.row < length s.edit.snapshots
    → edit_del_row (edit_del_row s)
      ≡ record s { edit = toggle_delete (toggle_delete s.edit s.row) s.row }
edit_del_row-twice s on loaded = rw (edit_del_row-loaded s on loaded) (
    edit_del_row-loaded (record s { edit = toggle_delete s.edit s.row })
      (unfold toggle_delete in on) (unfold toggle_delete in loaded))

shown_override :
    (e : ResultsEditState) (row col : ℕ) (v : Text)
    → row < length e.snapshots
    → lookup (row, col) e.dirty_cells ≡ some v
    → session_cell e row col ≡ some v
unfolding session_cell
shown_override e row col v loaded h = ground arith

-- A row without overrides and without a mark has the loaded values and counts as unchanged.
untouched_row :
    (e : ResultsEditState) (row col : ℕ)
    → row < length e.snapshots
    → contains row e.deleted ≡ false
    → row_is_dirty row e.dirty_cells ≡ false
    → (session_cell e row col ≡ cell_at e.snapshots row col) × (row_change_kind e row ≡ no_change)
unfolding session_cell row_change_kind
untouched_row e row col loaded unmarked clean =
    ground (arith, row_is_dirty-lookup-none row col e.dirty_cells)

-- Where a loaded row with an override is marked as deleted and the mark is taken off, the grid still
-- shows the override, while the session has gone back to the loaded value, which differs from it,
-- and classifies the row as unchanged: what the grid shows is not what a commit would write.
pub undelete_forgets :
    (s : ListState) (col : ℕ) (v : Text)
    → s.edit.editing ≡ true
    → IsValid s.edit
    → IsCoherent s
    → s.row < length s.edit.snapshots
    → lookup (s.row, col) s.edit.dirty_cells ≡ some v
    → let t = edit_del_row (edit_del_row s) in
      (cell_at (live_rows t.result) s.row col ≡ some v)
      × (session_cell t.edit s.row col ≡ cell_at s.edit.snapshots s.row col)
      × (cell_at s.edit.snapshots s.row col ≢ some v)
      × (row_change_kind t.edit s.row ≡ no_change)
undelete_forgets s col v on i h loaded e =
    let live = i.cells_live s.row col v e in
    let t = toggle_delete (toggle_delete s.edit s.row) s.row in
    let twice = toggle_twice s.edit s.row live.1 in
    let row =
      untouched_row t s.row col (ground (arith, twice)) twice.2
        (ground (arith, twice, row_is_dirty-retain s.row s.edit.dirty_cells)) in
    rw (edit_del_row-twice s on loaded) (
      h.cells s.row col ∙ shown_override s.edit s.row col v loaded e,
      ground (arith, twice, row.0),
      λ same. ground (arith, =?_iff v v, live),
      row.1,
    )
