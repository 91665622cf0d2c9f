-- ===== src/Edit/Cells.antt =====
-- The rows that the grid shows against the edit session that a commit reads: cells.
use dbm.Base.{
  ℕ, ◌+◌, ◌-◌, ◌≡◌, inl, inr, true, false, ◌&&◌, Bool-cases, Option-cases, Option, none, some, List,
  arith, length, get_elem?, set, replace?, get_elem?-set, get_elem?-ge, get_elem?-lt,
  get_elem?-none, Text, nat_eq, pair_eq, list_eq, =?_iff, ltb, ◌==◌, if◌then◌else◌,
}
use dbm.Base.Assoc.{lookup, lookup-insert, lookup-remove}
use dbm.Base.HashSet.{contains}
use dbm.Edit.Session
use dbm.Edit.Session.{
  Cells, row_is_dirty, toggle_delete, ResultsEditState, restores, set_cell, apply_loaded,
}
use dbm.Edit.Valid.{cell_at, length-set_cell}
use dbm.Edit.Live.{
  ListState, live_rows, editable, enter_edit, rollback_edits, apply_cell_value, is_some,
}

-- The value that the session gives a cell: an override, else the loaded value; or a new row's.
unfoldable pub session_cell : ResultsEditState → ℕ → ℕ → Option Text
session_cell e row col =
    if ltb row (length e.snapshots)
    then elim (lookup (row, col) e.dirty_cells) [
      | some v ↦ some v
      | none ↦ cell_at e.snapshots row col
    ]
    else cell_at e.new_rows (row - length e.snapshots) col

-- The grid has the session's rows, and shows the session's value in every cell.
pub record IsCoherent (s : ListState) : Type 0 where
  pub height : length (live_rows s.result) ≡ length s.edit.snapshots + length s.edit.new_rows
  pub cells : (r c : ℕ) → cell_at (live_rows s.result) r c ≡ session_cell s.edit r c

pub cell_at-set_cell :
    (rows : List (List Text)) (row col r c : ℕ) (value : Text)
    → cell_at (set_cell rows row col value) r c
      ≡ (if row == r && col == c then replace? (cell_at rows row col) value else cell_at rows r c)
unfolding set_cell
cell_at-set_cell rows row col r c value = elim (Option-cases (get_elem? rows row)) [
  | inl e ↦ rw (e, set_cell) (ground arith)
  | inr (cells, e) ↦
      rw (e, set_cell)
        (ground
          (arith, get_elem?-set rows row r (set cells col value), get_elem?-set cells col c value))
]

-- Entering edit mode and rolling back make the grid show exactly the loaded rows.
pub enter_edit-IsCoherent : (s : ListState) → editable s ≡ true → IsCoherent (enter_edit s)
unfolding enter_edit session_cell lookup Session.enter_edit
enter_edit-IsCoherent s h = record {
  height = ground arith;
  cells = λ r c. ground (arith, get_elem?-ge (live_rows s.result) r);
}

pub rollback_edits-IsCoherent :
    (s : ListState) → is_some s.result ≡ true → IsCoherent (rollback_edits s)
unfolding rollback_edits session_cell lookup Session.rollback
rollback_edits-IsCoherent s h = record {
  height = ground arith;
  cells = λ r c. ground (arith, get_elem?-ge s.edit.snapshots r);
}

restores-some : (o : Option Text) (v : Text) → restores o v ≡ true → o ≡ some v
restores-some none v h = cc
restores-some (some w) v h = ground (arith, =?_iff w v)

-- Where the session takes a value for a cell, it is that cell's value from then on, and no other
-- cell's value changes.
session_cell-apply_loaded :
    (e : ResultsEditState) (row col r c : ℕ) (v : Text) (snap : List Text)
    → get_elem? e.snapshots row ≡ some snap
    → session_cell (apply_loaded e row col v snap) r c
      ≡ (if row == r && col == c then some v else session_cell e r c)
unfolding session_cell apply_loaded
session_cell-apply_loaded e row col r c v snap h =
    elim (Bool-cases (restores (get_elem? snap col) v)) [
      | inl old ↦ ground (
        arith,
        lookup-remove {K = ℕ × ℕ} (row, col) (r, c) e.dirty_cells,
        restores-some (get_elem? snap col) v old,
        get_elem?-lt e.snapshots row snap h,
      )
      | inr new ↦ ground (
        arith,
        lookup-insert {K = ℕ × ℕ} (row, col) (r, c) v e.dirty_cells,
        get_elem?-lt e.snapshots row snap h,
      )
    ]

session_cell-apply_cell :
    (e : ResultsEditState) (row col r c : ℕ) (v : Text)
    → e.editing ≡ true
    → contains row e.deleted ≡ false
    → is_some (session_cell e row col) ≡ true
    → session_cell (Session.apply_cell e row col v) r c
      ≡ (if row == r && col == c then some v else session_cell e r c)
unfolding Session.apply_cell
session_cell-apply_cell e row col r c v on live there =
    elim (Option-cases (get_elem? e.snapshots row)) [
      | inr (snap, h) ↦ ground (
        arith,
        get_elem?-lt e.snapshots row snap h,
        session_cell-apply_loaded e row col r c v snap h,
      )
      | inl h ↦
          unfold session_cell in
          ground (
            arith,
            get_elem?-none e.snapshots row h,
            cell_at-set_cell e.new_rows (row - length e.snapshots) col (r - length e.snapshots) c v,
          )
    ]

heights-apply_cell :
    (e : ResultsEditState) (row col : ℕ) (v : Text)
    → ((Session.apply_cell e row col v).snapshots ≡ e.snapshots)
      × (length (Session.apply_cell e row col v).new_rows ≡ length e.new_rows)
unfolding Session.apply_cell
heights-apply_cell e row col v =
    ground (arith, length-set_cell e.new_rows (row - length e.snapshots) col v)

-- A value given to a cell that the grid has, in a row that is not marked as deleted, is shown by the
-- grid and taken by the session alike.
pub apply_cell_value-IsCoherent :
    (s : ListState) (row col : ℕ) (v : Text)
    → s.edit.editing ≡ true
    → contains row s.edit.deleted ≡ false
    → is_some (cell_at (live_rows s.result) row col) ≡ true
    → IsCoherent s
    → IsCoherent (apply_cell_value s row col v)
unfolding apply_cell_value
apply_cell_value-IsCoherent s row col v on live there h = record {
  height = ground (
    arith,
    h.height,
    heights-apply_cell s.edit row col v,
    length-set_cell (live_rows s.result) row col v,
  );
  cells = λ r c. ground (
    arith,
    h.cells r c,
    h.cells row col,
    cell_at-set_cell (live_rows s.result) row col r c v,
    session_cell-apply_cell s.edit row col r c v on live,
  );
}
