-- ===== src/Edit/Deleting.antt =====
-- The delete key keeps the grid and the session together, except where it marks a row that has
-- overrides.
use dbm.Base.{
  ℕ, suc, ◌-◌, ◌≤◌, ◌<◌, ◌≡◌, refl, sym, ◌∙◌, ◌⊎◌, inl, inr, Bool, true, false, not, Option-cases,
  none, some, [], ◌∷◌, arith, length, remove_at, get_elem?-remove_at, length-remove_at, nat_eq,
  pair_eq, list_eq, ltb, ◌==◌, if-cases,
}
use dbm.Base.Assoc.{lookup, lookup-retain}
use dbm.Base.HashSet.{contains}
use dbm.Edit.Session
use dbm.Edit.Session.{
  Cells, row_is_dirty, toggle_delete, ResultsEditState, restores, set_cell, apply_loaded,
}
use dbm.Edit.Valid.{IsValid}
use dbm.Edit.Live.{ListState, QueryResultData, edit_del_row, after_mark}
use dbm.Edit.Cells.{session_cell, IsCoherent}

pub row_is_dirty-lookup-none :
    (r c : ℕ) (m : Cells) → row_is_dirty r m ≡ false → lookup (r, c) m ≡ none
unfolding row_is_dirty lookup
row_is_dirty-lookup-none r c [] h = refl
row_is_dirty-lookup-none r c (((x, y), v) ∷ m) h = ground (arith, row_is_dirty-lookup-none r c m)

-- Setting a mark on a row without overrides, or taking a mark off, leaves every value as it was.
session_cell-toggle_delete :
    (e : ResultsEditState) (row r c : ℕ)
    → IsValid e
    → (contains row e.deleted ≡ true) ⊎ (row_is_dirty row e.dirty_cells ≡ false)
    → session_cell (toggle_delete e row) r c ≡ session_cell e r c
unfolding session_cell toggle_delete
session_cell-toggle_delete e row r c i clean = ground (
  arith,
  lookup-retain {K = ℕ × ℕ} (λ (x, y) w. not (x == row)) (r, c) e.dirty_cells i.cells_once,
  row_is_dirty-lookup-none row c e.dirty_cells,
)

toggled-IsCoherent :
    (s : ListState)
    → IsValid s.edit
    → (contains s.row s.edit.deleted ≡ true) ⊎ (row_is_dirty s.row s.edit.dirty_cells ≡ false)
    → IsCoherent s
    → IsCoherent (after_mark s (toggle_delete s.edit s.row, false))
unfolding after_mark
toggled-IsCoherent s i clean h = record {
  height = unfold toggle_delete in h.height;
  cells = λ r c. h.cells r c ∙ sym (session_cell-toggle_delete s.edit s.row r c i clean);
}

-- Taking a new row out of the session and the same row out of the grid.
removed-IsCoherent :
    (s : ListState) (d : QueryResultData)
    → s.result ≡ some d
    → length s.edit.snapshots ≤ s.row
    → s.row - length s.edit.snapshots < length s.edit.new_rows
    → IsCoherent s
    → IsCoherent (
        after_mark s (
          record s.edit { new_rows = remove_at s.edit.new_rows (s.row - length s.edit.snapshots) },
          true,
        ))
unfolding after_mark session_cell
removed-IsCoherent s d there past known h = record {
  height = ground (
    arith,
    h.height,
    length-remove_at d.rows s.row,
    length-remove_at s.edit.new_rows (s.row - length s.edit.snapshots),
  );
  cells = λ r c. ground (
    arith,
    h.cells r c,
    h.cells (suc r) c,
    get_elem?-remove_at d.rows s.row r,
    get_elem?-remove_at s.edit.new_rows (s.row - length s.edit.snapshots)
        (r - length s.edit.snapshots),
  );
}

recounted-IsCoherent :
    (s : ListState) (e : ResultsEditState) (b : Bool)
    → IsCoherent (after_mark s (e, b))
    → IsCoherent (after_mark s (Session.recompute_commit_count e, b))
unfolding after_mark session_cell Session.recompute_commit_count
recounted-IsCoherent s e b h = record { height = h.height; cells = h.cells }

unmarked-IsCoherent : (s : ListState) → IsCoherent s → IsCoherent (after_mark s (s.edit, false))
unfolding after_mark
unmarked-IsCoherent s h = record { height = h.height; cells = h.cells }

pub edit_del_row-IsCoherent :
    (s : ListState)
    → IsValid s.edit
    → (contains s.row s.edit.deleted ≡ true) ⊎ (row_is_dirty s.row s.edit.dirty_cells ≡ false)
    → IsCoherent s
    → IsCoherent (edit_del_row s)
edit_del_row-IsCoherent s i clean h =
    unfold edit_del_row Session.mark_delete in
    if-cases IsCoherent (not s.edit.editing) (λ off. h)
      λ on.
        if-cases (λ m. IsCoherent (after_mark s m)) (not s.edit.editing)
          (λ off. unmarked-IsCoherent s h)
          λ on'.
            if-cases (λ m. IsCoherent (after_mark s m)) (ltb s.row (length s.edit.snapshots))
              (λ loaded. toggled-IsCoherent s i clean h)
              λ past.
                if-cases (λ m. IsCoherent (after_mark s m))
                  (ltb (s.row - length s.edit.snapshots) (length s.edit.new_rows))
                  (λ known. recounted-IsCoherent s _ true (removed s i h past known))
                  (λ unknown. unmarked-IsCoherent s h)
  where
    removed :
        (s : ListState)
        → IsValid s.edit
        → IsCoherent s
        → ltb s.row (length s.edit.snapshots) ≡ false
        → ltb (s.row - length s.edit.snapshots) (length s.edit.new_rows) ≡ true
        → IsCoherent (
            after_mark s (
              record s.edit {
                new_rows = remove_at s.edit.new_rows (s.row - length s.edit.snapshots);
              },
              true,
            ))
    removed s i h past known = elim (Option-cases s.result) [
      | inl e ↦ absurd (ground (arith, h.height))
      | inr (d, e) ↦ removed-IsCoherent s d e (ground arith) (ground arith) h
    ]
