-- ===== src/Edit/Appending.antt =====
-- New rows keep the grid and the session together.
use dbm.Base.{
  ℕ, ◌+◌, ◌-◌, ◌≡◌, refl, inl, inr, true, false, not, Option-cases, Option, none, some, List, [],
  ◌∷◌, ◌++◌, arith, length, get_elem?, replicate, get_elem?-append_one, get_elem?-ge, length-append,
  Text, nat_eq, pair_eq, list_eq, ◌==◌, if◌then◌else◌, if-cases,
}
use dbm.Edit.Session
use dbm.Edit.Sql.{is_empty}
use dbm.Edit.Session.{
  Cells, row_is_dirty, toggle_delete, ResultsEditState, restores, set_cell, apply_loaded,
}
use dbm.Edit.Valid.{cell_at}
use dbm.Edit.Live.{
  ListState, QueryResultData, live_rows, append_row, edit_add_row, edit_dup_row, column_count,
  is_some,
}
use dbm.Edit.Cells.{session_cell, IsCoherent}

-- The session's rows with one more new row at the end.
session_cell-append :
    (e : ResultsEditState) (values : List Text) (r c : ℕ)
    → session_cell (record e { new_rows = e.new_rows ++ values ∷ [] }) r c ≡ (
        if r == length e.snapshots + length e.new_rows
        then get_elem? values c
        else session_cell e r c)
unfolding session_cell
session_cell-append e values r c = ground (
  arith,
  get_elem?-append_one e.new_rows values (r - length e.snapshots),
  get_elem?-ge e.new_rows (r - length e.snapshots),
)

cell_at-append :
    (rows : List (List Text)) (values : List Text) (r c : ℕ)
    → cell_at (rows ++ values ∷ []) r c
      ≡ (if r == length rows then get_elem? values c else cell_at rows r c)
cell_at-append rows values r c =
    ground (arith, get_elem?-append_one rows values r, get_elem?-ge rows r)

-- A session that gains a new row beside a grid that gains the same row.
appended-IsCoherent :
    (s : ListState) (d : QueryResultData) (e : ResultsEditState) (values : List Text)
    → s.result ≡ some d
    → e.snapshots ≡ s.edit.snapshots
    → e.new_rows ≡ s.edit.new_rows ++ values ∷ []
    → ((r c : ℕ)
        → session_cell e r c
          ≡ session_cell (record s.edit { new_rows = s.edit.new_rows ++ values ∷ [] }) r c)
    → IsCoherent s
    → IsCoherent (append_row (record s { edit = e }) values)
unfolding append_row
appended-IsCoherent s d e values has old new same h =
    rw (has, append_row)
      (record {
        height = ground (
          arith,
          h.height,
          length-append d.rows (values ∷ []),
          length-append s.edit.new_rows (values ∷ []),
        );
        cells = λ r c. ground (
          arith,
          h.height,
          h.cells r c,
          same r c,
          cell_at-append d.rows values r c,
          session_cell-append s.edit values r c,
        );
      })

pub edit_add_row-IsCoherent :
    (s : ListState) → is_some s.result ≡ true → IsCoherent s → IsCoherent (edit_add_row s)
unfolding edit_add_row Session.insert_row session_cell
edit_add_row-IsCoherent s there h =
    if-cases IsCoherent (not s.edit.editing) (λ off. h)
      λ on. elim (Option-cases s.result) [
        | inl e ↦ absurd (ground arith)
        | inr (d, e) ↦
            appended-IsCoherent s d (Session.insert_row s.edit (column_count s.result))
              (replicate (column_count s.result) []) e (ground arith) (ground arith)
              (λ r c. ground arith) h
      ]

dup-IsCoherent :
    (s : ListState) (values : List Text)
    → s.edit.editing ≡ true
    → get_elem? (live_rows s.result) s.row ≡ some values
    → IsCoherent s
    → IsCoherent (append_row (record s { edit = Session.insert_row_values s.edit values }) values)
unfolding Session.insert_row_values session_cell
dup-IsCoherent s values on e h = elim (Option-cases s.result) [
  | inl none_there ↦ absurd (ground arith)
  | inr (d, there) ↦
      appended-IsCoherent s d (Session.insert_row_values s.edit values) values there (ground arith)
        (ground arith) (λ r c. ground arith) h
]

pub edit_dup_row-IsCoherent : (s : ListState) → IsCoherent s → IsCoherent (edit_dup_row s)
edit_dup_row-IsCoherent s h =
    unfold edit_dup_row in
    if-cases IsCoherent (not s.edit.editing) (λ off. h) λ on. with_values on _ refl
  where
    with_values :
        (not s.edit.editing) ≡ false
        → (o : Option (List Text)) → get_elem? (live_rows s.result) s.row ≡ o
        → IsCoherent (elim o [
          | none ↦ s
          | some values ↦
              if is_empty values
              then s
              else append_row (record s { edit = Session.insert_row_values s.edit values }) values
        ])
    with_values on none e = h
    with_values on (some values) e =
        if-cases IsCoherent (is_empty values) (λ empty. h)
          λ full. dup-IsCoherent s values (ground arith) e h
