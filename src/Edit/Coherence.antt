-- ===== src/Edit/Coherence.antt =====
-- Whole edit sessions: what the grid shows is what a commit reads, and where it is not.
use dbm.Base.{
  ℕ, ◌≡◌, ◌⊎◌, true, false, not, Option, none, some, List, [], ◌∷◌, arith, get_elem?, Text, nat_eq,
  pair_eq, list_eq, if◌then◌else◌, if-cases,
}
use dbm.Base.HashSet.{contains}
use dbm.Edit.Session
use dbm.Edit.Sql.{is_empty}
use dbm.Edit.Session.{
  Cells, row_is_dirty, toggle_delete, ResultsEditState, restores, set_cell, apply_loaded,
}
use dbm.Edit.Valid.{IsValid, cell_at}
use dbm.Edit.Live.{
  ListState, live_rows, editable, enter_edit, rollback_edits, apply_cell_value, append_row,
  edit_add_row, edit_dup_row, edit_del_row, column_count, is_some, after_mark,
}
use dbm.Edit.Session.{no_change, row_change_kind}
use dbm.Edit.Valid.{
  step, step-IsValid, enters, rolls_back, applies, inserts, inserts_values, marks_delete,
}
use dbm.Edit.Cells.{
  IsCoherent, enter_edit-IsCoherent, rollback_edits-IsCoherent, apply_cell_value-IsCoherent,
}
use dbm.Edit.Appending.{edit_add_row-IsCoherent, edit_dup_row-IsCoherent}
use dbm.Edit.Deleting.{edit_del_row-IsCoherent}

-- The keys of edit mode.
pub data Key : Type 0 where
  rollback add_row dup_row del_row : Key
  set_value : ℕ → ℕ → Text → Key

unfoldable pub press : ListState → Key → ListState
press s rollback = rollback_edits s
press s add_row = edit_add_row s
press s dup_row = edit_dup_row s
press s del_row = edit_del_row s
press s (set_value row col v) = apply_cell_value s row col v

unfoldable pub presses : ListState → List Key → ListState
unfolding press
presses s [] = s
presses s (k ∷ ks) = presses (press s k) ks

-- A value goes to a cell that the grid has, in a row that is not marked as deleted, and the delete
-- key is not pressed on an unmarked row with overrides.
abbrev pub Admits : ListState → Key → Type 0
Admits s del_row =
    (contains s.row s.edit.deleted ≡ true) ⊎ (row_is_dirty s.row s.edit.dirty_cells ≡ false)
Admits s (set_value row col v) =
    (s.edit.editing ≡ true)
    × (contains row s.edit.deleted ≡ false)
    × (is_some (cell_at (live_rows s.result) row col) ≡ true)
Admits s _ = Unit

abbrev AllAdmit : ListState → List Key → Type 0
AllAdmit s [] = Unit
AllAdmit s (k ∷ ks) = Admits s k × AllAdmit (press s k) ks

pub record IsSafe (s : ListState) : Type 0 where
  has_result : is_some s.result ≡ true
  pub valid : IsValid s.edit
  pub coherent : IsCoherent s

edit-append_row : (s : ListState) (values : List Text) → (append_row s values).edit ≡ s.edit
unfolding append_row
edit-append_row s values = ground arith

pub press-IsValid : (s : ListState) (k : Key) → IsValid s.edit → IsValid (press s k).edit
unfolding press step rollback_edits after_mark apply_cell_value
press-IsValid s rollback v = step-IsValid s.edit rolls_back v
press-IsValid s add_row v =
    unfold edit_add_row in
    if-cases (λ (t : ListState). IsValid t.edit) (not s.edit.editing) (λ off. v)
      λ on. rw edit-append_row (step-IsValid s.edit (inserts (column_count s.result)) v)
press-IsValid s dup_row v =
    unfold edit_dup_row in
    if-cases (λ (t : ListState). IsValid t.edit) (not s.edit.editing) (λ off. v)
      λ on. copied (get_elem? (live_rows s.result) s.row)
  where
    copied :
        (o : Option (List Text))
        → IsValid
            (elim o as (λ x. ListState) [
              | none ↦ s
              | some values ↦
                  if is_empty values
                  then s
                  else append_row
                      (record s { edit = Session.insert_row_values s.edit values })
                      values
            ]).edit
    copied none = v
    copied (some values) =
        if-cases (λ (t : ListState). IsValid t.edit) (is_empty values) (λ empty. v)
          λ full. rw edit-append_row (step-IsValid s.edit (inserts_values values) v)
press-IsValid s del_row v =
    unfold edit_del_row in
    if-cases (λ (t : ListState). IsValid t.edit) (not s.edit.editing) (λ off. v)
      λ on. step-IsValid s.edit (marks_delete s.row) v
press-IsValid s (set_value row col value) v = step-IsValid s.edit (applies row col value) v

press-has_result :
    (s : ListState) (k : Key) → is_some s.result ≡ true → is_some (press s k).result ≡ true
unfolding press rollback_edits edit_add_row edit_dup_row edit_del_row apply_cell_value
press-has_result s rollback h = ground arith
press-has_result s add_row h = ground arith
press-has_result s dup_row h = ground arith
press-has_result s del_row h = ground arith
press-has_result s (set_value row col v) h = ground arith

press-IsCoherent : (s : ListState) (k : Key) → Admits s k → IsSafe s → IsCoherent (press s k)
unfolding press
press-IsCoherent s rollback a h = rollback_edits-IsCoherent s h.has_result
press-IsCoherent s add_row a h = edit_add_row-IsCoherent s h.has_result h.coherent
press-IsCoherent s dup_row a h = edit_dup_row-IsCoherent s h.coherent
press-IsCoherent s del_row a h = edit_del_row-IsCoherent s h.valid a h.coherent
press-IsCoherent s (set_value row col v) a h =
    apply_cell_value-IsCoherent s row col v a.0 a.1 a.2 h.coherent

pub presses-IsSafe :
    (s : ListState) (ks : List Key) → AllAdmit s ks → IsSafe s → IsSafe (presses s ks)
unfolding presses
presses-IsSafe s [] a h = h
presses-IsSafe s (k ∷ ks) a h = presses-IsSafe (press s k) ks a.1 (record {
  has_result = press-has_result s k h.has_result;
  valid = press-IsValid s k h.valid;
  coherent = press-IsCoherent s k a.0 h;
})

entered-IsSafe :
    (s : ListState)
    → editable s ≡ true
    → is_some s.result ≡ true
    → IsValid s.edit
    → IsSafe (enter_edit s)
entered-IsSafe s e r v = record {
  has_result = unfold enter_edit in ground arith;
  valid =
      unfold enter_edit step in
      if-cases (λ (t : ListState). IsValid t.edit) (not (editable s)) (λ off. v)
        λ on. step-IsValid s.edit (enters (live_rows s.result)) v;
  coherent = enter_edit-IsCoherent s e;
}

-- From entering edit mode on, through any keys that are admitted, the grid has the session's rows
-- and shows in every cell the value that the session holds for it, and the session stays valid.
pub presses-enter_edit-IsSafe :
    (s : ListState) (ks : List Key)
    → editable s ≡ true
    → is_some s.result ≡ true
    → IsValid s.edit
    → AllAdmit (enter_edit s) ks
    → IsSafe (presses (enter_edit s) ks)
presses-enter_edit-IsSafe s ks e r v a = presses-IsSafe (enter_edit s) ks a (entered-IsSafe s e r v)
