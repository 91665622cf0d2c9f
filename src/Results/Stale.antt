-- ===== src/Results/Stale.antt =====
-- A result that lands under the cell editor, and a query that runs again.
use dbm.Base.{
  ℕ, ◌≡◌, refl, sym, ap, subst, ◌∙◌, Bool, true, false, not, ◌&&◌, ◌||◌, some, Text, arith,
  if-cases, Option-cases, inl, inr, list_eq, nat_eq, List,
}
use dbm.Edit.Live
use dbm.Edit.Live.{is_some, live_rows, QueryResultData, apply_cell_value}
use dbm.Edit.Valid.{cell_at}
use dbm.Grid.Search.{KeyEvent}
use dbm.Grid.View
use dbm.Grid.Paging.{has_dirty_session, handle_set_result, land_result}
use dbm.Grid.Update
use dbm.Results.Editor.{Editor}
use dbm.Results.Detail
use dbm.Results.Detail.{
  DetailState, detail_draft_dirty, has_unsaved_draft, current_text, sync_draft_from_editor,
  with_draft_of,
}
use dbm.Results.Message
use dbm.Results.Message.{
  ResultsMessage, is_move, is_enter_edit, is_exit_edit, is_rollback,
  detail_draft_blocks_list_action, list_edits_block_action, resets_detail_scroll, into_list_message,
}
use dbm.Results.State.{ResultsState, Outcome}
use dbm.Results.Arms.{key_to_detail, handle_save_detail_cell}
use dbm.Results.Update.{
  follow_session, resolve_warning, reset_scroll, follow_move, after_list, route_to_list,
  handle_list_message, handle_other, dispatch, gated, update, handle_detail_editor_key,
}
use dbm.Results.Draft.{held}
use dbm.Results.Saving.{Holds, save-update, cell_at-apply_cell_value}

module _ (ed : Editor) (lower : Text → Text) (width : Text → ℕ) (now wall : ℕ) where
  -- The new rows are there, the cursor is on the first cell, the session and the draft are the old ones.
  record IsLanded (s : ResultsState ed) (r : QueryResultData) (o : Outcome ed) : Type 0 where
    rows : live_rows o.0.list.live.result ≡ r.rows
    row : o.0.list.live.row ≡ 0
    col : o.0.list.live.col ≡ 0
    session : o.0.list.live.edit ≡ s.list.live.edit
    draft : held ed o.0.detail ≡ held ed s.detail

  landing :
      (s : ResultsState ed) (r : QueryResultData) (paginated : Bool)
      → s.detail.dirty ≡ false
      → has_dirty_session s.list ≡ false
      → s.detail.focused ≡ true
      → s.list.page_anchor_bottom ≡ false
      → Holds (IsLanded s r) (update ed lower width now wall (Message.set_result r paginated) s)
  unfolding update gated dispatch handle_other into_list_message detail_draft_blocks_list_action
      list_edits_block_action handle_list_message is_move route_to_list Update.update Update.handle
      Update.disarm Update.keeps_chord handle_set_result after_list follow_session resolve_warning
      reset_scroll follow_move land_result View.set_result is_enter_edit is_exit_edit is_rollback
      resets_detail_scroll
  landing s r paginated clean settled focus top =
      if-cases (Holds (IsLanded s r)) (s.detail.focused && (s.detail.dirty && true))
        (λ blocked. absurd (ground arith))
        λ open_gate.
          if-cases (Holds (IsLanded s r)) (has_dirty_session s.list && true)
            (λ blocked. absurd (ground arith))
            λ free. record {
              rows = refl;
              row = ground arith;
              col = refl;
              session = refl;
              draft = ground arith;
            }

  focused-apply_editor_key :
      (d : DetailState ed) (key : KeyEvent)
      → (Detail.apply_editor_key ed d key).0.focused ≡ d.focused
  unfolding Detail.apply_editor_key Detail.take_key Detail.after_key with_draft_of
  focused-apply_editor_key d key = ground arith

  -- A focused draft with changes is written to the cell under the cursor.
  writing :
      (s : ResultsState ed)
      → s.detail.focused ≡ true
      → s.detail.dirty ≡ true
      → is_some (cell_at (live_rows s.list.live.result) s.list.live.row s.list.live.col) ≡ true
      → Holds
          (λ (o : Outcome ed).
            cell_at (live_rows o.0.list.live.result) s.list.live.row s.list.live.col
            ≡ some (current_text ed s.detail))
          (update ed lower width now wall Message.save_detail_cell s)
  unfolding handle_save_detail_cell
  writing s focus changed here = rw (save-update ed lower width now wall s) (
      if-cases
        (λ (o : Outcome ed).
          cell_at (live_rows o.0.list.live.result) s.list.live.row s.list.live.col
          ≡ some (current_text ed s.detail))
        (not s.detail.focused || not s.detail.dirty) (λ nothing. absurd (ground arith))
        (λ there.
          cell_at-apply_cell_value s.list.live s.list.live.row s.list.live.col
            (current_text ed s.detail) here))

  -- A key in the editor changes nothing but the detail pane, while a session is on.
  typing :
      (key : KeyEvent) (s : ResultsState ed)
      → s.list.live.edit.editing ≡ true
      → Holds
          (λ (o : Outcome ed).
            (o.0.list.live ≡ s.list.live)
            × (o.0.detail ≡ (Detail.apply_editor_key ed s.detail key).0))
          (update ed lower width now wall (Message.detail_editor_key key) s)
  unfolding update gated dispatch detail_draft_blocks_list_action list_edits_block_action
      handle_detail_editor_key key_to_detail Detail.update
  typing key s on = elim (Option-cases s.detail.editor) [
    | inl e ↦ ground arith
    | inr (host, e) ↦ ground arith
  ]

  at_first :
      (s : ResultsState ed) (q : Outcome ed) (rows : List (List Text))
      → live_rows s.list.live.result ≡ rows
      → s.list.live.row ≡ 0
      → s.list.live.col ≡ 0
      → s.detail.focused ≡ true
      → s.detail.dirty ≡ true
      → is_some (cell_at rows 0 0) ≡ true
      → update ed lower width now wall Message.save_detail_cell s ≡ some q
      → cell_at (live_rows q.0.list.live.result) 0 0 ≡ some (current_text ed s.detail)
  at_first s q rows same row col focus changed wide saved =
      (λ i. cell_at (live_rows q.0.list.live.result) (sym row i) (sym col i))
      ∙ subst
          (Holds (λ (o : Outcome ed).
            cell_at (live_rows o.0.list.live.result) s.list.live.row s.list.live.col
            ≡ some (current_text ed s.detail)))
          saved (writing s focus changed ((λ i. is_some (cell_at (same i) (row i) (col i))) ∙ wide))

  -- In a running edit session without unsaved changes, while the cell editor has the focus with a draft
  -- that is not marked as unsaved, a result lands that has a first cell and is not to be shown from its
  -- bottom (as after a move to the previous or the last page): the editor stays the one of the cell that it
  -- was opened on; and where a key then makes the draft an unsaved one and it is saved, the text of the
  -- editor is written into the first cell of the new rows.
  pub stale_draft :
      (s : ResultsState ed) (r : QueryResultData) (paginated : Bool) (key : KeyEvent)
      (o p q : Outcome ed)
      → s.detail.dirty ≡ false
      → has_dirty_session s.list ≡ false
      → s.detail.focused ≡ true
      → s.list.live.edit.editing ≡ true
      → s.list.page_anchor_bottom ≡ false
      → is_some (cell_at r.rows 0 0) ≡ true
      → update ed lower width now wall (Message.set_result r paginated) s ≡ some o
      → update ed lower width now wall (Message.detail_editor_key key) o.0 ≡ some p
      → p.0.detail.dirty ≡ true
      → update ed lower width now wall Message.save_detail_cell p.0 ≡ some q
      → (o.0.detail.editor ≡ s.detail.editor)
        × (cell_at (live_rows q.0.list.live.result) 0 0
            ≡ some (current_text ed (Detail.apply_editor_key ed o.0.detail key).0))
  stale_draft s r paginated key o p q clean settled focus on top wide landed typed changed saved =
      let l : IsLanded s r o =
        subst (Holds (IsLanded s r)) landed (landing s r paginated clean settled focus top) in
      let k : (p.0.list.live ≡ o.0.list.live)
          × (p.0.detail ≡ (Detail.apply_editor_key ed o.0.detail key).0) =
        subst
          (Holds (λ (x : Outcome ed).
            (x.0.list.live ≡ o.0.list.live)
            × (x.0.detail ≡ (Detail.apply_editor_key ed o.0.detail key).0)))
          typed (typing key o.0 (rw l.session on)) in
      (
        ap (λ h. h.4) l.draft,
        at_first p.0 q r.rows (ap (λ (v : Live.ListState). live_rows v.result) k.0 ∙ l.rows)
              (ap (λ (v : Live.ListState). v.row) k.0 ∙ l.row)
              (ap (λ (v : Live.ListState). v.col) k.0 ∙ l.col)
              (ap (λ (d : DetailState ed). d.focused) k.1
                ∙ focused-apply_editor_key o.0.detail key
                ∙ ap (λ h. h.3) l.draft
                ∙ focus)
              changed wide saved
            ∙ ap (λ (d : DetailState ed). some (current_text ed d)) k.1,
      )
