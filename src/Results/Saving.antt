-- ===== src/Results/Saving.antt =====
-- What becomes of the draft: saved into the session and the grid, discarded, or left over when another
-- result lands.
use dbm.Base.{
  ℕ, ◌≡◌, sym, subst, ◌∙◌, true, false, not, ◌||◌, Option, none, some, Text, arith, if-cases,
  Option-cases, inl, inr, =?_refl, list_eq, nat_eq, [], ◌∷◌,
}
use dbm.Base.HashSet.{contains}
use dbm.Edit.Live
use dbm.Edit.Live.{is_some, live_rows, QueryResultData, apply_cell_value}
use dbm.Edit.Valid.{cell_at}
use dbm.Edit.Cells.{cell_at-set_cell}
use dbm.Edit.Coherence.{IsSafe, presses-IsSafe, presses, press, set_value}
use dbm.Results.Editor.{Editor}
use dbm.Results.Detail.{
  DetailState, detail_draft_dirty, has_unsaved_draft, current_text, sync_draft_from_editor,
  with_draft_of,
}
use dbm.Results.Message
use dbm.Results.Message.{
  ResultsMessage, is_move, is_enter_edit, is_exit_edit, is_rollback,
  detail_draft_blocks_list_action, list_edits_block_action, resets_detail_scroll, into_list_message,
}
use dbm.Results.State.{ResultsState, Outcome}
use dbm.Results.Arms.{handle_save_detail_cell, settled}
use dbm.Results.Update.{dispatch, gated, update}
use dbm.Results.Sound.Pane.{IsSound}

-- `P` holds of the value, if there is one.
abbrev pub Holds : {A : Type 0} → (A → Type 0) → Option A → Type 0
Holds P none = Unit
Holds P (some a) = P a

-- The cell that is written, in the grid.
pub cell_at-apply_cell_value :
    (l : Live.ListState) (row col : ℕ) (v : Text)
    → is_some (cell_at (live_rows l.result) row col) ≡ true
    → cell_at (live_rows (apply_cell_value l row col v).result) row col ≡ some v
unfolding apply_cell_value
cell_at-apply_cell_value l row col v here = elim (Option-cases l.result) [
  | inl e ↦ absurd (ground arith)
  | inr (r, e) ↦ ground (arith, cell_at-set_cell r.rows row col row col v)
]

module _ (ed : Editor) (lower : Text → Text) (width : Text → ℕ) (now wall : ℕ) where
  -- Saving never meets a gate.
  pub save-update :
      (s : ResultsState ed)
      → update ed lower width now wall Message.save_detail_cell s
        ≡ some
            (handle_save_detail_cell ed (record s { list = record s.list { del_chord_at = none } }))
  unfolding update gated dispatch detail_draft_blocks_list_action list_edits_block_action
  save-update s = ground arith

  settled_clean :
      (d : DetailState ed)
      → is_some d.editor ≡ true
      → has_unsaved_draft ed (settled ed (record d { baseline = current_text ed d })) ≡ false
  unfolding has_unsaved_draft settled sync_draft_from_editor with_draft_of current_text
      detail_draft_dirty
  settled_clean d here = elim (Option-cases d.editor) [
    | inl e ↦ ground arith
    | inr (host, e) ↦ ground (arith, =?_refl (ed.text host))
  ]

  -- In a running edit session with which the grid is in step, for a focused, unsaved draft whose pane is
  -- in step with itself, with the cursor on a cell of the grid in a row that is not marked as deleted:
  -- saving the draft puts the text of the editor into that cell of the grid, keeps the grid in step with
  -- the session, which a commit reads, and leaves nothing unsaved in the editor.
  pub save_detail_cell_lem :
      (s : ResultsState ed) (o : Outcome ed)
      → IsSound ed s
      → has_unsaved_draft ed s.detail ≡ true
      → IsSafe s.list.live
      → s.list.live.edit.editing ≡ true
      → contains s.list.live.row s.list.live.edit.deleted ≡ false
      → is_some (cell_at (live_rows s.list.live.result) s.list.live.row s.list.live.col) ≡ true
      → update ed lower width now wall Message.save_detail_cell s ≡ some o
      → (cell_at (live_rows o.0.list.live.result) s.list.live.row s.list.live.col
          ≡ some (current_text ed s.detail))
        × IsSafe o.0.list.live
        × (has_unsaved_draft ed o.0.detail ≡ false)
  save_detail_cell_lem s o sound unsaved safe on kept here e =
      subst
        (Holds (λ (p : Outcome ed).
          (cell_at (live_rows p.0.list.live.result) s.list.live.row s.list.live.col
            ≡ some (current_text ed s.detail))
          × IsSafe p.0.list.live
          × (has_unsaved_draft ed p.0.detail ≡ false)))
        (sym (save-update s) ∙ e)
        (unfold handle_save_detail_cell in
          if-cases
            (λ (p : Outcome ed).
              (cell_at (live_rows p.0.list.live.result) s.list.live.row s.list.live.col
                ≡ some (current_text ed s.detail))
              × IsSafe p.0.list.live
              × (has_unsaved_draft ed p.0.detail ≡ false))
            (not s.detail.focused || not s.detail.dirty)
            (λ nothing. absurd (unfold has_unsaved_draft in ground arith))
            (λ there. (
              cell_at-apply_cell_value s.list.live _ _ _ here,
              unfold presses press in
                  presses-IsSafe s.list.live
                    (set_value s.list.live.row s.list.live.col (current_text ed s.detail) ∷ [])
                    ((on, kept, here), tt) safe,
              settled_clean s.detail (unfold has_unsaved_draft in ground (arith, sound.hosted)),
            )))
