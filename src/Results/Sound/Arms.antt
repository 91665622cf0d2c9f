-- ===== src/Results/Sound/Arms.antt =====
-- The detail pane stays in step in the arms of the update function that do not ask the list.
use dbm.Base.{
  ◌≡◌, refl, Bool, false, not, ◌&&◌, ◌||◌, some, Text, arith, if-cases, Option-cases, inl, inr,
  =?_refl, list_eq, nat_eq, List,
}
use dbm.Edit.Live.{is_some}
use dbm.Grid.State.{selected_cell}
use dbm.Grid.Search.{KeyEvent}
use dbm.Grid.Effect.{ResultsEffect}
use dbm.Grid.Paging.{has_dirty_session}
use dbm.Results.Editor.{Editor}
use dbm.Results.Detail
use dbm.Results.Detail.{
  DetailState, DetailMessage, detail_draft_dirty, has_unsaved_draft, load_cell, clear_draft,
  unfocus, with_draft_of, sync_draft_from_editor, reset_for_close, focus_editor, after_key,
  take_key, apply_editor_key, apply_mouse_gesture, scroll_editor_or,
}
use dbm.Results.State.{ResultsState, Outcome, load_selected, toggle_detail, open_detail}
use dbm.Results.Arms.{
  key_to_detail, handle_toggle_detail, handle_focus_detail, handle_unfocus_detail,
  handle_discard_detail_cell, handle_edit_leave_attempt, handle_copy_detail_selection,
  handle_set_detail_draft, handle_save_detail_cell, settled,
}
use dbm.Results.Sound.Pane.{
  IsSound, loaded-AreInStep, cleared-AreInStep, unfocused-AreInStep, update-AreInStep, AreInStep,
}

module _ (ed : Editor) where
  pub load_selected-IsSound : (s : ResultsState ed) → IsSound ed s → IsSound ed (load_selected ed s)
  unfolding load_selected
  load_selected-IsSound s h = elim (Option-cases (selected_cell s.list)) [
    | inl e ↦ rw (e, load_selected) h
    | inr (v, e) ↦ rw (e, load_selected) (loaded-AreInStep ed s.detail s.detail_open v h)
  ]

  pub opened-IsSound : (s : ResultsState ed) → IsSound ed s → IsSound ed (open_detail ed s)
  unfolding open_detail reset_for_close
  opened-IsSound s h = record { honest = h.honest; hosted = h.hosted; shown = ground arith }

  pub edit_leave_attempt-IsSound :
      (s : ResultsState ed) → IsSound ed s → IsSound ed (handle_edit_leave_attempt ed s).0
  unfolding handle_edit_leave_attempt
  edit_leave_attempt-IsSound s h =
      if-cases (λ (o : Outcome ed). IsSound ed o.0) (has_dirty_session s.list) (λ e. h) (λ e. h)

  pub set_detail_draft-IsSound :
      (s : ResultsState ed) (text : Text)
      → IsSound ed s
      → IsSound ed (handle_set_detail_draft ed s text).0
  unfolding handle_set_detail_draft
  set_detail_draft-IsSound s text h =
      update-AreInStep ed (Detail.set_draft text) s.detail s.detail_open h

  pub copy_detail_selection-IsSound :
      (s : ResultsState ed) → IsSound ed s → IsSound ed (handle_copy_detail_selection ed s).0
  unfolding handle_copy_detail_selection
  copy_detail_selection-IsSound s h =
      let same : (handle_copy_detail_selection ed s).0 ≡ s = ground arith in rw same h

  pub unfocus_detail-IsSound :
      (s : ResultsState ed) → IsSound ed s → IsSound ed (handle_unfocus_detail ed s).0
  unfolding handle_unfocus_detail
  unfocus_detail-IsSound s h =
      if-cases (λ (o : Outcome ed). IsSound ed o.0) (not s.detail.focused) (λ e. h)
        λ e.
          if-cases (λ (o : Outcome ed). IsSound ed o.0) s.detail.dirty
            (λ d. record { honest = h.honest; hosted = h.hosted; shown = h.shown })
            (λ d. unfocused-AreInStep ed s.detail s.detail_open h)

  pub focus_detail-IsSound :
      (s : ResultsState ed) → IsSound ed s → IsSound ed (handle_focus_detail ed s).0
  unfolding handle_focus_detail open_detail focus_editor detail_draft_dirty reset_for_close
  focus_detail-IsSound s h = elim (Option-cases (selected_cell s.list)) [
    | inl e ↦ ground arith
    | inr (v, e) ↦ ground (arith, =?_refl v)
  ]

  pub toggle_detail-IsSound :
      (s : ResultsState ed) → IsSound ed s → IsSound ed (handle_toggle_detail ed s).0
  unfolding handle_toggle_detail toggle_detail
  toggle_detail-IsSound s h =
      if-cases (λ (o : Outcome ed). IsSound ed o.0) (s.detail_open && has_unsaved_draft ed s.detail)
        (λ e. record { honest = h.honest; hosted = h.hosted; shown = h.shown })
        λ e.
          if-cases (λ (o : Outcome ed). IsSound ed o.0) s.detail_open
            (λ was_open.
              cleared-AreInStep ed (toggle_detail ed s).detail (toggle_detail ed s).detail_open)
            (λ hidden. rw hidden (load_selected-IsSound (open_detail ed s) (opened-IsSound s h)))

  pub settled-AreInStep :
      (d : DetailState ed) (b : Bool) (host : ed.State)
      → d.editor ≡ some host
      → (d.focused ≡ is_some d.editor) × ((d.focused && not b) ≡ false)
      → AreInStep ed (settled ed d) b
  unfolding settled sync_draft_from_editor with_draft_of
  settled-AreInStep d b host e h = ground (arith, h.0, h.1)

  pub save_detail_cell-IsSound :
      (s : ResultsState ed) → IsSound ed s → IsSound ed (handle_save_detail_cell ed s).0
  unfolding handle_save_detail_cell
  save_detail_cell-IsSound s h =
      if-cases (λ (o : Outcome ed). IsSound ed o.0) (not s.detail.focused || not s.detail.dirty)
        (λ out. h)
        λ unsaved. elim (Option-cases s.detail.editor) [
          | inl e ↦ absurd (ground (arith, h.hosted))
          | inr (host, e) ↦
              settled-AreInStep (record s.detail { baseline = Detail.current_text ed s.detail })
                s.detail_open host e (h.hosted, h.shown)
        ]

  pub discard_detail_cell-IsSound :
      (s : ResultsState ed) → IsSound ed s → IsSound ed (handle_discard_detail_cell ed s).0
  unfolding handle_discard_detail_cell
  discard_detail_cell-IsSound s h =
      if-cases (λ (o : Outcome ed). IsSound ed o.0) (not s.detail.focused || not s.detail.dirty)
        (λ out. h)
        λ unsaved. elim (Option-cases s.detail.editor) [
          | inl e ↦ absurd (ground (arith, h.hosted))
          | inr (host, e) ↦ rw e (
              settled-AreInStep
                (record s.detail { editor = some (ed.set_text s.detail.baseline host) })
                s.detail_open (ed.set_text s.detail.baseline host) refl
                (ground (arith, h.hosted), h.shown))
        ]

  pub key_to_detail-IsSound :
      (key : KeyEvent) (s : ResultsState ed) (effects : List ResultsEffect)
      → IsSound ed s
      → IsSound ed (key_to_detail ed key s effects).0
  unfolding key_to_detail
  key_to_detail-IsSound key s effects h =
      update-AreInStep ed (Detail.key_event key) s.detail s.detail_open h
