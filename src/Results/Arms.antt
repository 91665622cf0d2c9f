-- ===== src/Results/Arms.antt =====
-- The arms of update.rs that stay in the pane or ask the detail pane.
use dbm.Base.{
  Bool, true, false, not, ◌&&◌, ◌||◌, Option, none, some, List, [], ◌∷◌, Text, ◌=?◌, nat_eq,
  list_eq, if◌then◌else◌,
}
use dbm.Base.HashSet.{contains}
use dbm.Edit.Live
use dbm.Edit.Session.{is_dirty}
use dbm.Edit.Sql.{is_empty}
use dbm.Grid.Search.{KeyEvent}
use dbm.Grid.State.{selected_cell}
use dbm.Grid.Effect
use dbm.Grid.Effect.{ListMessage, ResultsEffect}
use dbm.Grid.Paging.{has_dirty_session}
use dbm.Results.Editor.{Editor, accepts_key_event}
use dbm.Results.Detail
use dbm.Results.Detail.{
  DetailState, DetailMessage, load_cell, clear_draft, reset_for_close, has_unsaved_draft,
  focus_editor, unfocus, current_text, sync_draft_from_editor,
}
use dbm.Results.State.{ResultsState, Outcome, open_detail, toggle_detail, load_selected, cleared}

module _ (ed : Editor) where
  -- Does the key change the text, or switch to Insert? Tried on a copy.
  unfoldable pub detail_key_would_edit : KeyEvent → ed.State → Bool
  unfolding accepts_key_event
  detail_key_would_edit key e =
      accepts_key_event key
      && (not (ed.text (ed.on_key_event key e) =? ed.text e)
          || ed.inserting (ed.on_key_event key e))

  -- The key goes to the detail pane, behind the effects so far.
  unfoldable pub key_to_detail : KeyEvent → ResultsState ed → List ResultsEffect → Outcome ed
  unfolding Detail.update
  key_to_detail key s effects =
      let (d, dirty) = Detail.update ed (Detail.key_event key) s.detail in
      (record s { detail = d }, effects, dirty)

  -- With a session or not, after `EnterEdit` was tried.
  abbrev pub entered : KeyEvent → Outcome ed → Outcome ed
  entered key (s, effects, dirty) =
      if not s.list.live.edit.editing then (s, effects, true) else key_to_detail key s effects

  abbrev pub refused : ResultsState ed → Outcome ed
  refused s = (record s { detail = record s.detail { leave_warning = true } }, [], true)

  abbrev pub leave_refused : ResultsState ed → Outcome ed
  leave_refused s = (record s { list = record s.list { leave_warning = true } }, [], true)

  unfoldable pub handle_set_detail_draft : ResultsState ed → Text → Outcome ed
  unfolding Detail.update Live.apply_cell_value
  handle_set_detail_draft s text = (
    record s {
      detail = (Detail.update ed (Detail.set_draft text) s.detail).0;
      list = record s.list {
        live = Live.apply_cell_value s.list.live s.list.live.row s.list.live.col text;
      };
    },
    [],
    true,
  )

  unfoldable pub handle_toggle_detail : ResultsState ed → Outcome ed
  unfolding has_unsaved_draft toggle_detail clear_draft load_selected
  handle_toggle_detail s =
      if s.detail_open && has_unsaved_draft ed s.detail
      then refused s
      else if s.detail_open
      then (cleared ed (toggle_detail ed s), [], true)
      else (load_selected ed (toggle_detail ed s), [], true)

  unfoldable pub handle_focus_detail : ResultsState ed → Outcome ed
  unfolding open_detail focus_editor
  handle_focus_detail s =
      if s.detail.focused || contains s.list.live.row s.list.live.edit.deleted
      then (s, [], false)
      else elim (selected_cell s.list) [
        | none ↦ (s, [], false)
        | some value ↦
            let opened = if not s.detail_open then open_detail ed s else s in
            (record opened { detail = focus_editor ed opened.detail value }, [], true)
      ]

  unfoldable pub handle_unfocus_detail : ResultsState ed → Outcome ed
  unfolding unfocus
  handle_unfocus_detail s =
      if not s.detail.focused
      then (s, [], false)
      else if s.detail.dirty
      then refused s
      else (record s { detail = unfocus ed s.detail }, [], true)

  -- The end of saving and discarding: the draft is in step with the editor, the warning is gone.
  unfoldable pub settled : DetailState ed → DetailState ed
  unfolding sync_draft_from_editor
  settled d = let synced = sync_draft_from_editor ed d in record synced { leave_warning = false }

  unfoldable pub handle_save_detail_cell : ResultsState ed → Outcome ed
  unfolding current_text settled Live.apply_cell_value
  handle_save_detail_cell s =
      let written = current_text ed s.detail in
      if not s.detail.focused || not s.detail.dirty then (s, [], false) else (
        record s {
          list = record s.list {
            live = Live.apply_cell_value s.list.live s.list.live.row s.list.live.col written;
          };
          detail = settled (record s.detail { baseline = written });
        },
        [],
        true,
      )

  abbrev reset_editor : DetailState ed → DetailState ed
  reset_editor d = elim d.editor [
    | none ↦ d
    | some e ↦ record d { editor = some (ed.set_text d.baseline e) }
  ]

  unfoldable pub handle_discard_detail_cell : ResultsState ed → Outcome ed
  unfolding settled
  handle_discard_detail_cell s =
      if not s.detail.focused || not s.detail.dirty
      then (s, [], false)
      else (record s { detail = settled (reset_editor s.detail) }, [], true)

  unfoldable pub handle_edit_leave_attempt : ResultsState ed → Outcome ed
  unfolding is_dirty
  handle_edit_leave_attempt s = if has_dirty_session s.list then leave_refused s else (s, [], false)

  abbrev selected_text : Option ed.State → Option Text
  selected_text none = none
  selected_text (some e) = ed.selection e

  unfoldable pub handle_copy_detail_selection : ResultsState ed → Outcome ed
  handle_copy_detail_selection s = elim (selected_text s.detail.editor) [
    | none ↦ (s, [], false)
    | some text ↦
        if is_empty text then (s, [], false) else (s, Effect.copy_selection text ∷ [], true)
  ]

  unfoldable pub handle_detail : DetailMessage ed → ResultsState ed → Outcome ed
  unfolding Detail.update
  handle_detail m s =
      let (d, dirty) = Detail.update ed m s.detail in (record s { detail = d }, [], dirty)
