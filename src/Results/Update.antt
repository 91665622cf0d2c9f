-- ===== src/Results/Update.antt =====
-- update.rs: the gates under unsaved edits, and the way of a message to the list or to the detail pane.
-- The intents are left out: none is ever made.
use dbm.Base.{
  ℕ, Bool, true, false, not, ◌&&◌, ◌||◌, Option, none, some, [], ◌++◌, Text, nat_eq, list_eq,
  if◌then◌else◌,
}
use dbm.Edit.Session.{is_dirty}
use dbm.Grid.Search.{KeyEvent}
use dbm.Grid.Effect
use dbm.Grid.Effect.{ListMessage, ResultsEffect}
use dbm.Grid.Update
use dbm.Grid.Paging.{has_dirty_session}
use dbm.Results.Editor.{Editor}
use dbm.Results.Detail.{clear_draft, unfocus}
use dbm.Results.Message
use dbm.Results.Message.{
  ResultsMessage, into_list_message, detail_draft_blocks_list_action, list_edits_block_action,
  is_move, is_exit_edit, is_rollback, is_enter_edit, resets_detail_scroll,
}
use dbm.Results.State.{
  ResultsState, Outcome, refresh_allowed, mark_refresh_started, run_again, load_selected, cleared,
}
use dbm.Results.Arms.{
  detail_key_would_edit, key_to_detail, entered, refused, leave_refused, handle_set_detail_draft,
  handle_toggle_detail, handle_focus_detail, handle_unfocus_detail, handle_save_detail_cell,
  handle_discard_detail_cell, handle_edit_leave_attempt, handle_copy_detail_selection,
  handle_detail,
}

module _ (ed : Editor) where
  -- The detail pane after a message to the list: entering, leaving and rolling back the session.
  unfoldable pub follow_session : ListMessage → ResultsState ed → ResultsState ed
  unfolding load_selected clear_draft is_enter_edit is_exit_edit is_rollback
  follow_session m s =
      if is_enter_edit m
      then load_selected ed s
      else if is_exit_edit m
      then cleared ed s
      else if is_rollback m
      then load_selected ed (cleared ed s)
      else s

  unfoldable pub resolve_warning : ListMessage → ResultsState ed → ResultsState ed
  unfolding is_exit_edit is_rollback resets_detail_scroll
  resolve_warning m s =
      if is_exit_edit m || is_rollback m || resets_detail_scroll m
      then record s { list = record s.list { leave_warning = false } }
      else s

  unfoldable pub reset_scroll : ListMessage → ResultsState ed → ResultsState ed
  unfolding is_move resets_detail_scroll
  reset_scroll m s =
      if is_move m || resets_detail_scroll m
      then record s { detail = record s.detail { scroll = 0 } }
      else s

  unfoldable pub follow_move : ListMessage → ResultsState ed → ResultsState ed
  unfolding is_move load_selected
  follow_move m s =
      if is_move m && (s.detail_open && not s.detail.focused) then load_selected ed s else s

  unfoldable pub after_list : ListMessage → ResultsState ed → ResultsState ed
  unfolding follow_session resolve_warning reset_scroll follow_move
  after_list m s = follow_move m (reset_scroll m (resolve_warning m (follow_session m s)))

  -- An armed `dd` is broken by all but these messages.
  abbrev pub keeps_chord : ResultsMessage ed → Bool
  keeps_chord Message.del_chord = true
  keeps_chord (Message.list m) = true
  keeps_chord (Message.sync_viewport rows width) = true
  keeps_chord _ = false

  abbrev pub disarmed : ResultsMessage ed → ResultsState ed → ResultsState ed
  disarmed m s =
      if keeps_chord m then s else record s { list = record s.list { del_chord_at = none } }

  -- `lower` and `width` are the case folding and the display width of the list, `wall` and `now` its
  -- clocks. `none` is a panic, of the search or of `into_list_message`.
  module _ (lower : Text → Text) (width : Text → ℕ) (now wall : ℕ) where
    unfoldable pub route_to_list : ListMessage → ResultsState ed → Option (Outcome ed)
    unfolding Update.update after_list
    route_to_list m s = elim (Update.update lower width now wall m s.list) [
      | none ↦ none
      | some (list, effects, dirty) ↦ some (after_list m (record s { list = list }), effects, dirty)
    ]

    -- The second message follows on the first, and its redraw is told to `drawn`.
    abbrev pub then_route : (ResultsState ed → ListMessage) → Outcome ed → Option (Outcome ed)
    then_route next (s, effects, dirty) = elim (route_to_list (next s) s) [
      | none ↦ none
      | some (t, more, redraw) ↦ some (t, effects ++ more, true)
    ]

    unfoldable pub handle_commit_outcome : ResultsState ed → Bool → Option (Outcome ed)
    unfolding route_to_list run_again
    handle_commit_outcome s done =
        if done
        then elim (route_to_list Effect.exit_edit s) [
          | none ↦ none
          | some o ↦ then_route (λ t. run_again t.list) o
        ]
        else some (s, [], false)

    abbrev pub starts_session : ResultsState ed → KeyEvent → Bool
    starts_session s key = elim s.detail.editor [
      | none ↦ false
      | some e ↦ s.detail.focused && not s.list.live.edit.editing && detail_key_would_edit ed key e
    ]

    unfoldable pub handle_detail_editor_key : ResultsState ed → KeyEvent → Option (Outcome ed)
    unfolding route_to_list key_to_detail detail_key_would_edit
    handle_detail_editor_key s key =
        if starts_session s key
        then elim (route_to_list Effect.enter_edit s) [
          | none ↦ none
          | some o ↦ some (entered ed key o)
        ]
        else some (key_to_detail ed key s [])

    unfoldable pub handle_refresh : ResultsState ed → Option (Outcome ed)
    unfolding refresh_allowed mark_refresh_started run_again route_to_list
    handle_refresh s =
        if not (refresh_allowed now s.list.refresh_cooldown_until)
        then some (s, [], false)
        else route_to_list (run_again s.list) (record s { list = mark_refresh_started now s.list })

    -- The last arm of `update`.
    abbrev unfocused : ResultsState ed → ResultsState ed
    unfocused s = if s.detail.focused then record s { detail = unfocus ed s.detail } else s

    unfoldable pub handle_list_message : ListMessage → ResultsState ed → Option (Outcome ed)
    unfolding is_move unfocus route_to_list
    handle_list_message m s =
        if is_move m && (s.detail.focused && s.detail.dirty)
        then some (refused ed s)
        else route_to_list m (if is_move m then unfocused s else s)

    unfoldable pub handle_other : Option ListMessage → ResultsState ed → Option (Outcome ed)
    unfolding handle_list_message
    handle_other none s = none
    handle_other (some m) s = handle_list_message m s

    unfoldable pub dispatch : ResultsMessage ed → ResultsState ed → Option (Outcome ed)
    unfolding into_list_message route_to_list handle_detail handle_set_detail_draft
        handle_toggle_detail handle_focus_detail handle_unfocus_detail handle_save_detail_cell
        handle_discard_detail_cell handle_edit_leave_attempt handle_commit_outcome
        handle_copy_detail_selection handle_detail_editor_key handle_refresh handle_other
    dispatch (Message.list m) s = route_to_list m s
    dispatch (Message.detail m) s = some (handle_detail ed m s)
    dispatch (Message.set_detail_draft text) s = some (handle_set_detail_draft ed s text)
    dispatch Message.toggle_detail s = some (handle_toggle_detail ed s)
    dispatch Message.focus_detail s = some (handle_focus_detail ed s)
    dispatch Message.unfocus_detail s = some (handle_unfocus_detail ed s)
    dispatch Message.save_detail_cell s = some (handle_save_detail_cell ed s)
    dispatch Message.discard_detail_cell s = some (handle_discard_detail_cell ed s)
    dispatch Message.edit_leave_attempt s = some (handle_edit_leave_attempt ed s)
    dispatch (Message.commit_outcome done) s = handle_commit_outcome s done
    dispatch Message.copy_detail_selection s = some (handle_copy_detail_selection ed s)
    dispatch (Message.detail_editor_key key) s = handle_detail_editor_key s key
    dispatch Message.refresh s = handle_refresh s
    dispatch m s = handle_other (into_list_message ed m) s

    unfoldable pub gated : ResultsMessage ed → ResultsState ed → Option (Outcome ed)
    unfolding dispatch detail_draft_blocks_list_action list_edits_block_action is_dirty
    gated m s =
        if s.detail.focused && (s.detail.dirty && detail_draft_blocks_list_action ed m)
        then some (refused ed s)
        else if has_dirty_session s.list && list_edits_block_action ed m
        then some (leave_refused ed s)
        else dispatch m s

    unfoldable pub update : ResultsMessage ed → ResultsState ed → Option (Outcome ed)
    unfolding gated
    update m s = gated m (disarmed m s)
