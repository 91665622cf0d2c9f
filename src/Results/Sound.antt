-- ===== src/Results/Sound.antt =====
-- The state of the detail pane in step with itself, under every message of the results pane.
pub mod Pane
pub mod Arms
use dbm.Base.{
  ℕ, ◌≡◌, refl, subst, Bool, true, false, not, ◌&&◌, ◌||◌, Option, none, some, Text, arith,
  if-cases, Option-cases, inl, inr, =?_refl, list_eq, nat_eq, ◌=?◌, List, [], ◌++◌,
}
use dbm.Edit.Live.{is_some}
use dbm.Grid.State.{selected_cell}
use dbm.Grid.Search.{KeyEvent}
use dbm.Grid.Effect
use dbm.Grid.Effect.{ListMessage, ResultsEffect}
use dbm.Grid.Paging.{has_dirty_session}
use dbm.Grid.Update
use dbm.Results.Editor.{Editor, try_insert_non_ascii_key, accepts_key_event}
use dbm.Results.Detail
use dbm.Results.Detail.{
  DetailState, DetailMessage, detail_draft_dirty, has_unsaved_draft, load_cell, clear_draft,
  unfocus, with_draft_of, sync_draft_from_editor, reset_for_close, focus_editor, after_key,
  take_key, apply_editor_key, apply_mouse_gesture, scroll_editor_or,
}
use dbm.Results.Message
use dbm.Results.Message.{
  ResultsMessage, is_move, is_enter_edit, is_exit_edit, is_rollback,
  detail_draft_blocks_list_action, list_edits_block_action, resets_detail_scroll,
}
use dbm.Results.State.{
  ResultsState, Outcome, load_selected, toggle_detail, open_detail, run_again, refresh_allowed,
  mark_refresh_started,
}
use dbm.Results.Arms.{
  key_to_detail, handle_toggle_detail, handle_focus_detail, handle_unfocus_detail,
  handle_discard_detail_cell, handle_edit_leave_attempt, handle_copy_detail_selection,
  handle_set_detail_draft, handle_save_detail_cell, settled, entered, handle_detail,
}
use dbm.Results.Update.{
  follow_session, resolve_warning, reset_scroll, follow_move, after_list, route_to_list,
  handle_list_message, handle_other, dispatch, gated, update, keeps_chord, handle_commit_outcome,
  handle_detail_editor_key, starts_session, then_route, handle_refresh,
}
use dbm.Results.Sound.Pane.{
  IsSound, loaded-AreInStep, cleared-AreInStep, unfocused-AreInStep, hosting, drafted-AreInStep,
  after_key-AreInStep, take_key-AreInStep, key-AreInStep, gesture-AreInStep, scroll-AreInStep,
  update-AreInStep, AreInStep,
}
use dbm.Results.Sound.Arms.{
  load_selected-IsSound, opened-IsSound, edit_leave_attempt-IsSound, set_detail_draft-IsSound,
  copy_detail_selection-IsSound, unfocus_detail-IsSound, focus_detail-IsSound,
  toggle_detail-IsSound, settled-AreInStep, save_detail_cell-IsSound, discard_detail_cell-IsSound,
  key_to_detail-IsSound,
}

module _ (ed : Editor) where
  follow_session-IsSound :
      (m : ListMessage) (s : ResultsState ed) → IsSound ed s → IsSound ed (follow_session ed m s)
  unfolding follow_session
  follow_session-IsSound m s h =
      if-cases (IsSound ed) (is_enter_edit m) (λ e. load_selected-IsSound ed s h)
        λ e.
          if-cases (IsSound ed) (is_exit_edit m)
            (λ out. cleared-AreInStep ed s.detail s.detail_open)
            λ stays.
              if-cases (IsSound ed) (is_rollback m)
                (λ back.
                  load_selected-IsSound ed (record s { detail = clear_draft ed s.detail })
                    (cleared-AreInStep ed s.detail s.detail_open))
                (λ none. h)

  resolve_warning-IsSound :
      (m : ListMessage) (s : ResultsState ed) → IsSound ed s → IsSound ed (resolve_warning ed m s)
  unfolding resolve_warning
  resolve_warning-IsSound m s h =
      if-cases (IsSound ed) (is_exit_edit m || is_rollback m || resets_detail_scroll m) (λ e. h)
        (λ e. h)

  reset_scroll-IsSound :
      (m : ListMessage) (s : ResultsState ed) → IsSound ed s → IsSound ed (reset_scroll ed m s)
  unfolding reset_scroll
  reset_scroll-IsSound m s h =
      if-cases (IsSound ed) (is_move m || resets_detail_scroll m)
        (λ e. record { honest = h.honest; hosted = h.hosted; shown = h.shown }) (λ e. h)

  follow_move-IsSound :
      (m : ListMessage) (s : ResultsState ed) → IsSound ed s → IsSound ed (follow_move ed m s)
  unfolding follow_move
  follow_move-IsSound m s h =
      if-cases (IsSound ed) (is_move m && (s.detail_open && not s.detail.focused))
        (λ e. load_selected-IsSound ed s h) (λ e. h)

  after_list-IsSound :
      (m : ListMessage) (s : ResultsState ed) → IsSound ed s → IsSound ed (after_list ed m s)
  unfolding after_list
  after_list-IsSound m s h =
      follow_move-IsSound m _
        (reset_scroll-IsSound m _ (resolve_warning-IsSound m _ (follow_session-IsSound m s h)))

  IsSoundIf : Option (Outcome ed) → Type 0
  IsSoundIf none = Unit
  IsSoundIf (some o) = IsSound ed o.0

  -- A second step on what the first one leaves.
  after-IsSoundIf :
      (o : Option (Outcome ed)) (f : Outcome ed → Option (Outcome ed))
      → IsSoundIf o
      → ((p : Outcome ed) → IsSound ed p.0 → IsSoundIf (f p))
      → IsSoundIf (elim o as (λ x. Option (Outcome ed)) [ none ↦ none | some p ↦ f p ])
  unfolding IsSoundIf
  after-IsSoundIf none f h k = tt
  after-IsSoundIf (some p) f h k = k p h

  module _ (lower : Text → Text) (width : Text → ℕ) (now wall : ℕ) where
    route-IsSoundIf :
        (m : ListMessage) (s : ResultsState ed)
        → IsSound ed s
        → IsSoundIf (route_to_list ed lower width now wall m s)
    unfolding route_to_list IsSoundIf
    route-IsSoundIf m s h = elim (Option-cases (Update.update lower width now wall m s.list)) [
      | inl e ↦ rw (e, route_to_list) tt
      | inr ((l, effects, dirty), e) ↦
          rw (e, route_to_list) (after_list-IsSound m (record s { list = l }) h)
    ]

    other-IsSoundIf :
        (m : ListMessage) (s : ResultsState ed)
        → IsSound ed s
        → IsSoundIf (handle_list_message ed lower width now wall m s)
    unfolding handle_list_message IsSoundIf
    other-IsSoundIf m s h =
        if-cases IsSoundIf (is_move m && (s.detail.focused && s.detail.dirty))
          (λ e. record { honest = h.honest; hosted = h.hosted; shown = h.shown })
          λ e. route-IsSoundIf m _ (
            if-cases (IsSound ed) (is_move m)
              (λ move.
                if-cases (IsSound ed) s.detail.focused
                  (λ on. unfocused-AreInStep ed s.detail s.detail_open h) (λ off. h))
              (λ stay. h))

    refresh-IsSoundIf :
        (s : ResultsState ed) → IsSound ed s → IsSoundIf (handle_refresh ed lower width now wall s)
    unfolding handle_refresh IsSoundIf
    refresh-IsSoundIf s h =
        if-cases IsSoundIf (not (refresh_allowed now s.list.refresh_cooldown_until)) (λ e. h)
          (λ e.
            route-IsSoundIf (run_again s.list) (record s { list = mark_refresh_started now s.list })
              h)

    editor_key-IsSoundIf :
        (key : KeyEvent) (s : ResultsState ed)
        → IsSound ed s
        → IsSoundIf (handle_detail_editor_key ed lower width now wall s key)
    unfolding handle_detail_editor_key IsSoundIf
    editor_key-IsSoundIf key s h =
        if-cases IsSoundIf (starts_session ed lower width now wall s key)
          (λ e.
            after-IsSoundIf (route_to_list ed lower width now wall Effect.enter_edit s)
              (λ o. some (entered ed key o)) (route-IsSoundIf Effect.enter_edit s h)
              (λ (t, effects, dirty) sound.
                if-cases (λ (p : Outcome ed). IsSound ed p.0) (not t.list.live.edit.editing)
                  (λ off. sound) (λ on. key_to_detail-IsSound ed key t effects sound)))
          (λ e. key_to_detail-IsSound ed key s [] h)

    commit_outcome-IsSoundIf :
        (s : ResultsState ed) (done : Bool)
        → IsSound ed s
        → IsSoundIf (handle_commit_outcome ed lower width now wall s done)
    unfolding handle_commit_outcome IsSoundIf
    commit_outcome-IsSoundIf s false h = h
    commit_outcome-IsSoundIf s true h =
        after-IsSoundIf (route_to_list ed lower width now wall Effect.exit_edit s)
          (then_route ed lower width now wall (λ t. run_again t.list))
          (route-IsSoundIf Effect.exit_edit s h)
          (λ (t, effects, dirty) sound.
            after-IsSoundIf (route_to_list ed lower width now wall (run_again t.list) t)
              (λ (u, more, redraw). some (u, effects ++ more, true))
              (route-IsSoundIf (run_again t.list) t sound) (λ p fine. fine))

    dispatch-IsSoundIf :
        (m : ResultsMessage ed) (s : ResultsState ed)
        → IsSound ed s
        → IsSoundIf (dispatch ed lower width now wall m s)
    unfolding IsSoundIf dispatch handle_other Message.into_list_message handle_detail
    dispatch-IsSoundIf (Message.set_result result paginated) s h =
        other-IsSoundIf (Effect.set_result result paginated) s h
    dispatch-IsSoundIf (Message.editability_ready target blocked) s h =
        other-IsSoundIf (Effect.editability_ready target blocked) s h
    dispatch-IsSoundIf Message.clear_result s h = other-IsSoundIf Effect.clear_result s h
    dispatch-IsSoundIf (Message.query_error message) s h =
        other-IsSoundIf (Effect.query_error message) s h
    dispatch-IsSoundIf (Message.move_selection dr dc) s h =
        other-IsSoundIf (Effect.move_selection dr dc) s h
    dispatch-IsSoundIf (Message.set_selection row col) s h =
        other-IsSoundIf (Effect.set_selection row col) s h
    dispatch-IsSoundIf Message.begin_search s h = other-IsSoundIf Effect.begin_search s h
    dispatch-IsSoundIf (Message.search_key key) s h = other-IsSoundIf (Effect.search_key key) s h
    dispatch-IsSoundIf (Message.search_navigate forward) s h =
        other-IsSoundIf (Effect.search_navigate forward) s h
    dispatch-IsSoundIf Message.copy_column_name s h = other-IsSoundIf Effect.copy_name s h
    dispatch-IsSoundIf Message.reset_selection s h = other-IsSoundIf Effect.reset_selection s h
    dispatch-IsSoundIf (Message.run_query context sql paginated page limit) s h =
        other-IsSoundIf (Effect.run context sql paginated page limit) s h
    dispatch-IsSoundIf Message.refresh s h = refresh-IsSoundIf s h
    dispatch-IsSoundIf Message.enter_edit s h = other-IsSoundIf Effect.enter_edit s h
    dispatch-IsSoundIf Message.exit_edit s h = other-IsSoundIf Effect.exit_edit s h
    dispatch-IsSoundIf Message.rollback s h = other-IsSoundIf Effect.rollback s h
    dispatch-IsSoundIf Message.add_row s h = other-IsSoundIf Effect.add_row s h
    dispatch-IsSoundIf Message.dup_row s h = other-IsSoundIf Effect.dup_row s h
    dispatch-IsSoundIf Message.del_row s h = other-IsSoundIf Effect.del_row s h
    dispatch-IsSoundIf Message.del_chord s h = other-IsSoundIf Effect.del_chord s h
    dispatch-IsSoundIf Message.del_chord_cancel s h = other-IsSoundIf Effect.del_chord_cancel s h
    dispatch-IsSoundIf Message.edit_leave_attempt s h = edit_leave_attempt-IsSound ed s h
    dispatch-IsSoundIf (Message.set_detail_draft text) s h = set_detail_draft-IsSound ed s text h
    dispatch-IsSoundIf Message.focus_detail s h = focus_detail-IsSound ed s h
    dispatch-IsSoundIf Message.unfocus_detail s h = unfocus_detail-IsSound ed s h
    dispatch-IsSoundIf Message.save_detail_cell s h = save_detail_cell-IsSound ed s h
    dispatch-IsSoundIf Message.discard_detail_cell s h = discard_detail_cell-IsSound ed s h
    dispatch-IsSoundIf (Message.detail_editor_key key) s h = editor_key-IsSoundIf key s h
    dispatch-IsSoundIf Message.copy_detail_selection s h = copy_detail_selection-IsSound ed s h
    dispatch-IsSoundIf (Message.set_row_limit limit) s h =
        other-IsSoundIf (Effect.set_row_limit limit) s h
    dispatch-IsSoundIf (Message.set_page page) s h = other-IsSoundIf (Effect.set_page page) s h
    dispatch-IsSoundIf (Message.page_nav action) s h = other-IsSoundIf (Effect.page_nav action) s h
    dispatch-IsSoundIf (Message.page_chord forward) s h = other-IsSoundIf (Effect.chord forward) s h
    dispatch-IsSoundIf Message.count_rows s h = other-IsSoundIf Effect.count s h
    dispatch-IsSoundIf (Message.count_ready sql total) s h =
        other-IsSoundIf (Effect.count_ready sql total) s h
    dispatch-IsSoundIf Message.commit s h = other-IsSoundIf Effect.commit_edits s h
    dispatch-IsSoundIf Message.toggle_detail s h = toggle_detail-IsSound ed s h
    dispatch-IsSoundIf (Message.sync_viewport rows w) s h =
        other-IsSoundIf (Effect.sync_viewport rows w) s h
    dispatch-IsSoundIf (Message.set_v_scroll position) s h =
        other-IsSoundIf (Effect.set_v_scroll position) s h
    dispatch-IsSoundIf (Message.set_h_scroll position) s h =
        other-IsSoundIf (Effect.set_h_scroll position) s h
    dispatch-IsSoundIf (Message.scroll_h_scroll delta) s h =
        other-IsSoundIf (Effect.scroll_h delta) s h
    dispatch-IsSoundIf (Message.adjust_col_width delta) s h =
        other-IsSoundIf (Effect.adjust_col_width delta) s h
    dispatch-IsSoundIf (Message.adjust_col_width_to col w) s h =
        other-IsSoundIf (Effect.adjust_col_width_to col w) s h
    dispatch-IsSoundIf (Message.list m) s h = route-IsSoundIf m s h
    dispatch-IsSoundIf (Message.detail m) s h = update-AreInStep ed m s.detail s.detail_open h
    dispatch-IsSoundIf (Message.commit_outcome done) s h = commit_outcome-IsSoundIf s done h

    gated-IsSoundIf :
        (m : ResultsMessage ed) (s : ResultsState ed)
        → IsSound ed s
        → IsSoundIf (gated ed lower width now wall m s)
    unfolding IsSoundIf gated
    gated-IsSoundIf m s h =
        if-cases IsSoundIf
          (s.detail.focused && (s.detail.dirty && detail_draft_blocks_list_action ed m))
          (λ e. record { honest = h.honest; hosted = h.hosted; shown = h.shown })
          λ e.
            if-cases IsSoundIf (has_dirty_session s.list && list_edits_block_action ed m)
              (λ blocked. h) (λ free. dispatch-IsSoundIf m s h)

    -- Every message keeps the detail pane in step: the draft is marked as unsaved exactly where it differs
    -- from the value that it began with, there is an editor exactly while the pane has the focus, and the
    -- focus is in an open pane.
    pub update-IsSound :
        (m : ResultsMessage ed) (s : ResultsState ed) (o : Outcome ed)
        → IsSound ed s
        → update ed lower width now wall m s ≡ some o
        → IsSound ed o.0
    unfolding update gated IsSoundIf
    update-IsSound m s o h e = subst IsSoundIf e (
        if-cases (λ (t : ResultsState ed). IsSoundIf (gated ed lower width now wall m t))
          (keeps_chord ed m) (λ armed. gated-IsSoundIf m s h)
          (λ broken.
            gated-IsSoundIf m (record s { list = record s.list { del_chord_at = none } }) h))
