-- ===== src/Results/Gates.antt =====
-- Unsaved changes under the messages of the results pane: the gates of update.rs.
use dbm.Base.{
  ℕ, ◌≡◌, refl, ap, subst, ◌∙◌, Bool, true, false, ◌&&◌, Option, none, some, Text, arith, if-cases,
  Option-cases, inl, inr,
}
use dbm.Edit.Live
use dbm.Edit.Session.{ResultsEditState}
use dbm.Grid.State.{ListState}
use dbm.Grid.View
use dbm.Grid.Effect
use dbm.Grid.Effect.{ListMessage}
use dbm.Grid.Handlers
use dbm.Grid.Paging.{has_dirty_session}
use dbm.Grid.Search.{KeyEvent}
use dbm.Grid.Update
use dbm.Grid.Disarm.{touches_edit, update-keeps_edits}
use dbm.Results.Editor.{Editor}
use dbm.Results.Message
use dbm.Results.Message.{
  ResultsMessage, is_move, is_enter_edit, is_exit_edit, is_rollback,
  detail_draft_blocks_list_action, list_edits_block_action,
}
use dbm.Results.State.{ResultsState, Outcome, load_selected}
use dbm.Results.Arms.{
  key_to_detail, handle_toggle_detail, handle_focus_detail, handle_unfocus_detail,
  handle_discard_detail_cell, handle_edit_leave_attempt, handle_copy_detail_selection,
}
use dbm.Results.Update.{
  follow_session, resolve_warning, reset_scroll, follow_move, after_list, route_to_list,
  handle_list_message, handle_other, dispatch, gated, update, keeps_chord, handle_commit_outcome,
  handle_detail_editor_key,
}

-- The messages that may change the session: those that edit it, save a draft, end it on a commit or
-- because the result turned out not to be editable, and those that are routed to the list as they are.
unfoldable pub writes_session : {ed : Editor} → ResultsMessage ed → Bool
writes_session Message.rollback = true
writes_session Message.add_row = true
writes_session Message.dup_row = true
writes_session Message.del_row = true
writes_session Message.del_chord = true
writes_session (Message.commit_outcome done) = done
writes_session (Message.set_detail_draft text) = true
writes_session Message.save_detail_cell = true
writes_session (Message.editability_ready none blocked) = true
writes_session (Message.list m) = true
writes_session _ = false

entered-edit :
    (l : ListState)
    → l.live.edit.editing ≡ true
    → (Handlers.handle_enter_edit l).0.live.edit ≡ l.live.edit
unfolding Handlers.handle_enter_edit
entered-edit l on = ground arith

module _ (ed : Editor) where
  -- Unless the code panics, the session is `e` afterwards.
  HasSession : ResultsEditState → Option (Outcome ed) → Type 0
  HasSession e none = Unit
  HasSession e (some o) = o.0.list.live.edit ≡ e

  load_selected-list : (s : ResultsState ed) → (load_selected ed s).list ≡ s.list
  unfolding load_selected
  load_selected-list s = ground arith

  after_list-live :
      (m : ListMessage) (s : ResultsState ed) → (after_list ed m s).list.live ≡ s.list.live
  unfolding after_list follow_session resolve_warning reset_scroll follow_move load_selected
  after_list-live m s = ground arith

  module _ (lower : Text → Text) (width : Text → ℕ) (now wall : ℕ) where
    route-HasSession :
        (m : ListMessage) (s : ResultsState ed)
        → Update.keeps_chord m ≡ false
        → touches_edit m ≡ false
        → HasSession s.list.live.edit (route_to_list ed lower width now wall m s)
    unfolding HasSession route_to_list
    route-HasSession m s other elsewhere =
        elim (Option-cases (Update.update lower width now wall m s.list)) [
          | inl e ↦ rw (e, route_to_list) tt
          | inr ((l, effects, dirty), e) ↦
              rw (e, route_to_list)
                (ap (λ (v : Live.ListState). v.edit) (after_list-live m (record s { list = l }))
                  ∙ update-keeps_edits lower width now wall m s.list (l, effects, dirty) other
                      elsewhere e)
        ]

    other-HasSession :
        (m : ListMessage) (s : ResultsState ed)
        → Update.keeps_chord m ≡ false
        → touches_edit m ≡ false
        → HasSession s.list.live.edit (handle_list_message ed lower width now wall m s)
    unfolding handle_list_message HasSession
    other-HasSession m s other elsewhere =
        if-cases (HasSession s.list.live.edit) (is_move m && (s.detail.focused && s.detail.dirty))
          (λ e. refl)
          λ e.
            if-cases
              (λ (t : ResultsState ed).
                HasSession s.list.live.edit (route_to_list ed lower width now wall m t))
              (is_move m)
              (λ move.
                if-cases
                  (λ (t : ResultsState ed).
                    HasSession s.list.live.edit (route_to_list ed lower width now wall m t))
                  s.detail.focused (λ focus. route-HasSession m _ other elsewhere)
                  (λ focus. route-HasSession m s other elsewhere))
              (λ move. route-HasSession m s other elsewhere)

    -- The synchronisation of the viewport, and entering a session that is on.
    viewport-HasSession :
        (rows w : ℕ) (s : ResultsState ed)
        → HasSession s.list.live.edit
            (handle_list_message ed lower width now wall (Effect.sync_viewport rows w) s)
    unfolding HasSession handle_list_message route_to_list Update.update Update.handle Update.disarm
        is_move View.set_viewport after_list follow_session resolve_warning reset_scroll follow_move
        is_enter_edit
    viewport-HasSession rows w s = ground arith

    entering-HasSession :
        (s : ResultsState ed)
        → s.list.live.edit.editing ≡ true
        → HasSession s.list.live.edit
            (handle_list_message ed lower width now wall Effect.enter_edit s)
    unfolding HasSession handle_list_message route_to_list Update.update Update.handle Update.disarm
        is_move
    entering-HasSession s on =
        ap (λ (v : Live.ListState). v.edit)
          (after_list-live Effect.enter_edit (record s {
            list = (Handlers.handle_enter_edit (record s.list { del_chord_at = none })).0;
          }))
        ∙ entered-edit (record s.list { del_chord_at = none }) on

    key-HasSession :
        (key : KeyEvent) (s : ResultsState ed)
        → s.list.live.edit.editing ≡ true
        → HasSession s.list.live.edit (handle_detail_editor_key ed lower width now wall s key)
    unfolding HasSession handle_detail_editor_key key_to_detail
    key-HasSession key s on = elim (Option-cases s.detail.editor) [
      | inl e ↦ ground arith
      | inr (host, e) ↦ ground arith
    ]

    dispatch-HasSession :
        (m : ResultsMessage ed) (s : ResultsState ed)
        → s.list.live.edit.editing ≡ true
        → list_edits_block_action ed m ≡ false
        → writes_session m ≡ false
        → HasSession s.list.live.edit (dispatch ed lower width now wall m s)
    unfolding HasSession dispatch handle_other writes_session list_edits_block_action
        Message.into_list_message touches_edit Update.keeps_chord
    dispatch-HasSession (Message.set_result result paginated) s on open_gate keeps = cc
    dispatch-HasSession (Message.editability_ready none blocked) s on open_gate keeps = cc
    dispatch-HasSession (Message.editability_ready (some t) blocked) s on open_gate keeps =
        other-HasSession (Effect.editability_ready (some t) blocked) s refl refl
    dispatch-HasSession Message.clear_result s on open_gate keeps = cc
    dispatch-HasSession (Message.query_error message) s on open_gate keeps =
        other-HasSession (Effect.query_error message) s refl refl
    dispatch-HasSession (Message.move_selection dr dc) s on open_gate keeps =
        other-HasSession (Effect.move_selection dr dc) s refl refl
    dispatch-HasSession (Message.set_selection row col) s on open_gate keeps =
        other-HasSession (Effect.set_selection row col) s refl refl
    dispatch-HasSession Message.begin_search s on open_gate keeps =
        other-HasSession Effect.begin_search s refl refl
    dispatch-HasSession (Message.search_key key) s on open_gate keeps =
        other-HasSession (Effect.search_key key) s refl refl
    dispatch-HasSession (Message.search_navigate forward) s on open_gate keeps =
        other-HasSession (Effect.search_navigate forward) s refl refl
    dispatch-HasSession Message.copy_column_name s on open_gate keeps =
        other-HasSession Effect.copy_name s refl refl
    dispatch-HasSession Message.reset_selection s on open_gate keeps =
        other-HasSession Effect.reset_selection s refl refl
    dispatch-HasSession (Message.run_query context sql paginated page limit) s on open_gate keeps =
        cc
    dispatch-HasSession Message.refresh s on open_gate keeps = cc
    dispatch-HasSession Message.enter_edit s on open_gate keeps = entering-HasSession s on
    dispatch-HasSession Message.exit_edit s on open_gate keeps = cc
    dispatch-HasSession Message.rollback s on open_gate keeps = cc
    dispatch-HasSession Message.add_row s on open_gate keeps = cc
    dispatch-HasSession Message.dup_row s on open_gate keeps = cc
    dispatch-HasSession Message.del_row s on open_gate keeps = cc
    dispatch-HasSession Message.del_chord s on open_gate keeps = cc
    dispatch-HasSession Message.del_chord_cancel s on open_gate keeps =
        other-HasSession Effect.del_chord_cancel s refl refl
    dispatch-HasSession Message.edit_leave_attempt s on open_gate keeps =
        unfold handle_edit_leave_attempt in ground arith
    dispatch-HasSession (Message.set_detail_draft text) s on open_gate keeps = cc
    dispatch-HasSession Message.focus_detail s on open_gate keeps =
        unfold handle_focus_detail in ground arith
    dispatch-HasSession Message.unfocus_detail s on open_gate keeps =
        unfold handle_unfocus_detail in ground arith
    dispatch-HasSession Message.save_detail_cell s on open_gate keeps = cc
    dispatch-HasSession Message.discard_detail_cell s on open_gate keeps =
        unfold handle_discard_detail_cell in ground arith
    dispatch-HasSession (Message.detail_editor_key key) s on open_gate keeps =
        key-HasSession key s on
    dispatch-HasSession Message.copy_detail_selection s on open_gate keeps =
        unfold handle_copy_detail_selection in ground arith
    dispatch-HasSession (Message.set_row_limit limit) s on open_gate keeps = cc
    dispatch-HasSession (Message.set_page page) s on open_gate keeps =
        other-HasSession (Effect.set_page page) s refl refl
    dispatch-HasSession (Message.page_nav action) s on open_gate keeps = cc
    dispatch-HasSession (Message.page_chord forward) s on open_gate keeps = cc
    dispatch-HasSession Message.count_rows s on open_gate keeps =
        other-HasSession Effect.count s refl refl
    dispatch-HasSession (Message.count_ready sql total) s on open_gate keeps =
        other-HasSession (Effect.count_ready sql total) s refl refl
    dispatch-HasSession Message.commit s on open_gate keeps =
        other-HasSession Effect.commit_edits s refl refl
    dispatch-HasSession (Message.commit_outcome true) s on open_gate keeps = cc
    dispatch-HasSession (Message.commit_outcome false) s on open_gate keeps =
        unfold handle_commit_outcome in refl
    dispatch-HasSession Message.toggle_detail s on open_gate keeps =
        unfold handle_toggle_detail in ground arith
    dispatch-HasSession (Message.sync_viewport rows w) s on open_gate keeps =
        viewport-HasSession rows w s
    dispatch-HasSession (Message.set_v_scroll position) s on open_gate keeps =
        other-HasSession (Effect.set_v_scroll position) s refl refl
    dispatch-HasSession (Message.set_h_scroll position) s on open_gate keeps =
        other-HasSession (Effect.set_h_scroll position) s refl refl
    dispatch-HasSession (Message.scroll_h_scroll delta) s on open_gate keeps =
        other-HasSession (Effect.scroll_h delta) s refl refl
    dispatch-HasSession (Message.adjust_col_width delta) s on open_gate keeps =
        other-HasSession (Effect.adjust_col_width delta) s refl refl
    dispatch-HasSession (Message.adjust_col_width_to col w) s on open_gate keeps =
        other-HasSession (Effect.adjust_col_width_to col w) s refl refl
    dispatch-HasSession (Message.list m) s on open_gate keeps = cc
    dispatch-HasSession (Message.detail m) s on open_gate keeps = refl

    gated-HasSession :
        (m : ResultsMessage ed) (s : ResultsState ed)
        → has_dirty_session s.list ≡ true
        → writes_session m ≡ false
        → HasSession s.list.live.edit (gated ed lower width now wall m s)
    unfolding HasSession gated
    gated-HasSession m s dirty keeps =
        if-cases (HasSession s.list.live.edit)
          (s.detail.focused && (s.detail.dirty && detail_draft_blocks_list_action ed m)) (λ e. refl)
          λ e.
            if-cases (HasSession s.list.live.edit)
              (has_dirty_session s.list && list_edits_block_action ed m) (λ blocked. refl)
              (λ free. dispatch-HasSession m s (ground arith) (ground arith) keeps)

    -- While the edit session has unsaved changes, no message changes the session but those that edit
    -- it, save a draft, roll back, report a successful commit, say that the result cannot be edited, or
    -- are routed to the list directly: whatever else happens to the pane, and through whatever channel,
    -- the changes stay.
    pub update-keeps_session :
        (m : ResultsMessage ed) (s : ResultsState ed) (o : Outcome ed)
        → has_dirty_session s.list ≡ true
        → writes_session m ≡ false
        → update ed lower width now wall m s ≡ some o
        → o.0.list.live.edit ≡ s.list.live.edit
    unfolding update HasSession
    update-keeps_session m s o dirty keeps e = subst (HasSession s.list.live.edit) e (
        if-cases
          (λ (t : ResultsState ed). HasSession s.list.live.edit (gated ed lower width now wall m t))
          (keeps_chord ed m) (λ armed. gated-HasSession m s dirty keeps)
          (λ broken.
            gated-HasSession m (record s { list = record s.list { del_chord_at = none } }) dirty
              keeps))
