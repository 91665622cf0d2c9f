-- ===== src/Results/Draft.antt =====
-- The draft of the detail pane under the messages of the results pane.
use dbm.Base.{
  ℕ, ◌≡◌, refl, subst, Bool, true, false, ◌&&◌, ◌||◌, Option, none, some, Text, arith, if-cases,
  Option-cases, inl, inr, list_eq, nat_eq,
}
use dbm.Grid.Effect
use dbm.Grid.Effect.{ListMessage}
use dbm.Grid.Paging.{has_dirty_session}
use dbm.Grid.Update
use dbm.Results.Editor.{Editor}
use dbm.Results.Detail.{DetailState, has_unsaved_draft}
use dbm.Results.Message
use dbm.Results.Message.{
  ResultsMessage, is_move, is_enter_edit, is_exit_edit, is_rollback,
  detail_draft_blocks_list_action, list_edits_block_action, resets_detail_scroll,
}
use dbm.Results.State.{ResultsState, Outcome}
use dbm.Results.Arms.{
  handle_toggle_detail, handle_focus_detail, handle_unfocus_detail, handle_edit_leave_attempt,
  handle_copy_detail_selection,
}
use dbm.Results.Update.{
  follow_session, resolve_warning, reset_scroll, follow_move, after_list, route_to_list,
  handle_list_message, handle_other, dispatch, gated, update, keeps_chord, handle_commit_outcome,
}

-- The messages that may change the draft: those that type into it, save or discard it, end the session
-- after a commit, and those that are routed to the list or to the detail pane directly.
unfoldable pub writes_draft : {ed : Editor} → ResultsMessage ed → Bool
writes_draft (Message.set_detail_draft text) = true
writes_draft Message.save_detail_cell = true
writes_draft Message.discard_detail_cell = true
writes_draft (Message.detail_editor_key key) = true
writes_draft (Message.commit_outcome done) = done
writes_draft (Message.list m) = true
writes_draft (Message.detail m) = true
writes_draft _ = false

-- The messages to the list after which the detail pane loads or clears its draft.
reloads : ListMessage → Bool
unfolding is_enter_edit is_exit_edit is_rollback
reloads m = is_enter_edit m || (is_exit_edit m || is_rollback m)

module _ (ed : Editor) where
  -- All of the draft but the scroll offset of its preview and the warning.
  abbrev Held : Type 0
  Held = Text × Text × Bool × Bool × Option ed.State

  abbrev pub held : DetailState ed → Held
  held d = (d.baseline, d.draft, d.dirty, d.focused, d.editor)

  HasDraft : Held → Option (Outcome ed) → Type 0
  HasDraft h none = Unit
  HasDraft h (some o) = held o.0.detail ≡ h

  after_list-held :
      (m : ListMessage) (s : ResultsState ed)
      → reloads m ≡ false
      → s.detail.focused ≡ true
      → held (after_list ed m s).detail ≡ held s.detail
  unfolding reloads after_list follow_session resolve_warning reset_scroll follow_move
  after_list-held m s still focus = ground arith

  module _ (lower : Text → Text) (width : Text → ℕ) (now wall : ℕ) where
    route-HasDraft :
        (m : ListMessage) (s : ResultsState ed)
        → reloads m ≡ false
        → s.detail.focused ≡ true
        → HasDraft (held s.detail) (route_to_list ed lower width now wall m s)
    unfolding HasDraft route_to_list
    route-HasDraft m s still focus =
        elim (Option-cases (Update.update lower width now wall m s.list)) [
          | inl e ↦ rw (e, route_to_list) tt
          | inr ((l, effects, dirty), e) ↦
              rw (e, route_to_list) (after_list-held m (record s { list = l }) still focus)
        ]

    other-HasDraft :
        (m : ListMessage) (s : ResultsState ed)
        → reloads m ≡ false
        → s.detail.focused ≡ true
        → s.detail.dirty ≡ true
        → HasDraft (held s.detail) (handle_list_message ed lower width now wall m s)
    unfolding handle_list_message HasDraft
    other-HasDraft m s still focus dirty =
        if-cases (HasDraft (held s.detail)) (is_move m && (s.detail.focused && s.detail.dirty))
          (λ e. refl)
          λ e.
            if-cases
              (λ (t : ResultsState ed).
                HasDraft (held s.detail) (route_to_list ed lower width now wall m t))
              (is_move m) (λ move. absurd (ground arith)) (λ stay. route-HasDraft m s still focus)

    dispatch-HasDraft :
        (m : ResultsMessage ed) (s : ResultsState ed)
        → s.detail.focused ≡ true
        → s.detail.dirty ≡ true
        → s.detail_open ≡ true
        → detail_draft_blocks_list_action ed m ≡ false
        → writes_draft m ≡ false
        → HasDraft (held s.detail) (dispatch ed lower width now wall m s)
    unfolding HasDraft dispatch handle_other writes_draft detail_draft_blocks_list_action
        Message.into_list_message reloads
    dispatch-HasDraft (Message.set_result result paginated) s focus dirty shown open_gate keeps = cc
    dispatch-HasDraft (Message.editability_ready target blocked) s focus dirty shown open_gate
          keeps =
        other-HasDraft (Effect.editability_ready target blocked) s refl focus dirty
    dispatch-HasDraft Message.clear_result s focus dirty shown open_gate keeps = cc
    dispatch-HasDraft (Message.query_error message) s focus dirty shown open_gate keeps =
        other-HasDraft (Effect.query_error message) s refl focus dirty
    dispatch-HasDraft (Message.move_selection dr dc) s focus dirty shown open_gate keeps =
        other-HasDraft (Effect.move_selection dr dc) s refl focus dirty
    dispatch-HasDraft (Message.set_selection row col) s focus dirty shown open_gate keeps =
        other-HasDraft (Effect.set_selection row col) s refl focus dirty
    dispatch-HasDraft Message.begin_search s focus dirty shown open_gate keeps =
        other-HasDraft Effect.begin_search s refl focus dirty
    dispatch-HasDraft (Message.search_key key) s focus dirty shown open_gate keeps =
        other-HasDraft (Effect.search_key key) s refl focus dirty
    dispatch-HasDraft (Message.search_navigate forward) s focus dirty shown open_gate keeps =
        other-HasDraft (Effect.search_navigate forward) s refl focus dirty
    dispatch-HasDraft Message.copy_column_name s focus dirty shown open_gate keeps =
        other-HasDraft Effect.copy_name s refl focus dirty
    dispatch-HasDraft Message.reset_selection s focus dirty shown open_gate keeps = cc
    dispatch-HasDraft (Message.run_query context sql paginated page limit) s focus dirty shown
          open_gate keeps =
        cc
    dispatch-HasDraft Message.refresh s focus dirty shown open_gate keeps = cc
    dispatch-HasDraft Message.enter_edit s focus dirty shown open_gate keeps = cc
    dispatch-HasDraft Message.exit_edit s focus dirty shown open_gate keeps = cc
    dispatch-HasDraft Message.rollback s focus dirty shown open_gate keeps = cc
    dispatch-HasDraft Message.add_row s focus dirty shown open_gate keeps = cc
    dispatch-HasDraft Message.dup_row s focus dirty shown open_gate keeps = cc
    dispatch-HasDraft Message.del_row s focus dirty shown open_gate keeps = cc
    dispatch-HasDraft Message.del_chord s focus dirty shown open_gate keeps = cc
    dispatch-HasDraft Message.del_chord_cancel s focus dirty shown open_gate keeps =
        other-HasDraft Effect.del_chord_cancel s refl focus dirty
    dispatch-HasDraft Message.edit_leave_attempt s focus dirty shown open_gate keeps =
        unfold handle_edit_leave_attempt in ground arith
    dispatch-HasDraft (Message.set_detail_draft text) s focus dirty shown open_gate keeps = cc
    dispatch-HasDraft Message.focus_detail s focus dirty shown open_gate keeps =
        unfold handle_focus_detail in ground arith
    dispatch-HasDraft Message.unfocus_detail s focus dirty shown open_gate keeps =
        unfold handle_unfocus_detail in ground arith
    dispatch-HasDraft Message.save_detail_cell s focus dirty shown open_gate keeps = cc
    dispatch-HasDraft Message.discard_detail_cell s focus dirty shown open_gate keeps = cc
    dispatch-HasDraft (Message.detail_editor_key key) s focus dirty shown open_gate keeps = cc
    dispatch-HasDraft Message.copy_detail_selection s focus dirty shown open_gate keeps =
        unfold handle_copy_detail_selection in ground arith
    dispatch-HasDraft (Message.set_row_limit limit) s focus dirty shown open_gate keeps = cc
    dispatch-HasDraft (Message.set_page page) s focus dirty shown open_gate keeps =
        other-HasDraft (Effect.set_page page) s refl focus dirty
    dispatch-HasDraft (Message.page_nav action) s focus dirty shown open_gate keeps = cc
    dispatch-HasDraft (Message.page_chord forward) s focus dirty shown open_gate keeps = cc
    dispatch-HasDraft Message.count_rows s focus dirty shown open_gate keeps =
        other-HasDraft Effect.count s refl focus dirty
    dispatch-HasDraft (Message.count_ready sql total) s focus dirty shown open_gate keeps =
        other-HasDraft (Effect.count_ready sql total) s refl focus dirty
    dispatch-HasDraft Message.commit s focus dirty shown open_gate keeps = cc
    dispatch-HasDraft (Message.commit_outcome true) s focus dirty shown open_gate keeps = cc
    dispatch-HasDraft (Message.commit_outcome false) s focus dirty shown open_gate keeps =
        unfold handle_commit_outcome in refl
    dispatch-HasDraft Message.toggle_detail s focus dirty shown open_gate keeps =
        unfold handle_toggle_detail in ground arith
    dispatch-HasDraft (Message.sync_viewport rows w) s focus dirty shown open_gate keeps =
        other-HasDraft (Effect.sync_viewport rows w) s refl focus dirty
    dispatch-HasDraft (Message.set_v_scroll position) s focus dirty shown open_gate keeps =
        other-HasDraft (Effect.set_v_scroll position) s refl focus dirty
    dispatch-HasDraft (Message.set_h_scroll position) s focus dirty shown open_gate keeps =
        other-HasDraft (Effect.set_h_scroll position) s refl focus dirty
    dispatch-HasDraft (Message.scroll_h_scroll delta) s focus dirty shown open_gate keeps =
        other-HasDraft (Effect.scroll_h delta) s refl focus dirty
    dispatch-HasDraft (Message.adjust_col_width delta) s focus dirty shown open_gate keeps =
        other-HasDraft (Effect.adjust_col_width delta) s refl focus dirty
    dispatch-HasDraft (Message.adjust_col_width_to col w) s focus dirty shown open_gate keeps =
        other-HasDraft (Effect.adjust_col_width_to col w) s refl focus dirty
    dispatch-HasDraft (Message.list m) s focus dirty shown open_gate keeps = cc
    dispatch-HasDraft (Message.detail m) s focus dirty shown open_gate keeps = cc

    gated-HasDraft :
        (m : ResultsMessage ed) (s : ResultsState ed)
        → s.detail.focused ≡ true
        → s.detail.dirty ≡ true
        → s.detail_open ≡ true
        → writes_draft m ≡ false
        → HasDraft (held s.detail) (gated ed lower width now wall m s)
    unfolding HasDraft gated
    gated-HasDraft m s focus dirty shown keeps =
        if-cases (HasDraft (held s.detail))
          (s.detail.focused && (s.detail.dirty && detail_draft_blocks_list_action ed m)) (λ e. refl)
          λ e.
            if-cases (HasDraft (held s.detail))
              (has_dirty_session s.list && list_edits_block_action ed m) (λ blocked. refl)
              (λ free. dispatch-HasDraft m s focus dirty shown (ground arith) keeps)

    -- While the open detail pane has the focus and its draft is not saved, no message changes the draft
    -- but those that type into it, save or discard it, report a successful commit, or are routed to the
    -- list or the detail pane directly: text, baseline, editor and focus stay.
    pub update-keeps_draft :
        (m : ResultsMessage ed) (s : ResultsState ed) (o : Outcome ed)
        → s.detail_open ≡ true
        → has_unsaved_draft ed s.detail ≡ true
        → writes_draft m ≡ false
        → update ed lower width now wall m s ≡ some o
        → held o.0.detail ≡ held s.detail
    unfolding update HasDraft has_unsaved_draft
    update-keeps_draft m s o shown unsaved keeps e = subst (HasDraft (held s.detail)) e (
        if-cases
          (λ (t : ResultsState ed). HasDraft (held s.detail) (gated ed lower width now wall m t))
          (keeps_chord ed m) (λ armed. gated-HasDraft m s (ground arith) (ground arith) shown keeps)
          (λ broken.
            gated-HasDraft m (record s { list = record s.list { del_chord_at = none } })
              (ground arith) (ground arith) shown keeps))
