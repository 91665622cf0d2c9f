-- ===== src/Grid/Kept.antt =====
-- Every message keeps the list's invariant.
use dbm.Base.{ℕ, false, Text, arith, get_or, if-cases}
use dbm.Base.Int.{pos, negsuc, shift}
use dbm.Edit.Session.{ResultsEditState}
use dbm.Edit.Session
use dbm.Edit.Live
use dbm.Edit.Live.{is_some}
use dbm.Edit.Valid.{default-IsValid}
use dbm.Edit.Coherence
use dbm.Edit.Coherence.{press-IsValid, rollback, add_row, dup_row, del_row}
use dbm.Grid.Layout.{
  wrap_i16, clamp_signed_width, clamp_col_width, clamp_col_width_bounds, clamp_signed_width_bounds,
}
use dbm.Grid.State.{ListState}
use dbm.Grid.View
use dbm.Grid.View.{auto_scroll_h}
use dbm.Grid.Effect
use dbm.Grid.Effect.{ListMessage}
use dbm.Grid.Handlers
use dbm.Grid.Update.{update, disarm, keeps_chord, handle}
use dbm.Grid.Handlers.{set_width, handle_editability_ready}
use dbm.Grid.Invariant.{
  IsSane, IsSaneAfter, Admits, no_wait, handle_page_chord-IsSane, handle_page_nav-IsSane,
  handle_set_row_limit-IsSane, handle_set_page-IsSane, handle_set_result-IsSane,
  handle_count_ready-IsSane, handle_count_rows-IsSane,
}
use dbm.Grid.Sane.{
  with_edit, with_widths, at_match, IsSaneIf, drawn-IsSane, advance_search_match-IsSane,
  set_width-IsSane, move_selection-IsSane, scrolled-IsSane, handle_editability_ready-IsSane,
  enter_edit-IsValid, press-IsSane, handle_search_key-IsSane, handle_copy_name-IsSane,
  handle_commit-IsSane,
}

-- A message does not ask for page 0.
abbrev IsAdmissible : ListMessage → Type 0
IsAdmissible (Effect.page_nav action) = Admits action
IsAdmissible _ = Unit

disarm-IsSane : (m : ListMessage) (s : ListState) → IsSane s → IsSane (disarm m s)
unfolding disarm
disarm-IsSane m s h = if-cases IsSane (keeps_chord m) (λ e. h) λ e. h

module _ (lower : Text → Text) (width : Text → ℕ) (now wall : ℕ) where
  handle-IsSane :
      (m : ListMessage) (s : ListState)
      → IsAdmissible m
      → IsSane s
      → IsSaneIf (handle lower width now wall m s)
  unfolding handle Coherence.press
  handle-IsSane (Effect.set_result result paginated) s fit h =
      handle_set_result-IsSane width wall s result paginated h
  handle-IsSane (Effect.editability_ready target blocked) s fit h =
      handle_editability_ready-IsSane s target blocked h
  handle-IsSane Effect.clear_result s fit h =
      unfold Handlers.handle_clear_result in with_widths tt (at_match (omega arith) (no_wait h))
  handle-IsSane (Effect.query_error message) s fit h =
      unfold Handlers.handle_query_error in with_widths tt (at_match (omega arith) (no_wait h))
  handle-IsSane (Effect.move_selection dr dc) s fit h =
      unfold Handlers.handle_move_selection in
      scrolled-IsSane _ _ (move_selection-IsSane (record s { scroll_locked = false }) dr dc h)
  handle-IsSane (Effect.set_selection row col) s fit h =
      unfold Handlers.handle_set_selection in scrolled-IsSane _ _ h
  handle-IsSane Effect.begin_search s fit h =
      unfold Handlers.handle_begin_search in
      drawn-IsSane lower (Handlers.search_started s) (at_match (omega arith) h)
  handle-IsSane (Effect.search_key key) s fit h = handle_search_key-IsSane lower s key h
  handle-IsSane (Effect.search_navigate forward) s fit h = advance_search_match-IsSane s forward h
  handle-IsSane Effect.copy_name s fit h = handle_copy_name-IsSane s h
  handle-IsSane Effect.reset_selection s fit h = unfold Handlers.handle_reset_selection in h
  handle-IsSane Effect.enter_edit s fit h =
      unfold Handlers.handle_enter_edit in
      if-cases IsSaneAfter s.live.edit.editing (λ e. h)
        λ e. with_edit (enter_edit-IsValid s.live h.session) h
  handle-IsSane Effect.exit_edit s fit h =
      unfold Live.exit_edit in
      unfold Session.exit_edit in unfold Session.clear in with_edit default-IsValid h
  handle-IsSane Effect.rollback s fit h = press-IsSane s rollback h
  handle-IsSane Effect.add_row s fit h = press-IsSane s add_row h
  handle-IsSane Effect.dup_row s fit h = press-IsSane s dup_row h
  handle-IsSane Effect.del_row s fit h = press-IsSane s del_row h
  handle-IsSane Effect.del_chord s fit h =
      unfold Handlers.handle_del_chord in
      if-cases IsSaneAfter (Handlers.is_second_press s.del_chord_at now)
        (λ e. press-IsSane s del_row h) λ e. h
  handle-IsSane Effect.del_chord_cancel s fit h = h
  handle-IsSane (Effect.set_row_limit limit) s fit h = handle_set_row_limit-IsSane s limit h
  handle-IsSane (Effect.set_page page) s fit h = handle_set_page-IsSane s page h
  handle-IsSane (Effect.page_nav action) s fit h = handle_page_nav-IsSane s action fit h
  handle-IsSane (Effect.chord forward) s fit h = handle_page_chord-IsSane now s forward h
  handle-IsSane Effect.count s fit h = handle_count_rows-IsSane s h
  handle-IsSane (Effect.count_ready sql total) s fit h = handle_count_ready-IsSane s sql total h
  handle-IsSane (Effect.run context sql paginated page row_limit) s fit h =
      unfold Handlers.handle_run_query in no_wait h
  handle-IsSane Effect.commit_edits s fit h = handle_commit-IsSane s h
  handle-IsSane (Effect.sync_viewport rows w) s fit h = unfold View.set_viewport in h
  handle-IsSane (Effect.set_v_scroll position) s fit h = unfold Handlers.handle_set_v_scroll in h
  handle-IsSane (Effect.set_h_scroll position) s fit h =
      unfold Handlers.handle_set_h_scroll in unfold Handlers.scroll_h_to in h
  handle-IsSane (Effect.scroll_h (pos n)) s fit h =
      unfold Handlers.handle_scroll_h in unfold Handlers.scroll_h_to in h
  handle-IsSane (Effect.scroll_h (negsuc n)) s fit h =
      unfold Handlers.handle_scroll_h in unfold Handlers.scroll_h_to in h
  handle-IsSane (Effect.adjust_col_width delta) s fit h =
      unfold Handlers.handle_adjust_col_width in
      let shifted = wrap_i16 (shift (get_or s.col_widths s.live.col 0) delta) in
      set_width-IsSane s s.live.col (clamp_signed_width shifted) (clamp_signed_width_bounds shifted)
        h
  handle-IsSane (Effect.adjust_col_width_to col w) s fit h =
      unfold Handlers.handle_adjust_col_width_to in
      set_width-IsSane s col (clamp_col_width w) (clamp_col_width_bounds w) h

-- Every message keeps the invariant.
pub update-IsSane :
    (lower : Text → Text) (width : Text → ℕ) (now wall : ℕ) (m : ListMessage) (s : ListState)
    → IsAdmissible m
    → IsSane s
    → IsSaneIf (update lower width now wall m s)
unfolding update
update-IsSane lower width now wall m s fit h =
    handle-IsSane lower width now wall m (disarm m s) fit (disarm-IsSane m s h)
