-- ===== src/Grid/Disarm.antt =====
-- What the messages leave as it is: any message between two `d` disarms the chord, and only the
-- messages about editing change the session.
use dbm.Base.{
  ℕ, ◌≡◌, refl, ap, subst, ◌∙◌, Bool, true, Option, if-cases, false, none, some, Text, nat_eq,
  list_eq,
}
use dbm.Base.Int.{pos, negsuc}
use dbm.Edit.Live
use dbm.Edit.Live.{is_some}
use dbm.Grid.State.{ListState}
use dbm.Grid.View
use dbm.Grid.View.{auto_scroll_h}
use dbm.Grid.Effect
use dbm.Grid.Effect.{ListMessage}
use dbm.Grid.Paging
use dbm.Grid.Paging.{Outcome, has_dirty_session, go_to_page, go_to_last, apply_page_action}
use dbm.Grid.Handlers
use dbm.Grid.Update.{update, disarm, keeps_chord, handle}
use dbm.Grid.Still.{
  kept, handle_move_selection-IsAt, handle_set_selection-IsAt, handle_adjust_col_width-IsAt,
  handle_adjust_col_width_to-IsAt, IsAt, apply_page_action-IsAt, handle_count_ready-IsAt,
  handle_page_chord-IsAt, handle_set_page-IsAt, handle_set_row_limit-IsAt, handle_count_rows-IsAt,
  advance_search_match-IsAt, IsAtIf, drawn-IsAt, handle_search_key-IsAt, handle_copy_name-IsAt,
  handle_commit-IsAt,
}
use dbm.Grid.Chord.{lone_press}
use dbm.Grid.Handlers.{handle_del_chord, is_second_press}

-- The messages that are about the edit session.
unfoldable pub touches_edit : ListMessage → Bool
touches_edit Effect.enter_edit = true
touches_edit Effect.exit_edit = true
touches_edit Effect.rollback = true
touches_edit Effect.add_row = true
touches_edit Effect.dup_row = true
touches_edit Effect.del_row = true
touches_edit Effect.del_chord = true
touches_edit (Effect.editability_ready none blocked) = true
touches_edit _ = false

IsChordAtIf : Option ℕ → Option Outcome → Type 0
IsChordAtIf c none = Unit
IsChordAtIf c (some o) = o.0.del_chord_at ≡ c

-- The chord stays as it is, and so does the session where a message is not about it.
StaysBy : Bool → ListState → Option Outcome → Type 0
unfolding IsChordAtIf IsAtIf
StaysBy true s o = IsChordAtIf s.del_chord_at o
StaysBy false s o = IsAtIf (kept s) o

enter_edit-chord : (s : ListState) → (Handlers.handle_enter_edit s).0.del_chord_at ≡ s.del_chord_at
unfolding Handlers.handle_enter_edit
enter_edit-chord s =
    if-cases (λ (o : Outcome). o.0.del_chord_at ≡ s.del_chord_at) s.live.edit.editing (λ e. refl)
      λ e. refl

chord-stays :
    (b : Bool) (s : ListState) (o : Outcome)
    → StaysBy b s (some o)
    → o.0.del_chord_at ≡ s.del_chord_at
unfolding StaysBy IsChordAtIf IsAtIf IsAt
chord-stays true s o h = h
chord-stays false s o h = ap (λ k. k.0) h

module _ (lower : Text → Text) (width : Text → ℕ) (now wall : ℕ) where
  handle-StaysBy :
      (m : ListMessage) (s : ListState)
      → keeps_chord m ≡ false
      → StaysBy (touches_edit m) s (handle lower width now wall m s)
  unfolding handle IsAtIf IsAt keeps_chord StaysBy touches_edit
  handle-StaysBy (Effect.set_result result paginated) s other =
      unfold Paging.handle_set_result in unfold Paging.land_result in unfold View.set_result in refl
  handle-StaysBy (Effect.editability_ready none blocked) s other =
      unfold Handlers.handle_editability_ready in unfold Live.exit_edit in refl
  handle-StaysBy (Effect.editability_ready (some t) blocked) s other =
      unfold Handlers.handle_editability_ready in refl
  handle-StaysBy Effect.clear_result s other =
      unfold Handlers.handle_clear_result in unfold Handlers.without_result in refl
  handle-StaysBy (Effect.query_error message) s other =
      unfold Handlers.handle_query_error in unfold Handlers.without_result in refl
  handle-StaysBy (Effect.move_selection dr dc) s other = handle_move_selection-IsAt s dr dc
  handle-StaysBy (Effect.set_selection row col) s other = handle_set_selection-IsAt s row col
  handle-StaysBy Effect.begin_search s other =
      unfold Handlers.handle_begin_search in drawn-IsAt lower (Handlers.search_started s)
  handle-StaysBy (Effect.search_key key) s other = handle_search_key-IsAt lower s key
  handle-StaysBy (Effect.search_navigate forward) s other = advance_search_match-IsAt s forward
  handle-StaysBy Effect.copy_name s other = handle_copy_name-IsAt s
  handle-StaysBy Effect.reset_selection s other = unfold Handlers.handle_reset_selection in refl
  handle-StaysBy Effect.enter_edit s other = enter_edit-chord s
  handle-StaysBy Effect.exit_edit s other = refl
  handle-StaysBy Effect.rollback s other = refl
  handle-StaysBy Effect.add_row s other = refl
  handle-StaysBy Effect.dup_row s other = refl
  handle-StaysBy Effect.del_row s other = refl
  handle-StaysBy Effect.del_chord s other = cc
  handle-StaysBy Effect.del_chord_cancel s other = refl
  handle-StaysBy (Effect.set_row_limit limit) s other = handle_set_row_limit-IsAt s limit
  handle-StaysBy (Effect.set_page page) s other = handle_set_page-IsAt s page
  handle-StaysBy (Effect.page_nav action) s other =
      unfold Paging.handle_page_nav in
      apply_page_action-IsAt (record s { page_chord = none }) action
  handle-StaysBy (Effect.chord forward) s other = handle_page_chord-IsAt now s forward
  handle-StaysBy Effect.count s other = handle_count_rows-IsAt s
  handle-StaysBy (Effect.count_ready sql total) s other = handle_count_ready-IsAt s sql total
  handle-StaysBy (Effect.run context sql paginated page row_limit) s other =
      unfold Handlers.handle_run_query in refl
  handle-StaysBy Effect.commit_edits s other = handle_commit-IsAt s
  handle-StaysBy (Effect.sync_viewport rows w) s other = cc
  handle-StaysBy (Effect.set_v_scroll position) s other =
      unfold Handlers.handle_set_v_scroll in refl
  handle-StaysBy (Effect.set_h_scroll position) s other =
      unfold Handlers.handle_set_h_scroll in unfold Handlers.scroll_h_to in refl
  handle-StaysBy (Effect.scroll_h (pos n)) s other =
      unfold Handlers.handle_scroll_h in unfold Handlers.scroll_h_to in refl
  handle-StaysBy (Effect.scroll_h (negsuc n)) s other =
      unfold Handlers.handle_scroll_h in unfold Handlers.scroll_h_to in refl
  handle-StaysBy (Effect.adjust_col_width delta) s other = handle_adjust_col_width-IsAt s delta
  handle-StaysBy (Effect.adjust_col_width_to col w) s other =
      handle_adjust_col_width_to-IsAt s col w

-- After any message but a `d` and a synchronisation of the viewport, the next `d`, whenever it comes,
-- deletes nothing.
pub update-disarms :
    (lower : Text → Text) (width : Text → ℕ) (now wall later : ℕ) (m : ListMessage) (s : ListState)
    (o : Outcome)
    → keeps_chord m ≡ false
    → update lower width now wall m s ≡ some o
    → (handle_del_chord later o.0).0.live ≡ o.0.live
unfolding update disarm is_second_press
update-disarms lower width now wall later m s o other e =
    let opened : handle lower width now wall m (record s { del_chord_at = none })
        ≡ update lower width now wall m s =
      rw other refl in
    let silent : o.0.del_chord_at ≡ none =
      chord-stays (touches_edit m) (record s { del_chord_at = none }) o
        (subst (StaysBy (touches_edit m) (record s { del_chord_at = none })) (opened ∙ e)
          (handle-StaysBy lower width now wall m (record s { del_chord_at = none }) other)) in
    ap (λ (r : Outcome). r.0.live) (lone_press later o.0 (rw silent refl))

-- A message that is not about the edit session, and not a synchronisation of the viewport, leaves the
-- session as it is, with all its unsaved changes, whatever it does to the rows.
pub update-keeps_edits :
    (lower : Text → Text) (width : Text → ℕ) (now wall : ℕ) (m : ListMessage) (s : ListState)
    (o : Outcome)
    → keeps_chord m ≡ false
    → touches_edit m ≡ false
    → update lower width now wall m s ≡ some o
    → o.0.live.edit ≡ s.live.edit
unfolding update disarm StaysBy IsAtIf IsAt
update-keeps_edits lower width now wall m s o other elsewhere e =
    let opened : handle lower width now wall m (record s { del_chord_at = none })
        ≡ update lower width now wall m s =
      rw other refl in
    let still : StaysBy false (record s { del_chord_at = none })
        (handle lower width now wall m (record s { del_chord_at = none })) =
      subst
        (λ b.
          StaysBy b (record s { del_chord_at = none })
            (handle lower width now wall m (record s { del_chord_at = none })))
        elsewhere
        (handle-StaysBy lower width now wall m (record s { del_chord_at = none }) other) in
    let same : kept o.0 ≡ kept (record s { del_chord_at = none }) =
      subst (StaysBy false (record s { del_chord_at = none })) (opened ∙ e) still in
    ap (λ k. k.1) same
