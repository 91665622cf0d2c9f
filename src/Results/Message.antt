-- ===== src/Results/Message.antt =====
-- msg.rs: the messages of the results pane, and those that it passes to the list as they are.
use dbm.Base.{ℕ, Bool, true, false, Option, some, none, Text}
use dbm.Base.Int.{ℤ}
use dbm.Edit.Live.{QueryResultData}
use dbm.Edit.Sql.{EditTarget}
use dbm.Page.Scroll.{ResultsPageAction}
use dbm.Grid.Search.{KeyEvent}
use dbm.Grid.State.{Context}
use dbm.Grid.Effect
use dbm.Grid.Effect.{ListMessage}
use dbm.Results.Editor.{Editor}
use dbm.Results.Detail.{DetailMessage}

pub data ResultsMessage (ed : Editor) : Type 0 where
  set_result : QueryResultData → Bool → ResultsMessage ed
  editability_ready : Option EditTarget → Option Text → ResultsMessage ed
  clear_result : ResultsMessage ed
  query_error : Text → ResultsMessage ed
  move_selection : ℤ → ℤ → ResultsMessage ed
  set_selection : ℕ → ℕ → ResultsMessage ed
  begin_search : ResultsMessage ed
  search_key : KeyEvent → ResultsMessage ed
  search_navigate : Bool → ResultsMessage ed
  copy_column_name reset_selection : ResultsMessage ed
  run_query : Context → Text → Bool → ℕ → ℕ → ResultsMessage ed
  refresh : ResultsMessage ed
  enter_edit exit_edit rollback add_row dup_row del_row del_chord : ResultsMessage ed
  del_chord_cancel edit_leave_attempt : ResultsMessage ed
  set_detail_draft : Text → ResultsMessage ed
  focus_detail unfocus_detail save_detail_cell discard_detail_cell : ResultsMessage ed
  detail_editor_key : KeyEvent → ResultsMessage ed
  copy_detail_selection : ResultsMessage ed
  set_row_limit set_page : ℕ → ResultsMessage ed
  page_nav : ResultsPageAction → ResultsMessage ed
  page_chord : Bool → ResultsMessage ed
  count_rows : ResultsMessage ed
  count_ready : Text → Option ℕ → ResultsMessage ed
  commit : ResultsMessage ed
  commit_outcome : Bool → ResultsMessage ed
  toggle_detail : ResultsMessage ed
  sync_viewport : ℕ → ℕ → ResultsMessage ed
  set_v_scroll set_h_scroll : ℕ → ResultsMessage ed
  scroll_h_scroll adjust_col_width : ℤ → ResultsMessage ed
  adjust_col_width_to : ℕ → ℕ → ResultsMessage ed
  list : ListMessage → ResultsMessage ed
  detail : DetailMessage ed → ResultsMessage ed

module _ (ed : Editor) where
  -- `none` is a panic.
  unfoldable pub into_list_message : ResultsMessage ed → Option ListMessage
  into_list_message (set_result result paginated) = some (Effect.set_result result paginated)
  into_list_message (editability_ready target blocked) =
      some (Effect.editability_ready target blocked)
  into_list_message clear_result = some Effect.clear_result
  into_list_message (query_error message) = some (Effect.query_error message)
  into_list_message (move_selection dr dc) = some (Effect.move_selection dr dc)
  into_list_message (set_selection row col) = some (Effect.set_selection row col)
  into_list_message begin_search = some Effect.begin_search
  into_list_message (search_key key) = some (Effect.search_key key)
  into_list_message (search_navigate forward) = some (Effect.search_navigate forward)
  into_list_message copy_column_name = some Effect.copy_name
  into_list_message reset_selection = some Effect.reset_selection
  into_list_message (run_query context sql paginated page row_limit) =
      some (Effect.run context sql paginated page row_limit)
  into_list_message refresh = none
  into_list_message enter_edit = some Effect.enter_edit
  into_list_message exit_edit = some Effect.exit_edit
  into_list_message rollback = some Effect.rollback
  into_list_message add_row = some Effect.add_row
  into_list_message dup_row = some Effect.dup_row
  into_list_message del_row = some Effect.del_row
  into_list_message del_chord = some Effect.del_chord
  into_list_message del_chord_cancel = some Effect.del_chord_cancel
  into_list_message (set_row_limit limit) = some (Effect.set_row_limit limit)
  into_list_message (set_page page) = some (Effect.set_page page)
  into_list_message (page_nav action) = some (Effect.page_nav action)
  into_list_message (page_chord forward) = some (Effect.chord forward)
  into_list_message count_rows = some Effect.count
  into_list_message (count_ready sql total) = some (Effect.count_ready sql total)
  into_list_message commit = some Effect.commit_edits
  into_list_message (sync_viewport rows width) = some (Effect.sync_viewport rows width)
  into_list_message (set_v_scroll position) = some (Effect.set_v_scroll position)
  into_list_message (set_h_scroll position) = some (Effect.set_h_scroll position)
  into_list_message (scroll_h_scroll delta) = some (Effect.scroll_h delta)
  into_list_message (adjust_col_width delta) = some (Effect.adjust_col_width delta)
  into_list_message (adjust_col_width_to col width) = some (Effect.adjust_col_width_to col width)
  into_list_message (list m) = none
  into_list_message (detail m) = none
  into_list_message _ = some Effect.reset_selection

  -- What a focused, unsaved draft of the detail pane refuses.
  unfoldable pub detail_draft_blocks_list_action : ResultsMessage ed → Bool
  detail_draft_blocks_list_action enter_edit = true
  detail_draft_blocks_list_action exit_edit = true
  detail_draft_blocks_list_action rollback = true
  detail_draft_blocks_list_action add_row = true
  detail_draft_blocks_list_action dup_row = true
  detail_draft_blocks_list_action del_row = true
  detail_draft_blocks_list_action del_chord = true
  detail_draft_blocks_list_action commit = true
  detail_draft_blocks_list_action refresh = true
  detail_draft_blocks_list_action (run_query context sql paginated page row_limit) = true
  detail_draft_blocks_list_action (set_result result paginated) = true
  detail_draft_blocks_list_action clear_result = true
  detail_draft_blocks_list_action reset_selection = true
  detail_draft_blocks_list_action (page_nav action) = true
  detail_draft_blocks_list_action (page_chord forward) = true
  detail_draft_blocks_list_action (set_row_limit limit) = true
  detail_draft_blocks_list_action _ = false

  -- What an edit session with unsaved changes refuses.
  unfoldable pub list_edits_block_action : ResultsMessage ed → Bool
  list_edits_block_action exit_edit = true
  list_edits_block_action refresh = true
  list_edits_block_action (run_query context sql paginated page row_limit) = true
  list_edits_block_action (set_result result paginated) = true
  list_edits_block_action clear_result = true
  list_edits_block_action (page_nav action) = true
  list_edits_block_action (page_chord forward) = true
  list_edits_block_action (set_row_limit limit) = true
  list_edits_block_action _ = false

-- What `route_to_list` asks of a message: a selection move, an end of the session, a message that
-- replaces the result or asks for another.
unfoldable pub is_move : ListMessage → Bool
is_move (Effect.move_selection dr dc) = true
is_move (Effect.set_selection row col) = true
is_move _ = false

unfoldable pub is_exit_edit : ListMessage → Bool
is_exit_edit Effect.exit_edit = true
is_exit_edit _ = false

unfoldable pub is_rollback : ListMessage → Bool
is_rollback Effect.rollback = true
is_rollback _ = false

unfoldable pub is_enter_edit : ListMessage → Bool
is_enter_edit Effect.enter_edit = true
is_enter_edit _ = false

unfoldable pub resets_detail_scroll : ListMessage → Bool
resets_detail_scroll (Effect.set_result result paginated) = true
resets_detail_scroll Effect.clear_result = true
resets_detail_scroll (Effect.query_error message) = true
resets_detail_scroll Effect.reset_selection = true
resets_detail_scroll (Effect.run context sql paginated page row_limit) = true
resets_detail_scroll _ = false
