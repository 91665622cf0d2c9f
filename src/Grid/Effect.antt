-- ===== src/Grid/Effect.antt =====
-- The messages of the list, list/msg.rs, and the effects that it asks for, results/effect.rs.
use dbm.Base.{ℕ, Bool, Option, List, Text}
use dbm.Base.Int.{ℤ}
use dbm.Edit.Live.{QueryResultData}
use dbm.Edit.Sql.{EditTarget}
use dbm.Page.Scroll.{ResultsPageAction}
use dbm.Grid.Search.{KeyEvent}
use dbm.Grid.State.{Context}

-- The effects of the list, each with the context of the last query: a statement, whether it is
-- paginated, the page and the row limit; the statements of a commit; a statement and the names of its
-- columns; a statement to count; a text for the clipboard, a column's name or what is selected in the
-- detail editor.
pub data ResultsEffect : Type 0 where
  run_query : Context → Text → Bool → ℕ → ℕ → ResultsEffect
  commit : Context → List Text → ResultsEffect
  check_editability : Context → Text → List Text → ResultsEffect
  count_rows : Context → Text → ResultsEffect
  copy_column_name : Text → ResultsEffect
  copy_selection : Text → ResultsEffect

pub data ListMessage : Type 0 where
  set_result : QueryResultData → Bool → ListMessage
  editability_ready : Option EditTarget → Option Text → ListMessage
  clear_result : ListMessage
  query_error : Text → ListMessage
  move_selection : ℤ → ℤ → ListMessage
  set_selection : ℕ → ℕ → ListMessage
  begin_search : ListMessage
  search_key : KeyEvent → ListMessage
  search_navigate : Bool → ListMessage
  copy_name : ListMessage
  reset_selection : ListMessage
  enter_edit exit_edit rollback add_row dup_row del_row del_chord del_chord_cancel : ListMessage
  set_row_limit set_page : ℕ → ListMessage
  page_nav : ResultsPageAction → ListMessage
  chord : Bool → ListMessage
  count : ListMessage
  count_ready : Text → Option ℕ → ListMessage
  run : Context → Text → Bool → ℕ → ℕ → ListMessage
  commit_edits : ListMessage
  sync_viewport : ℕ → ℕ → ListMessage
  set_v_scroll set_h_scroll : ℕ → ListMessage
  scroll_h : ℤ → ListMessage
  adjust_col_width : ℤ → ListMessage
  adjust_col_width_to : ℕ → ℕ → ListMessage
