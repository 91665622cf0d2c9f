-- ===== src/Results/State.antt =====
-- state.rs: the state of the results pane, the opening and closing of its detail, and what its
-- footer shows.
use dbm.Base.{
  ℕ, ◌+◌, Bool, true, false, not, ◌&&◌, Option, none, some, List, leb, nat_eq, list_eq,
  if◌then◌else◌,
}
use dbm.Edit.Session.{is_dirty}
use dbm.Grid.State.{ListState, selected_cell}
use dbm.Grid.Effect
use dbm.Grid.Effect.{ListMessage, ResultsEffect}
use dbm.Grid.Paging.{has_dirty_session}
use dbm.Results.Editor.{Editor}
use dbm.Results.Detail.{DetailState, load_cell, clear_draft, reset_for_close}

-- The list/detail splitter, which no message of the pane changes, is left out.
pub record ResultsState (ed : Editor) : Type 0 where
  pub list : ListState
  pub detail : DetailState ed
  pub detail_open : Bool

-- `refresh_allowed` and `mark_refresh_started`, at the time `now`, in nanoseconds.
unfoldable pub refresh_allowed : ℕ → Option ℕ → Bool
refresh_allowed now none = true
refresh_allowed now (some until) = leb until now

unfoldable pub mark_refresh_started : ℕ → ListState → ListState
mark_refresh_started now s = record s { refresh_cooldown_until = some (now + 1_000_000_000) }

-- The last query once more.
unfoldable pub run_again : ListState → ListMessage
run_again s = Effect.run s.context s.last_sql s.paginated s.page s.row_limit

module _ (ed : Editor) where
  abbrev pub Outcome : Type 0
  Outcome = ResultsState ed × List ResultsEffect × Bool

  unfoldable pub open_detail : ResultsState ed → ResultsState ed
  unfolding reset_for_close
  open_detail s = record s { detail_open = true; detail = reset_for_close ed s.detail }

  unfoldable close_detail : ResultsState ed → ResultsState ed
  unfolding reset_for_close
  close_detail s = record s { detail_open = false; detail = reset_for_close ed s.detail }

  unfoldable pub toggle_detail : ResultsState ed → ResultsState ed
  unfolding open_detail close_detail
  toggle_detail s = if s.detail_open then close_detail s else open_detail s

  unfoldable list_leave_blocked : ResultsState ed → Bool
  unfolding is_dirty
  list_leave_blocked s = s.list.leave_warning && has_dirty_session s.list

  unfoldable show_next_modified_hint : ResultsState ed → Bool
  unfolding is_dirty
  show_next_modified_hint s = has_dirty_session s.list && not s.detail.focused

  -- `LoadCell` with the selected cell's value, where there is one.
  unfoldable pub load_selected : ResultsState ed → ResultsState ed
  unfolding load_cell
  load_selected s = elim (selected_cell s.list) [
    | none ↦ s
    | some value ↦ record s { detail = load_cell ed s.detail value }
  ]

  abbrev pub cleared : ResultsState ed → ResultsState ed
  cleared s = record s { detail = clear_draft ed s.detail }
