-- ===== src/Grid/Still.antt =====
-- The handlers that leave an armed `dd` and the edit session as they are.
use dbm.Base.{
  ℕ, ◌-◌, min, ◌≡◌, refl, ◌∙◌, Bool, true, false, not, ◌&&◌, ◌||◌, Option, none, some, List, Text,
  arith, ◌==◌, ◌=?◌, nat_eq, list_eq, if◌then◌else◌, if-cases, Option-cases, inl, inr,
}
use dbm.Base.Int.{ℤ}
use dbm.Edit.Live
use dbm.Edit.Session.{ResultsEditState}
use dbm.Edit.Live.{is_some}
use dbm.Edit.Sql.{ok, err}
use dbm.Page.Scroll.{ResultsPageAction, first, prev, next, last}
use dbm.Page.Scroll
use dbm.Grid.Search
use dbm.Grid.Search.{KeyEvent, PaneSearchInput}
use dbm.Grid.State.{ListState, ResultsSearchMatch, row_count, column_count, is_zero, move_selection}
use dbm.Grid.Find.{
  apply_current_match, with_matches, refresh_search_matches, advance_search_match, matches_of,
}
use dbm.Grid.View.{auto_scroll_h}
use dbm.Grid.Paging
use dbm.Grid.Paging.{Outcome, has_dirty_session, go_to_page, go_to_last, apply_page_action}
use dbm.Grid.Handlers

-- What the handlers leave as it is: the armed `dd`, and the edit session.
abbrev pub kept : ListState → Option ℕ × ResultsEditState
kept s = (s.del_chord_at, s.live.edit)

-- After an outcome it is `c` still.
unfoldable pub IsAt : Option ℕ × ResultsEditState → Outcome → Type 0
IsAt c o = kept o.0 ≡ c

go_to_page-IsAt : (s : ListState) (n : ℕ) (b : Bool) → IsAt (kept s) (go_to_page s n b)
unfolding IsAt go_to_page
go_to_page-IsAt s n b = ground arith

go_to_last-IsAt : (s : ListState) → IsAt (kept s) (go_to_last s)
unfolding go_to_last IsAt go_to_page
go_to_last-IsAt s = ground arith

pub apply_page_action-IsAt :
    (s : ListState) (a : ResultsPageAction) → IsAt (kept s) (apply_page_action s a)
unfolding apply_page_action IsAt go_to_page
apply_page_action-IsAt s first = ground arith
apply_page_action-IsAt s prev = ground arith
apply_page_action-IsAt s next = ground arith
apply_page_action-IsAt s last = ground (arith, go_to_last-IsAt s)
apply_page_action-IsAt s (Scroll.set n) = ground arith

resume-IsAt : (s : ListState) → IsAt (kept s) (Paging.resume s)
unfolding Paging.resume IsAt
resume-IsAt s = elim (Option-cases s.pending_page_after_count) [
  | inl e ↦ ground arith
  | inr (a, e) ↦
      ground (arith, apply_page_action-IsAt (record s { pending_page_after_count = none }) a)
]

mark_last_page-IsAt : (s : ListState) → kept (Paging.mark_last_page s) ≡ kept s
unfolding Paging.mark_last_page
mark_last_page-IsAt s = ground arith

take_total-IsAt : (s : ListState) (t : Option ℕ) → kept (Paging.take_total s t) ≡ kept s
unfolding Paging.take_total
take_total-IsAt s none = refl
take_total-IsAt s (some n) = refl

pub handle_count_ready-IsAt :
    (s : ListState) (sql : Text) (t : Option ℕ) → IsAt (kept s) (Paging.handle_count_ready s sql t)
unfolding Paging.handle_count_ready Paging.after_count IsAt
handle_count_ready-IsAt s sql t =
    if-cases (λ (o : Outcome). kept o.0 ≡ kept s) (not (s.last_sql =? sql)) (λ e. refl)
      λ e.
        mark_last_page-IsAt (Paging.resume (Paging.take_total s t)).0
        ∙ (resume-IsAt (Paging.take_total s t) ∙ take_total-IsAt s t)

pub handle_page_chord-IsAt :
    (now : ℕ) (s : ListState) (f : Bool) → IsAt (kept s) (Paging.handle_page_chord now s f)
unfolding Paging.handle_page_chord Paging.follow_chord IsAt
handle_page_chord-IsAt now s f = followed (Scroll.resolve_page_chord s.page_chord now f)
  where
    followed :
        (r : Option (Bool × ℕ) × Option ResultsPageAction) → IsAt (kept s) (Paging.follow_chord s r)
    followed (pending, some a) = apply_page_action-IsAt (record s { page_chord = pending }) a
    followed (pending, none) = refl

pub handle_set_page-IsAt : (s : ListState) (n : ℕ) → IsAt (kept s) (Paging.handle_set_page s n)
unfolding Paging.handle_set_page IsAt
handle_set_page-IsAt s n = ground arith

pub handle_set_row_limit-IsAt :
    (s : ListState) (n : ℕ) → IsAt (kept s) (Paging.handle_set_row_limit s n)
unfolding Paging.handle_set_row_limit IsAt
handle_set_row_limit-IsAt s n = ground arith

pub handle_count_rows-IsAt : (s : ListState) → IsAt (kept s) (Paging.handle_count_rows s)
unfolding Paging.handle_count_rows IsAt
handle_count_rows-IsAt s = ground arith

auto_scroll_h-IsAt : (s : ListState) → kept (auto_scroll_h s) ≡ kept s
unfolding auto_scroll_h
auto_scroll_h-IsAt s = ground arith

apply_current_match-IsAt : (s : ListState) → kept (apply_current_match s) ≡ kept s
unfolding apply_current_match
apply_current_match-IsAt s = ground arith

pub advance_search_match-IsAt :
    (s : ListState) (f : Bool) → kept (advance_search_match s f) ≡ kept s
unfolding advance_search_match apply_current_match
advance_search_match-IsAt s f = ground arith

with_matches-IsAt :
    (s : ListState) (found : List ResultsSearchMatch) → kept (with_matches s found) ≡ kept s
unfolding with_matches apply_current_match
with_matches-IsAt s found = ground arith

-- A handler that does not panic leaves the chord as it is.
unfoldable pub IsAtIf : Option ℕ × ResultsEditState → Option Outcome → Type 0
unfolding IsAt
IsAtIf c none = Unit
IsAtIf c (some o) = IsAt c o

pub drawn-IsAt :
    (lower : Text → Text) (s : ListState)
    → IsAtIf (kept s) (Handlers.drawn (refresh_search_matches lower s) true)
unfolding IsAtIf IsAt refresh_search_matches
drawn-IsAt lower s = elim (Option-cases (matches_of lower s)) [
  | inl panics ↦ rw (panics, refresh_search_matches, IsAtIf) tt
  | inr (found, e) ↦ rw (e, refresh_search_matches, IsAtIf) (with_matches-IsAt s found)
]

after_search_key-IsAt :
    (lower : Text → Text) (s : ListState) (a : PaneSearchInput)
    → IsAtIf (kept s) (Handlers.after_search_key lower s a)
unfolding IsAtIf IsAt Handlers.after_search_key
after_search_key-IsAt lower s (Search.navigate f) = advance_search_match-IsAt s f
after_search_key-IsAt lower s Search.query_changed = drawn-IsAt lower s
after_search_key-IsAt lower s Search.options_changed = drawn-IsAt lower s
after_search_key-IsAt lower s Search.ignored = refl
after_search_key-IsAt lower s Search.cancelled = refl
after_search_key-IsAt lower s Search.applied = refl

by_key_code-IsAt :
    (code : Search.KeyCode) (s : ListState) (typed : Option Outcome)
    → IsAtIf (kept s) typed
    → IsAtIf (kept s) (Handlers.by_key_code code s typed)
unfolding Handlers.by_key_code IsAtIf IsAt
by_key_code-IsAt Search.esc s typed k = refl
by_key_code-IsAt Search.enter s typed k = refl
by_key_code-IsAt Search.backspace s typed k = k
by_key_code-IsAt (Search.char c) s typed k = k
by_key_code-IsAt _ s typed k = k

pub handle_search_key-IsAt :
    (lower : Text → Text) (s : ListState) (key : KeyEvent)
    → IsAtIf (kept s) (Handlers.handle_search_key lower s key)
unfolding Handlers.handle_search_key
handle_search_key-IsAt lower s key = by_key_code-IsAt key.code s _ (
    after_search_key-IsAt lower (record s { search = (Search.handle_key s.search key).0 })
      (Search.handle_key s.search key).1)

scrolled-IsAt : (b : Bool) (s : ListState) → kept (if b then auto_scroll_h s else s) ≡ kept s
scrolled-IsAt true s = auto_scroll_h-IsAt s
scrolled-IsAt false s = refl

move_selection-IsAt : (s : ListState) (dr dc : ℤ) → kept (move_selection s dr dc).0 ≡ kept s
unfolding move_selection
move_selection-IsAt s dr dc =
    if-cases (λ (m : ListState × Bool). kept m.0 ≡ kept s) (row_count s == 0) (λ e. refl) λ e. refl

pub handle_copy_name-IsAt : (s : ListState) → IsAt (kept s) (Handlers.handle_copy_name s)
unfolding Handlers.handle_copy_name IsAt
handle_copy_name-IsAt s = ground arith

pub handle_commit-IsAt : (s : ListState) → IsAt (kept s) (Handlers.handle_commit s)
unfolding Handlers.handle_commit IsAt
handle_commit-IsAt s = elim (Option-cases (Live.build_commit_statements s.live)) [
  | inl refused ↦ rw (refused, Handlers.handle_commit) refl
  | inr (err e, failed) ↦ rw (failed, Handlers.handle_commit) refl
  | inr (ok statements, built) ↦ rw (built, Handlers.handle_commit) refl
]

set_width-IsAt : (s : ListState) (col w : ℕ) → IsAt (kept s) (Handlers.set_width s col w)
unfolding Handlers.set_width IsAt
set_width-IsAt s col w = ground arith

-- Edit mode is not entered again.
handle_enter_edit-IsAt :
    (s : ListState) → s.live.edit.editing ≡ true → IsAt (kept s) (Handlers.handle_enter_edit s)
unfolding Handlers.handle_enter_edit IsAt
handle_enter_edit-IsAt s on = rw on refl

pub handle_move_selection-IsAt :
    (s : ListState) (dr dc : ℤ) → IsAt (kept s) (Handlers.handle_move_selection s dr dc)
unfolding Handlers.handle_move_selection IsAt
handle_move_selection-IsAt s dr dc =
    let free = record s { scroll_locked = false } in
    scrolled-IsAt ((move_selection free dr dc).1 && not (is_zero dc)) (move_selection free dr dc).0
    ∙ move_selection-IsAt free dr dc

pub handle_set_selection-IsAt :
    (s : ListState) (row col : ℕ) → IsAt (kept s) (Handlers.handle_set_selection s row col)
unfolding Handlers.handle_set_selection IsAt
handle_set_selection-IsAt s row col =
    let to_row = min row (row_count s - 1) in
    let to_col = min col (column_count s - 1) in
    scrolled-IsAt (not (s.live.row == to_row) || not (s.live.col == to_col))
      (record s { selected = true; live = record s.live { row = to_row; col = to_col } })

pub handle_adjust_col_width-IsAt :
    (s : ListState) (delta : ℤ) → IsAt (kept s) (Handlers.handle_adjust_col_width s delta)
unfolding Handlers.handle_adjust_col_width
handle_adjust_col_width-IsAt s delta = set_width-IsAt s s.live.col _

pub handle_adjust_col_width_to-IsAt :
    (s : ListState) (col w : ℕ) → IsAt (kept s) (Handlers.handle_adjust_col_width_to s col w)
unfolding Handlers.handle_adjust_col_width_to
handle_adjust_col_width_to-IsAt s col w = set_width-IsAt s col _
