-- ===== src/Grid/Sane.antt =====
-- The handlers that neither turn pages nor take a result in keep the invariant.
use dbm.Base.{
  ℕ, zero, suc, ◌+◌, ◌-◌, ◌%◌, ◌≤◌, ◌<◌, inl, inr, Bool, true, not, Option, none, some, List, [],
  ◌∷◌, Text, arith, length, set, get_elem?, leb, ◌==◌, if◌then◌else◌, if-cases, Option-cases,
}
use dbm.Base.Int.{ℤ}
use native.Mathlib.Nat.{mod-lt}
use dbm.Edit.Session.{ResultsEditState}
use dbm.Edit.Session
use dbm.Edit.Sql.{EditTarget, is_empty, ok, err}
use dbm.Edit.Live
use dbm.Edit.Live.{is_some}
use dbm.Edit.Valid.{IsValid, default-IsValid, step, step-IsValid, enters}
use dbm.Edit.Coherence
use dbm.Edit.Coherence.{press-IsValid, rollback, add_row, dup_row, del_row}
use dbm.Page.Scroll.{ResultsPageAction}
use dbm.Grid.Search.{KeyEvent, PaneSearchInput, PaneSearch}
use dbm.Grid.Search
use dbm.Grid.Layout.{AllWidths}
use dbm.Grid.State.{ListState, ResultsSearchMatch, row_count, move_selection}
use dbm.Grid.Find.{
  apply_current_match, with_matches, refresh_search_matches, advance_search_match, matches_of,
}
use dbm.Grid.View.{auto_scroll_h}
use dbm.Grid.Paging.{Outcome}
use dbm.Grid.Handlers
use dbm.Grid.Handlers.{set_width, handle_editability_ready}
use dbm.Grid.Invariant.{AreSane, IsSane, IsSaneAfter}

AllWidths-set :
    (widths : List ℕ) (i w : ℕ) → (4 ≤ w) × (w ≤ 80) → AllWidths widths → AllWidths (set widths i w)
AllWidths-set [] i w b h = h
AllWidths-set (x ∷ widths) zero w b h = (b.0, b.1, h.2)
AllWidths-set (x ∷ widths) (suc i) w b h = (h.0, h.1, AllWidths-set widths i w b h.2)

-- Other parts of the state change.
pub with_edit :
    {page row_limit index : ℕ} {pending : Option ResultsPageAction} {counting : Bool}
    {matches : List ResultsSearchMatch} {widths : List ℕ} {edit session : ResultsEditState}
    → IsValid session
    → AreSane page row_limit pending counting matches index widths edit
    → AreSane page row_limit pending counting matches index widths session
with_edit v h = record {
  page_pos = h.page_pos;
  limit_pos = h.limit_pos;
  waits = h.waits;
  match_at = h.match_at;
  in_range = h.in_range;
  session = v;
}

pub with_widths :
    {page row_limit index : ℕ} {pending : Option ResultsPageAction} {counting : Bool}
    {matches : List ResultsSearchMatch} {widths others : List ℕ} {edit : ResultsEditState}
    → AllWidths others
    → AreSane page row_limit pending counting matches index widths edit
    → AreSane page row_limit pending counting matches index others edit
with_widths w h = record {
  page_pos = h.page_pos;
  limit_pos = h.limit_pos;
  waits = h.waits;
  match_at = h.match_at;
  in_range = w;
  session = h.session;
}

pub at_match :
    {page row_limit index i : ℕ} {pending : Option ResultsPageAction} {counting : Bool}
    {matches found : List ResultsSearchMatch} {widths : List ℕ} {edit : ResultsEditState}
    → i ≤ length found - 1
    → AreSane page row_limit pending counting matches index widths edit
    → AreSane page row_limit pending counting found i widths edit
at_match m h = record {
  page_pos = h.page_pos;
  limit_pos = h.limit_pos;
  waits = h.waits;
  match_at = m;
  in_range = h.in_range;
  session = h.session;
}

apply_current_match-IsSane : (s : ListState) → IsSane s → IsSane (apply_current_match s)
unfolding apply_current_match
apply_current_match-IsSane s h =
    elim (Option-cases (get_elem? s.search_matches s.search_match_index)) [
      | inl gone ↦ rw (gone, apply_current_match) h
      | inr (m, found) ↦ rw (found, apply_current_match) h
    ]

with_matches-IsSane :
    (s : ListState) (matches : List ResultsSearchMatch) → IsSane s → IsSane (with_matches s matches)
unfolding with_matches
with_matches-IsSane s matches h =
    if-cases IsSane (length matches == 0) (λ e. at_match (omega arith) h)
      λ e.
        apply_current_match-IsSane
          (record s {
            search_matches = matches;
            search_match_index =
                if leb (length matches) s.search_match_index then 0 else s.search_match_index;
          })
          (at_match (ground arith) h)

-- A search that does not panic keeps it.
abbrev pub IsSaneIf : Option Outcome → Type 0
IsSaneIf none = Unit
IsSaneIf (some o) = IsSane o.0

pub drawn-IsSane :
    (lower : Text → Text) (s : ListState)
    → IsSane s
    → IsSaneIf (Handlers.drawn (refresh_search_matches lower s) true)
unfolding refresh_search_matches
drawn-IsSane lower s h = elim (Option-cases (matches_of lower s)) [
  | inl panics ↦ rw (panics, refresh_search_matches) tt
  | inr (matches, found) ↦ rw (found, refresh_search_matches) (with_matches-IsSane s matches h)
]

pub advance_search_match-IsSane :
    (s : ListState) (forward : Bool) → IsSane s → IsSane (advance_search_match s forward)
unfolding advance_search_match
advance_search_match-IsSane s forward h =
    if-cases IsSane (length s.search_matches == 0) (λ e. h)
      λ e.
        let some_match : 0 < length s.search_matches = ground arith in
        let up = mod-lt (s.search_match_index + 1) some_match in
        let down = mod-lt (s.search_match_index + length s.search_matches - 1) some_match in
        apply_current_match-IsSane
          (record s {
            search_match_index =
                if forward
                then (s.search_match_index + 1) % length s.search_matches
                else (s.search_match_index + length s.search_matches - 1) % length s.search_matches;
          })
          (at_match
            (if-cases (λ i. i ≤ length s.search_matches - 1) forward (λ f. omega arith)
              λ b. omega arith)
            h)

after_search_key-IsSane :
    (lower : Text → Text) (s : ListState) (action : PaneSearchInput)
    → IsSane s
    → IsSaneIf (Handlers.after_search_key lower s action)
unfolding Handlers.after_search_key
after_search_key-IsSane lower s (Search.navigate forward) h =
    advance_search_match-IsSane s forward h
after_search_key-IsSane lower s Search.query_changed h = drawn-IsSane lower s h
after_search_key-IsSane lower s Search.options_changed h = drawn-IsSane lower s h
after_search_key-IsSane lower s Search.ignored h = h
after_search_key-IsSane lower s Search.cancelled h = h
after_search_key-IsSane lower s Search.applied h = h

auto_scroll_h-IsSane : (s : ListState) → IsSane s → IsSane (auto_scroll_h s)
unfolding auto_scroll_h
auto_scroll_h-IsSane s h =
    if-cases IsSane (is_empty s.col_widths) (λ e. h)
      λ e. if-cases IsSane (s.viewport_width == 0) (λ z. h) λ z. h

pub set_width-IsSane :
    (s : ListState) (col w : ℕ) → (4 ≤ w) × (w ≤ 80) → IsSane s → IsSane (set_width s col w).0
unfolding set_width
set_width-IsSane s col w b h = elim (Option-cases (get_elem? s.col_widths col)) [
  | inl gone ↦ rw (gone, set_width) h
  | inr (old, found) ↦
      rw (found, set_width) (with_widths (AllWidths-set s.col_widths col w b h.in_range) h)
]

pub move_selection-IsSane :
    (s : ListState) (dr dc : ℤ) → IsSane s → IsSane (move_selection s dr dc).0
unfolding move_selection
move_selection-IsSane s dr dc h =
    if-cases (λ (m : ListState × Bool). IsSane m.0) (row_count s == 0) (λ e. h) λ e. h

pub scrolled-IsSane :
    (changed : Bool) (s : ListState) → IsSane s → IsSane (if changed then auto_scroll_h s else s)
scrolled-IsSane changed s h = if-cases IsSane changed (λ e. auto_scroll_h-IsSane s h) λ e. h

pub handle_editability_ready-IsSane :
    (s : ListState) (target : Option EditTarget) (blocked : Option Text)
    → IsSane s
    → IsSane (handle_editability_ready s target blocked)
unfolding handle_editability_ready Live.exit_edit Session.exit_edit Session.clear
handle_editability_ready-IsSane s none blocked h = with_edit default-IsValid h
handle_editability_ready-IsSane s (some t) blocked h = h

pub enter_edit-IsValid : (l : Live.ListState) → IsValid l.edit → IsValid (Live.enter_edit l).edit
unfolding Live.enter_edit
enter_edit-IsValid l v =
    if-cases (λ (m : Live.ListState). IsValid m.edit) (not (Live.editable l)) (λ e. v)
      λ e. unfold step in step-IsValid l.edit (enters (Live.live_rows l.result)) v

pub press-IsSane :
    (s : ListState) (k : Coherence.Key)
    → IsSane s
    → IsSane (Handlers.with_live s (Coherence.press s.live k))
press-IsSane s k h = with_edit (press-IsValid s.live k h.session) h

by_key_code-IsSane :
    (code : Search.KeyCode) (s : ListState) (typed : Option Outcome)
    → IsSane s
    → IsSaneIf typed
    → IsSaneIf (Handlers.by_key_code code s typed)
unfolding Handlers.by_key_code
by_key_code-IsSane Search.esc s typed h k = at_match (omega arith) h
by_key_code-IsSane Search.enter s typed h k = h
by_key_code-IsSane Search.backspace s typed h k = k
by_key_code-IsSane (Search.char c) s typed h k = k
by_key_code-IsSane _ s typed h k = k

pub handle_search_key-IsSane :
    (lower : Text → Text) (s : ListState) (key : KeyEvent)
    → IsSane s
    → IsSaneIf (Handlers.handle_search_key lower s key)
unfolding Handlers.handle_search_key
handle_search_key-IsSane lower s key h = by_key_code-IsSane key.code s _ h (
    after_search_key-IsSane lower (record s { search = (Search.handle_key s.search key).0 })
      (Search.handle_key s.search key).1 h)

pub handle_copy_name-IsSane : (s : ListState) → IsSane s → IsSane (Handlers.handle_copy_name s).0
unfolding Handlers.handle_copy_name
handle_copy_name-IsSane s h = elim (Option-cases s.live.result) [
  | inl nothing ↦ rw (nothing, Handlers.handle_copy_name) h
  | inr (result, shown) ↦
      rw (shown, Handlers.handle_copy_name)
        (if-cases IsSaneAfter (is_empty (Handlers.name_to_copy s result.columns)) (λ e. h) λ e. h)
]

pub handle_commit-IsSane : (s : ListState) → IsSane s → IsSane (Handlers.handle_commit s).0
unfolding Handlers.handle_commit
handle_commit-IsSane s h = elim (Option-cases (Live.build_commit_statements s.live)) [
  | inl refused ↦ rw (refused, Handlers.handle_commit) h
  | inr (err e, failed) ↦ rw (failed, Handlers.handle_commit) h
  | inr (ok statements, built) ↦ rw (built, Handlers.handle_commit) h
]
