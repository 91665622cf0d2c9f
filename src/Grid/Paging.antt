-- ===== src/Grid/Paging.antt =====
-- The handlers of list/update.rs that change the page or take a result in. Each returns the state, the
-- effects in their order, and whether the pane is drawn again.
use dbm.Base.{
  ℕ, ◌+◌, ◌-◌, ◌%◌, ◌^◌, min, max, Bool, true, false, not, ◌&&◌, ◌||◌, Option, none, some, List, [],
  ◌∷◌, map, Text, length, ltb, leb, ◌==◌, ◌=?◌, nat_eq, list_eq, if◌then◌else◌,
}
use dbm.Edit.Live.{QueryResultData, is_some}
use dbm.Edit.Session.{is_dirty}
use dbm.Edit.Sql.{is_empty}
use dbm.Page.Math.{page_count, page_offset, max_page}
use dbm.Page.Scroll.{ResultsPageAction, first, prev, next, last, set, resolve_page_chord}
use dbm.Grid.Search.{reset}
use dbm.Grid.State.{ListState, no_text, total_rows, can_count_rows, can_go_next_page}
use dbm.Grid.Effect.{ResultsEffect, run_query, count_rows, check_editability}
use dbm.Grid.View

abbrev pub Outcome : Type 0
Outcome = ListState × List ResultsEffect × Bool

-- There is no statement or no connection to run it with.
abbrev pub cannot_run : ListState → Bool
cannot_run s = no_text s.last_sql || no_text s.context.instance_name || no_text s.context.connection

unfoldable pub push_count : ListState → List ResultsEffect
push_count s = if cannot_run s then [] else count_rows s.context s.last_sql ∷ []

unfoldable pub rerun_query : ListState → List ResultsEffect
rerun_query s =
    if cannot_run s then [] else run_query s.context s.last_sql s.paginated s.page s.row_limit ∷ []

-- An edit session with changes, which no page may be turned under.
abbrev pub has_dirty_session : ListState → Bool
has_dirty_session s = s.live.edit.editing && is_dirty s.live.edit

-- The last part of `apply_page_action`: to the page `target` where it is another one.
unfoldable pub go_to_page : ListState → ℕ → Bool → Outcome
unfolding rerun_query
go_to_page s target anchor_bottom =
    let moved = record s { page = target; page_anchor_bottom = anchor_bottom } in
    if target == s.page then (s, [], false) else (moved, rerun_query moved, true)

-- A jump to the last page, which is counted first where the total is not known.
unfoldable pub go_to_last : ListState → Outcome
unfolding go_to_page page_count total_rows can_count_rows push_count
go_to_last s = elim (total_rows s) [
  | some total ↦ go_to_page s (max (page_count total s.row_limit) 1) true
  | none ↦
      if can_count_rows s && not s.counting
      then (record s { counting = true; pending_page_after_count = some last }, push_count s, true)
      else go_to_page s s.page false
]

unfoldable pub apply_page_action : ListState → ResultsPageAction → Outcome
unfolding go_to_page go_to_last can_go_next_page is_dirty
apply_page_action s action = if has_dirty_session s then (s, [], false) else elim action [
  | first ↦ go_to_page s 1 false
  | prev ↦ go_to_page s (max (s.page - 1) 1) true
  | next ↦ go_to_page s (if not (can_go_next_page s) then s.page else s.page + 1) false
  | last ↦ go_to_last s
  | set page ↦ go_to_page s page false
]

-- The total that a page tells: a short page that is not empty is the last one.
unfoldable pub inferred_total : ListState → ℕ → Bool → Option ℕ
unfolding page_offset
inferred_total s rows paginated =
    if paginated && (ltb 0 rows && ltb rows s.row_limit)
    then some ((page_offset s.page s.row_limit + rows) % 2 ^ 64)
    else none

abbrev or_option {ℓ} : {A : Type ℓ} → Option A → Option A → Option A
or_option (some x) o = some x
or_option none o = o

-- The total after a result: what it brings itself, what was counted before, what the page tells.
unfoldable pub effective_total : ListState → QueryResultData → Bool → Option ℕ
unfolding inferred_total
effective_total s result paginated =
    if paginated
    then or_option result.total_rows
        (or_option s.total_cache (inferred_total s (length result.rows) paginated))
    else none

unfoldable pub reaches_last_page : ListState → ℕ → Option ℕ → Bool → Bool
unfolding page_count
reaches_last_page s rows total paginated =
    if paginated
    then elim total [
      | some t ↦ leb (max (page_count t s.row_limit) 1) s.page
      | none ↦ ltb rows s.row_limit || rows == 0
    ]
    else true

-- The cursor's row, and the first row shown, on a page that has landed.
abbrev parks_at_bottom : ListState → ℕ → Bool
parks_at_bottom s rows = s.page_anchor_bottom && ltb 0 rows

unfoldable pub land_result : (Text → ℕ) → ℕ → ListState → QueryResultData → Bool → ListState
unfolding effective_total reaches_last_page View.set_result reset
land_result display_width wall s result paginated =
    let total = effective_total s result paginated in
    let rows = length result.rows in
    let bottom = parks_at_bottom s rows in
    let placed = View.set_result display_width s (record result { total_rows = total }) in
    record placed {
      total_cache = total;
      page_anchor_bottom = false;
      counting = false;
      pending_page_after_count = none;
      at_last_page = reaches_last_page s rows total paginated;
      result_at = some wall;
      query_error = none;
      paginated = paginated;
      live = record placed.live {
        row = if bottom then rows - 1 else 0;
        col = 0;
        edit_target = none;
      };
      selected = bottom;
      v_scroll = if bottom then rows - max s.viewport_rows 1 else 0;
      h_scroll = 0;
      search = reset s.search;
      search_matches = [];
      search_match_index = 0;
      search_scope_column = none;
      edit_blocked_reason = none;
    }

unfoldable pub handle_set_result : (Text → ℕ) → ℕ → ListState → QueryResultData → Bool → Outcome
unfolding land_result
handle_set_result display_width wall s result paginated = (
  land_result display_width wall s result paginated,
  if is_empty result.columns || no_text s.last_sql
      then []
      else check_editability s.context s.last_sql (map (λ c. c.name) result.columns) ∷ [],
  true,
)

unfoldable pub handle_set_row_limit : ListState → ℕ → Outcome
unfolding rerun_query is_dirty
handle_set_row_limit s limit =
    let resized = record s {
      page_chord = none;
      row_limit = max limit 1;
      page = 1;
      page_anchor_bottom = false;
    } in
    if has_dirty_session s then (s, [], false) else (resized, rerun_query resized, true)

unfoldable pub handle_set_page : ListState → ℕ → Outcome
unfolding rerun_query is_dirty max_page total_rows
handle_set_page s page =
    let target = elim (max_page (total_rows s) s.row_limit) as (λ o. ℕ) [
      | some most ↦ min (max page 1) (max most 1)
      | none ↦ max page 1
    ] in
    let moved = record s { page_chord = none; page = target; page_anchor_bottom = false } in
    if has_dirty_session s then (s, [], false) else (moved, rerun_query moved, true)

unfoldable pub handle_page_nav : ListState → ResultsPageAction → Outcome
unfolding apply_page_action
handle_page_nav s action = apply_page_action (record s { page_chord = none }) action

-- What a page key asks for, with the chord that it leaves.
unfoldable pub follow_chord : ListState → Option (Bool × ℕ) × Option ResultsPageAction → Outcome
unfolding apply_page_action
follow_chord s (pending, some action) = apply_page_action (record s { page_chord = pending }) action
follow_chord s (pending, none) = (record s { page_chord = pending }, [], false)

unfoldable pub handle_page_chord : ℕ → ListState → Bool → Outcome
unfolding follow_chord resolve_page_chord
handle_page_chord now s forward = follow_chord s (resolve_page_chord s.page_chord now forward)

unfoldable pub handle_count_rows : ListState → Outcome
unfolding can_count_rows push_count
handle_count_rows s =
    let asked = record s { counting = true; pending_page_after_count = none } in
    if s.counting || not (can_count_rows s) then (s, [], false) else (asked, push_count asked, true)

abbrev with_total : Option QueryResultData → ℕ → Option QueryResultData
with_total none total = none
with_total (some r) total = some (record r { total_rows = some total })

-- A total has arrived, or the count failed.
unfoldable pub take_total : ListState → Option ℕ → ListState
take_total s none = record s { counting = false }
take_total s (some total) = record s {
  counting = false;
  total_cache = some total;
  live = record s.live { result = with_total s.live.result total };
}

-- The page action that waited for the count, where there is one and a total is known now.
unfoldable pub resume : ListState → Outcome
unfolding total_rows apply_page_action
resume s = elim s.pending_page_after_count [
  | none ↦ (s, [], false)
  | some action ↦
      if is_some (total_rows s)
      then apply_page_action (record s { pending_page_after_count = none }) action
      else (record s { pending_page_after_count = none }, [], false)
]

unfoldable pub mark_last_page : ListState → ListState
unfolding total_rows page_count
mark_last_page s = elim (total_rows s) [
  | none ↦ s
  | some total ↦ record s { at_last_page = leb (max (page_count total s.row_limit) 1) s.page }
]

-- The end of the handler, after the waiting action.
unfoldable pub after_count : ListState → Text → Option ℕ → Outcome → Outcome
unfolding mark_last_page
after_count s sql total (resumed, effects, nav) =
    if not (s.last_sql =? sql)
    then (s, [], false)
    else (mark_last_page resumed, effects, s.counting || is_some total || nav)

unfoldable pub handle_count_ready : ListState → Text → Option ℕ → Outcome
unfolding take_total resume after_count
handle_count_ready s sql total = after_count s sql total (resume (take_total s total))
