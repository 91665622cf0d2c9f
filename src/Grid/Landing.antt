-- ===== src/Grid/Landing.antt =====
-- A result that lands: what it tells of the pages, where the cursor is put, and what becomes of an edit
-- session.
use dbm.Base.{
  ℕ, ◌+◌, ◌-◌, ◌*◌, ◌%◌, ◌^◌, ◌≡◌, ◌≤◌, ◌<◌, refl, max, Bool, true, false, none, some, Text, arith,
  length, ltb, if◌then◌else◌,
}
use native.Mathlib.Nat.{mod-eq_of_lt}
use native.Mathlib.Nat
use dbm.Edit.Live
use dbm.Edit.Live.{QueryResultData, live_rows}
use dbm.Edit.Sql.{EditTarget}
use dbm.Page.Math.{page_count, page_offset, can_go_next}
use dbm.Page.Cover.{page_count_bounds}
use dbm.Grid.State.{ListState, total_rows, row_count, can_go_next_page}
use dbm.Grid.View
use dbm.Grid.Paging.{
  land_result, effective_total, inferred_total, reaches_last_page, handle_set_result,
}
use dbm.Grid.Handlers.{handle_editability_ready, handle_enter_edit}

-- A short page is the last one of the total that it tells.
short_page-last :
    (page limit rows : ℕ)
    → 1 ≤ page
    → 0 < rows
    → rows < limit
    → max (page_count ((page - 1) * limit + rows) limit) 1 ≤ page
short_page-last page limit rows low some_row short =
    let total = (page - 1) * limit + rows in
    let (all, whole, one, full) = page_count_bounds total limit (omega arith) in
    let near : (page_count total limit - 1) * limit < (page - 1 + 1) * limit =
      grind (arith, full (omega arith)) in
    let fewer = Nat.lt_of_mul-lt-mul_right limit near in omega arith

-- What is known of the total after a page of a paginated query of which nothing was known: a short page
-- that is not empty is the last one and tells the total, after a full page there is a next one, and an
-- empty page is the last one and tells nothing.
pub land_result_pages :
    (display_width : Text → ℕ) (wall : ℕ) (s : ListState) (result : QueryResultData)
    → result.total_rows ≡ none
    → s.total_cache ≡ none
    → 1 ≤ s.page
    → 1 ≤ s.row_limit
    → (s.page - 1) * s.row_limit + length result.rows < 2 ^ 64
    → (0 < length result.rows
        → length result.rows < s.row_limit
        → (total_rows (land_result display_width wall s result true)
            ≡ some ((s.page - 1) * s.row_limit + length result.rows))
          × ((land_result display_width wall s result true).at_last_page ≡ true)
          × (can_go_next_page (land_result display_width wall s result true) ≡ false))
      × (s.row_limit ≤ length result.rows
          → (total_rows (land_result display_width wall s result true) ≡ none)
            × ((land_result display_width wall s result true).at_last_page ≡ false)
            × (can_go_next_page (land_result display_width wall s result true) ≡ true))
      × (length result.rows ≡ 0
          → (total_rows (land_result display_width wall s result true) ≡ none)
            × ((land_result display_width wall s result true).at_last_page ≡ true)
            × (can_go_next_page (land_result display_width wall s result true) ≡ false))
unfolding land_result effective_total inferred_total reaches_last_page View.set_result
    can_go_next_page can_go_next total_rows row_count page_offset
land_result_pages display_width wall s result bare fresh low some_limit fits =
    let rows = length result.rows in
    let offset : ((s.page - 1) * s.row_limit) % 2 ^ 64 ≡ (s.page - 1) * s.row_limit =
      mod-eq_of_lt (omega arith) in
    let whole : (((s.page - 1) * s.row_limit) % 2 ^ 64 + rows) % 2 ^ 64
        ≡ (s.page - 1) * s.row_limit + rows =
      rw offset (mod-eq_of_lt fits) in
    (
      λ some_row short.
          let last = short_page-last s.page s.row_limit rows low some_row short in
          let positive : ltb 0 rows ≡ true = ground arith in
          let below : ltb rows s.row_limit ≡ true = ground arith in
          rw (bare, fresh) (rw (positive, below) (rw whole (refl, ground arith, ground arith))),
      λ full. rw (bare, fresh) (ground arith, ground arith, ground arith),
      λ empty. rw (bare, fresh) (ground arith, ground arith, ground arith),
    )

-- Where the cursor stands after a result: on a row of the page that the pane shows, on the last row of
-- a page that was reached backwards, and on the first row of any other.
land_result_cursor :
    (display_width : Text → ℕ) (wall : ℕ) (s : ListState) (result : QueryResultData)
    (paginated : Bool)
    → 0 < length result.rows
    → ((land_result display_width wall s result paginated).live.row < length result.rows)
      × ((land_result display_width wall s result paginated).v_scroll
          ≤ (land_result display_width wall s result paginated).live.row)
      × ((land_result display_width wall s result paginated).live.row
          < (land_result display_width wall s result paginated).v_scroll + max s.viewport_rows 1)
      × ((land_result display_width wall s result paginated).live.row
          ≡ (if s.page_anchor_bottom then length result.rows - 1 else 0))
      × ((land_result display_width wall s result paginated).selected ≡ s.page_anchor_bottom)
unfolding land_result View.set_result
land_result_cursor display_width wall s result paginated some_row =
    (ground arith, ground arith, ground arith, ground arith, ground arith)

-- A result that lands during an edit session replaces the rows and leaves the session as it is; when
-- the result can be edited, so it stays, and entering edit mode again takes no new snapshots.
pub stale_session :
    (display_width : Text → ℕ) (wall : ℕ) (s : ListState) (result : QueryResultData)
    (paginated : Bool) (target : EditTarget)
    → s.live.edit.editing ≡ true
    → (live_rows
          (handle_enter_edit (
            handle_editability_ready
              (handle_set_result display_width wall s result paginated).0
              (some target)
              none)).0.live.result
        ≡ result.rows)
      × (Live.editable
            (handle_enter_edit (
              handle_editability_ready
                (handle_set_result display_width wall s result paginated).0
                (some target)
                none)).0.live
          ≡ true)
      × ((handle_enter_edit (
            handle_editability_ready
              (handle_set_result display_width wall s result paginated).0
              (some target)
              none)).0.live.edit
          ≡ s.live.edit)
unfolding handle_set_result land_result View.set_result handle_editability_ready handle_enter_edit
    Live.editable
stale_session display_width wall s result paginated target editing = rw editing (refl, refl, refl)
