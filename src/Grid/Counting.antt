-- ===== src/Grid/Counting.antt =====
-- A jump to the last page of a query whose total is not known.
use dbm.Base.{
  ℕ, ◌≡◌, refl, sym, subst, max, true, false, none, some, [], ◌∷◌, arith, ◌==◌, nat_eq, list_eq,
  if◌then◌else◌, =?_refl,
}
use dbm.Page.Math.{page_count}
use dbm.Page.Scroll.{last}
use dbm.Grid.State.{ListState, total_rows, can_count_rows}
use dbm.Grid.Effect.{run_query, count_rows}
use dbm.Grid.Paging.{
  cannot_run, has_dirty_session, handle_page_nav, handle_count_ready, apply_page_action, go_to_last,
  go_to_page, push_count, rerun_query, take_total, resume, mark_last_page, after_count,
}

asked : ListState → ListState
asked s = record s { page_chord = none; counting = true; pending_page_after_count = some last }

handle_page_nav-last :
    (s : ListState)
    → has_dirty_session s ≡ false
    → total_rows s ≡ none
    → can_count_rows s ≡ true
    → s.counting ≡ false
    → cannot_run s ≡ false
    → handle_page_nav s last ≡ (asked s, count_rows s.context s.last_sql ∷ [], true)
unfolding asked handle_page_nav apply_page_action go_to_last total_rows can_count_rows push_count
handle_page_nav-last s clean unknown countable idle runs = ground arith

resume-last :
    (s : ListState) (n : ℕ)
    → s.pending_page_after_count ≡ some last
    → total_rows s ≡ some n
    → has_dirty_session s ≡ false
    → resume s
      ≡ go_to_page
          (record s { pending_page_after_count = none })
          (max (page_count n s.row_limit) 1)
          true
unfolding resume apply_page_action go_to_last total_rows
resume-last s n waiting known clean = ground arith

-- The state that the count of `total` rows leaves, before the jump.
counted : ListState → ℕ → ListState
unfolding asked take_total
counted s total = record (take_total (asked s) (some total)) { pending_page_after_count = none }

total_rows-counted :
    (s : ListState) (total : ℕ)
    → can_count_rows s ≡ true
    → total_rows (counted s total) ≡ some total
unfolding counted asked take_total total_rows can_count_rows
total_rows-counted s total countable = ground arith

-- What a jump and the mark after it make of a state in which nothing is counted and nothing waits.
jump :
    (s : ListState) (n target : ℕ)
    → total_rows s ≡ some n
    → max (page_count n s.row_limit) 1 ≡ target
    → ((mark_last_page (go_to_page s target true).0).page ≡ target)
      × ((mark_last_page (go_to_page s target true).0).at_last_page ≡ true)
      × ((mark_last_page (go_to_page s target true).0).counting ≡ s.counting)
      × ((mark_last_page (go_to_page s target true).0).pending_page_after_count
          ≡ s.pending_page_after_count)
unfolding mark_last_page go_to_page total_rows
jump s n target known is_target = (ground arith, ground arith, ground arith, ground arith)

jump_effects :
    (s : ListState) (target : ℕ)
    → cannot_run s ≡ false
    → (go_to_page s target true).1 ≡ (
        if target == s.page
        then []
        else run_query s.context s.last_sql s.paginated target s.row_limit ∷ [])
unfolding go_to_page rerun_query
jump_effects s target runs = ground arith

landed :
    (s : ListState) (total : ℕ)
    → has_dirty_session s ≡ false
    → can_count_rows s ≡ true
    → handle_count_ready (asked s) s.last_sql (some total) ≡ (
      mark_last_page (go_to_page (counted s total) (max (page_count total s.row_limit) 1) true).0,
      (go_to_page (counted s total) (max (page_count total s.row_limit) 1) true).1,
      true,
    )
unfolding handle_count_ready after_count asked take_total counted
landed s total clean countable =
    subst
      (λ o. after_count (asked s) s.last_sql (some total) o ≡ (
        mark_last_page (go_to_page (counted s total) (max (page_count total s.row_limit) 1) true).0,
        (go_to_page (counted s total) (max (page_count total s.row_limit) 1) true).1,
        true,
      ))
      (sym (
        resume-last (take_total (asked s) (some total)) total refl
          (total_rows-counted s total countable) clean))
      (rw (=?_refl s.last_sql, after_count) refl)

-- With no total known, a jump to the last page asks for the count and nothing else; when the total
-- lands, the page is the last page of that total, it is fetched exactly where it is another page, and
-- nothing waits any more.
pub last_page_counted :
    (s : ListState) (total : ℕ)
    → has_dirty_session s ≡ false
    → total_rows s ≡ none
    → can_count_rows s ≡ true
    → s.counting ≡ false
    → cannot_run s ≡ false
    → ((handle_page_nav s last).1 ≡ count_rows s.context s.last_sql ∷ [])
      × ((handle_page_nav s last).0.page ≡ s.page)
      × ((handle_count_ready (handle_page_nav s last).0 s.last_sql (some total)).0.page
          ≡ page_count total s.row_limit)
      × ((handle_count_ready (handle_page_nav s last).0 s.last_sql (some total)).0.at_last_page
          ≡ true)
      × ((handle_count_ready (handle_page_nav s last).0 s.last_sql (some total)).0.counting ≡ false)
      × ((handle_count_ready
            (handle_page_nav s last).0
            s.last_sql
            (some total)).0.pending_page_after_count
          ≡ none)
      × ((handle_count_ready (handle_page_nav s last).0 s.last_sql (some total)).1 ≡ (
          if page_count total s.row_limit == s.page
          then []
          else run_query s.context s.last_sql s.paginated (page_count total s.row_limit) s.row_limit
            ∷ []))
unfolding counted asked take_total
last_page_counted s total clean unknown countable idle runs =
    let one : max (page_count total s.row_limit) 1 ≡ page_count total s.row_limit =
      unfold page_count in ground arith in
    let known = total_rows-counted s total countable in
    let (at, ended, done, nothing) =
      jump (counted s total) total (page_count total s.row_limit) known one in
    rw
      (
        handle_page_nav-last s clean unknown countable idle runs,
        landed s total clean countable,
        one,
      )
      (
        refl,
        refl,
        at,
        ended,
        done,
        nothing,
        jump_effects (counted s total) (page_count total s.row_limit) runs,
      )
