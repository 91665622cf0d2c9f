-- ===== src/Page/Scroll.antt =====
-- Moving by a viewport and by repeated keys: `plan_results_page_scroll` and `resolve_page_chord` of
-- sql_tab/results/pagination.rs.
use dbm.Base.{
  ℕ, zero, suc, ◌+◌, ◌-◌, ◌*◌, ◌/◌, ◌≤◌, ◌<◌, ◌≡◌, ap, ◌∙◌, ◌⊎◌, inl, inr, Bool, true, false, ◌&&◌,
  Option, none, some, arith, min, max, ltb, leb, ◌==◌, if◌then◌else◌, Bool-cases,
}

pub data ResultsPageScrollPlan : Type 0 where
  move_to_row : ℕ → ResultsPageScrollPlan
  next_page : ResultsPageScrollPlan
  prev_page : ResultsPageScrollPlan
  no_plan : ResultsPageScrollPlan

unfoldable plan_results_page_scroll : ℕ → ℕ → ℕ → Bool → Bool → ℕ → Bool → ResultsPageScrollPlan
plan_results_page_scroll row row_count visible forward paginated results_page can_next =
    let last = row_count - 1 in
    let at = min row last in
    let step = max visible 1 in
    if row_count == 0
    then no_plan
    else if forward
    then (if leb last at
        then (if paginated && can_next then next_page else no_plan)
        else move_to_row (min (at + step) last))
    else if at == 0
    then (if paginated && ltb 1 results_page then prev_page else no_plan)
    else move_to_row (at - step)

pub data ResultsPageAction : Type 0 where
  first : ResultsPageAction
  prev : ResultsPageAction
  next : ResultsPageAction
  last : ResultsPageAction
  set : ℕ → ResultsPageAction

abbrev pub results_page_chord_ms : ℕ
results_page_chord_ms = 500

-- An `Instant` is a number of nanoseconds; `duration_since` stops at 0, and `as_millis` rounds down.
unfoldable pub resolve_page_chord :
    Option (Bool × ℕ) → ℕ → Bool → Option (Bool × ℕ) × Option ResultsPageAction
resolve_page_chord none now forward = (some (forward, now), some (if forward then next else prev))
resolve_page_chord (some (dir, at)) now forward =
    if (if dir then forward else (if forward then false else true))
      && leb ((now - at) / 1_000_000) results_page_chord_ms
    then (none, some (if forward then last else first))
    else (some (forward, now), some (if forward then next else prev))

-- A planned row is a row of the page, on the side asked for and at most a viewport away.
plan_results_page_scroll_bounds :
    (row row_count visible target page : ℕ) (forward paginated can_next : Bool)
    → row < row_count
    → plan_results_page_scroll row row_count visible forward paginated page can_next
      ≡ move_to_row target
    → (target < row_count)
      × (forward ≡ true → (row < target) × (target ≤ row + max visible 1))
      × (forward ≡ false → (target < row) × (row ≤ target + max visible 1))
unfolding plan_results_page_scroll
plan_results_page_scroll_bounds row row_count visible target page true p n h e =
    (ground arith, λ f. ground arith, λ f. cc)
plan_results_page_scroll_bounds row row_count visible target page false p n h e =
    (ground arith, λ f. cc, λ f. ground arith)

-- A flip goes to the next page only forward, from the last row and where there is a next page, and to
-- the previous one only backward, from the first row or on a page of one row, and past the first page.
plan_results_page_scroll_leaves :
    (row row_count visible page : ℕ) (forward paginated can_next : Bool)
    → (plan_results_page_scroll row row_count visible forward paginated page can_next ≡ next_page
        → (row_count ≤ row + 1) × (forward ≡ true) × (can_next ≡ true))
      × (plan_results_page_scroll row row_count visible forward paginated page can_next ≡ prev_page
          → (row ≡ 0 ⊎ row_count ≡ 1) × (forward ≡ false) × (1 < page))
unfolding plan_results_page_scroll
plan_results_page_scroll_leaves row row_count visible page forward paginated can_next = (
  λ e. ground arith,
  λ e. elim (Bool-cases (row == 0)) [
    | inl z ↦ (inl (ground arith), ground arith, ground arith)
    | inr z ↦ (inr (ground arith), ground arith, ground arith)
  ],
)

-- Where `presses` flips in one direction lead to: a row of the page, or another page, which ends them.
-- A flip that is refused leaves the row.
unfoldable pub flips : ℕ → ℕ → ℕ → Bool → Bool → ℕ → Bool → ℕ → ResultsPageScrollPlan
unfolding plan_results_page_scroll
flips zero row_count visible forward paginated page can_next row = move_to_row row
flips (suc presses) row_count visible forward paginated page can_next row =
    elim (plan_results_page_scroll row row_count visible forward paginated page can_next) [
      | move_to_row target ↦ flips presses row_count visible forward paginated page can_next target
      | next_page ↦ next_page
      | prev_page ↦ prev_page
      | no_plan ↦ flips presses row_count visible forward paginated page can_next row
    ]

module _ (row_count visible page : ℕ) (paginated can_next : Bool) where
  flip_forward :
      (row : ℕ)
      → row + 1 < row_count
      → plan_results_page_scroll row row_count visible true paginated page can_next
        ≡ move_to_row (min (row + max visible 1) (row_count - 1))
  unfolding plan_results_page_scroll
  flip_forward row h = ground arith

  flip_end :
      (row : ℕ)
      → row + 1 ≡ row_count
      → plan_results_page_scroll row row_count visible true paginated page can_next
        ≡ (if paginated && can_next then next_page else no_plan)
  unfolding plan_results_page_scroll
  flip_end row h = ground arith

  -- On the last row.
  flips-end :
      (presses row : ℕ)
      → row + 1 ≡ row_count
      → flips (suc presses) row_count visible true paginated page can_next row
        ≡ (if paginated && can_next then next_page else move_to_row row)
  unfolding flips
  flips-end presses row h = elim (Bool-cases (paginated && can_next)) [
    | inl on ↦
        let plan : plan_results_page_scroll row row_count visible true paginated page can_next
            ≡ next_page =
          flip_end row h ∙ ground arith in
        rw (plan, flips) (ground arith)
    | inr off ↦
        let plan : plan_results_page_scroll row row_count visible true paginated page can_next
            ≡ no_plan =
          flip_end row h ∙ ground arith in
        rw (plan, flips) (stays presses off)
  ]
    where
      stays :
          (n : ℕ)
          → (paginated && can_next) ≡ false
          → flips n row_count visible true paginated page can_next row
            ≡ (if paginated && can_next then next_page else move_to_row row)
      stays zero off = ground arith
      stays (suc n) off =
          let plan : plan_results_page_scroll row row_count visible true paginated page can_next
              ≡ no_plan =
            flip_end row h ∙ ground arith in
          rw (plan, flips) (stays n off)

  -- Flipping forward on a page, from one of its rows: presses that cover the rows below lead to its last
  -- row; where the result is paginated and a next page may be opened, presses that go a viewport or more
  -- past the last row lead to the next page instead, and otherwise they stay on the last row.
  pub flips-last :
      (presses row : ℕ)
      → row < row_count
      → row_count ≤ row + 1 + presses * max visible 1
      → flips presses row_count visible true paginated page can_next row ≡ (
          if (paginated && can_next)
            && leb (row_count + max visible 1) (row + 1 + presses * max visible 1)
          then next_page
          else move_to_row (row_count - 1))
  unfolding flips
  flips-last zero row h k = ground arith
  flips-last (suc presses) row h k = elim (Bool-cases (ltb (row + 1) row_count)) [
    | inl more ↦
        rw (flip_forward row (ground arith), flips)
          (flips-last presses (min (row + max visible 1) (row_count - 1)) (omega arith)
              (grind arith)
            ∙ ap
                (λ b.
                  if (paginated && can_next) && b then next_page else move_to_row (row_count - 1))
                (same presses row (ground arith)))
    | inr done ↦ flips-end presses row (ground arith) ∙ ground arith
  ]
    where
      same :
          (n row : ℕ)
          → row + 1 < row_count
          → leb
              (row_count + max visible 1)
              (min (row + max visible 1) (row_count - 1) + 1 + n * max visible 1)
            ≡ leb (row_count + max visible 1) (row + 1 + (suc n) * max visible 1)
      same zero row h = ground arith
      same (suc n) row h = ground arith

-- Presses of one key, at ascending times: the second press escalates exactly inside the window, and
-- the press after an escalation is a plain one again.
resolve_page_chord_twice :
    (t u v : ℕ) (forward : Bool) (other : Bool)
    → (t ≤ u)
    → (u < t + 501_000_000
        → (resolve_page_chord (resolve_page_chord none t forward).0 u forward
            ≡ (none, some (if forward then last else first)))
          × ((resolve_page_chord
                (resolve_page_chord (resolve_page_chord none t forward).0 u forward).0
                v
                other).1
              ≡ some (if other then next else prev)))
      × (t + 501_000_000 ≤ u
          → resolve_page_chord (resolve_page_chord none t forward).0 u forward
            ≡ (some (forward, u), some (if forward then next else prev)))
      × (resolve_page_chord
            (resolve_page_chord none t forward).0
            u
            (if forward then false else true)
          ≡ (some ((if forward then false else true), u), some (if forward then prev else next)))
unfolding resolve_page_chord
resolve_page_chord_twice t u v true other h =
    (λ k. (ground arith, ground arith), λ k. ground arith, ground arith)
resolve_page_chord_twice t u v false other h =
    (λ k. (ground arith, ground arith), λ k. ground arith, ground arith)
