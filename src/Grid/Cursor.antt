-- ===== src/Grid/Cursor.antt =====
-- Moving the cursor, and moving through the matches of a search.
use dbm.Base.{
  ℕ, ◌+◌, ◌-◌, ◌%◌, ◌≡◌, ◌≤◌, ◌<◌, refl, ap, ◌∙◌, Bool, true, false, not, ◌||◌, some, List, arith,
  length, get_elem?, get_elem?-none, ◌==◌, if◌then◌else◌, if-cases, inl, inr, Option-cases,
}
use native.Mathlib.Nat.{mod-eq_of_lt, mod-lt, add-mod_right, mod-add-mod}
use dbm.Base.Int.{ℤ, pos, negsuc}
use dbm.Grid.State.{
  ListState, ResultsSearchMatch, row_count, column_count, move_selection, scroll_to_row,
  step_towards, is_zero,
}
use dbm.Grid.Find.{advance_search_match, apply_current_match}

step_towards-lt : (d : ℤ) (at count : ℕ) → at < count → step_towards d at count < count
unfolding step_towards
step_towards-lt (pos n) at count h = ground arith
step_towards-lt (negsuc n) at count h = ground arith

scroll_to_row-shows :
    (row viewport v_scroll count : ℕ)
    → row < count
    → 0 < viewport
    → (scroll_to_row row viewport v_scroll count ≤ row)
      × (row < scroll_to_row row viewport v_scroll count + viewport)
unfolding scroll_to_row
scroll_to_row-shows row viewport v_scroll count h k = (ground arith, ground arith)

-- A step of the cursor keeps it on a cell of the result, selects the cell, and, where the row moves in
-- a pane of known height, scrolls so that the row is shown; a move is reported exactly where the cursor
-- has moved.
pub move_selection_lem :
    (s : ListState) (dr dc : ℤ)
    → s.live.row < row_count s
    → s.live.col < column_count s
    → ((move_selection s dr dc).0.live.row < row_count s)
      × ((move_selection s dr dc).0.live.col < column_count s)
      × ((move_selection s dr dc).0.selected ≡ true)
      × (is_zero dr ≡ false
          → 0 < s.viewport_rows
          → ((move_selection s dr dc).0.v_scroll ≤ (move_selection s dr dc).0.live.row)
            × ((move_selection s dr dc).0.live.row
                < (move_selection s dr dc).0.v_scroll + s.viewport_rows))
      × ((move_selection s dr dc).1 ≡ (
          not ((move_selection s dr dc).0.live.row == s.live.row)
          || not ((move_selection s dr dc).0.live.col == s.live.col)))
unfolding move_selection
move_selection_lem s dr dc row col =
    let some_rows : (row_count s == 0) ≡ false = ground arith in
    let row' = step_towards-lt dr s.live.row (row_count s) row in
    let shows =
      scroll_to_row-shows (step_towards dr s.live.row (row_count s)) s.viewport_rows s.v_scroll
        (row_count s) row' in
    rw some_rows (
      row',
      step_towards-lt dc s.live.col (column_count s) col,
      refl,
      λ moves tall. rw moves (shows tall),
      refl,
    )

index-apply_current_match :
    (s : ListState) → (apply_current_match s).search_match_index ≡ s.search_match_index
unfolding apply_current_match
index-apply_current_match s = ground arith

matches-apply_current_match :
    (s : ListState) → (apply_current_match s).search_matches ≡ s.search_matches
unfolding apply_current_match
matches-apply_current_match s = ground arith

-- The index after one step forward or back among `n` matches.
stepped : ℕ → ℕ → Bool → ℕ
stepped i n forward = if forward then (i + 1) % n else (i + n - 1) % n

stepped-lt : (i n : ℕ) (forward : Bool) → i < n → stepped i n forward < n
unfolding stepped
stepped-lt i n forward h =
    if-cases (λ j. j < n) forward (λ f. mod-lt (i + 1) (omega arith))
      λ b. mod-lt (i + n - 1) (omega arith)

around : (i n : ℕ) → i < n → (i + n) % n ≡ i
around i n h = add-mod_right i n ∙ mod-eq_of_lt h

stepped-back :
    (i n : ℕ) (forward : Bool) → i < n → stepped (stepped i n forward) n (not forward) ≡ i
unfolding stepped
stepped-back i n true h =
    let split : (i + 1) % n + n - 1 ≡ (i + 1) % n + (n - 1) = omega arith in
    let sum : i + 1 + (n - 1) ≡ i + n = omega arith in
    ap (λ m. m % n) split ∙ (mod-add-mod (i + 1) n (n - 1) ∙ (ap (λ m. m % n) sum ∙ around i n h))
stepped-back i n false h =
    let sum : i + n - 1 + 1 ≡ i + n = omega arith in
    mod-add-mod (i + n - 1) n 1 ∙ (ap (λ m. m % n) sum ∙ around i n h)

-- The match of a list, with its cell selected.
IsOnMatch : List ResultsSearchMatch → ℕ → ListState → Type 0
IsOnMatch matches i s' =
    (m : ResultsSearchMatch) × (get_elem? matches i ≡ some m)
    × (s'.live.row ≡ m.row)
    × (s'.live.col ≡ m.col)
    × (s'.selected ≡ true)

apply_current_match-IsOnMatch :
    (s : ListState)
    → s.search_match_index < length s.search_matches
    → IsOnMatch s.search_matches s.search_match_index (apply_current_match s)
unfolding IsOnMatch apply_current_match
apply_current_match-IsOnMatch s h =
    elim (Option-cases (get_elem? s.search_matches s.search_match_index)) [
      | inl gone ↦ absurd (omega (arith, get_elem?-none s.search_matches s.search_match_index gone))
      | inr (m, found) ↦ (
        m,
        found,
        rw (found, apply_current_match) refl,
        rw (found, apply_current_match) refl,
        rw (found, apply_current_match) refl,
      )
    ]

advance-IsOnMatch :
    (s : ListState) (forward : Bool)
    → s.search_match_index < length s.search_matches
    → IsOnMatch s.search_matches
        (stepped s.search_match_index (length s.search_matches) forward)
        (advance_search_match s forward)
unfolding advance_search_match stepped
advance-IsOnMatch s forward h =
    let some_match : (length s.search_matches == 0) ≡ false = ground arith in
    let to = stepped s.search_match_index (length s.search_matches) forward in
    rw some_match (
      apply_current_match-IsOnMatch (record s { search_match_index = to })
        (stepped-lt s.search_match_index (length s.search_matches) forward h))

index-advance :
    (s : ListState) (forward : Bool)
    → s.search_match_index < length s.search_matches
    → ((advance_search_match s forward).search_match_index
        ≡ stepped s.search_match_index (length s.search_matches) forward)
      × ((advance_search_match s forward).search_matches ≡ s.search_matches)
unfolding advance_search_match stepped
index-advance s forward h =
    let some_match : (length s.search_matches == 0) ≡ false = ground arith in
    rw some_match (index-apply_current_match _, matches-apply_current_match _)

-- Where there are matches, a step to another match and a step back lead to the same match, and a step
-- selects the cell of a match of the list.
advance_search_match-back :
    (s : ListState) (forward : Bool)
    → s.search_match_index < length s.search_matches
    → ((advance_search_match (advance_search_match s forward) (not forward)).search_match_index
        ≡ s.search_match_index)
      × ((m : ResultsSearchMatch) × (get_elem? s.search_matches
              (advance_search_match s forward).search_match_index
            ≡ some m)
          × ((advance_search_match s forward).live.row ≡ m.row)
          × ((advance_search_match s forward).live.col ≡ m.col)
          × ((advance_search_match s forward).selected ≡ true))
advance_search_match-back s forward h =
    let (at, same) = index-advance s forward h in
    let s' = advance_search_match s forward in
    let inside : s'.search_match_index < length s'.search_matches =
      rw (at, same) (stepped-lt s.search_match_index (length s.search_matches) forward h) in
    let (back, _) = index-advance s' (not forward) inside in
    (
      back ∙ rw (at, same) (stepped-back s.search_match_index (length s.search_matches) forward h),
      rw at (unfold IsOnMatch in advance-IsOnMatch s forward h),
    )
