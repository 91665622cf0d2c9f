-- ===== src/Grid/Find.antt =====
-- The matches of the search in the grid: `find_matches` of list/search.rs and the methods of
-- list/state.rs on the matches. A search that panics is `none`.
use dbm.Base.{
  ℕ, zero, suc, ◌+◌, ◌-◌, ◌%◌, Bool, true, ◌||◌, Option, none, some, List, [], ◌∷◌, ◌++◌, map, Text,
  trim, length, get_elem?, ltb, leb, ◌==◌, if◌then◌else◌,
}
use dbm.Edit.Live.{QueryResultData}
use dbm.Edit.Sql.{is_empty}
use dbm.Grid.Search.{find_match_starts}
use dbm.Grid.State.{ListState, ResultsSearchMatch, or_else}

-- The columns from `from` on, `n` of them.
abbrev columns_from : ℕ → ℕ → List ℕ
columns_from from zero = []
columns_from from (suc n) = from ∷ columns_from (from + 1) n

-- The columns of a search: one, or all.
unfoldable scope_columns : Option ℕ → ℕ → List ℕ
scope_columns (some c) count = if ltb c count then c ∷ [] else []
scope_columns none count = columns_from 0 count

-- Two lists of which neither panics, one after the other.
abbrev pub both {ℓ} : {A : Type ℓ} → Option (List A) → Option (List A) → Option (List A)
both none b = none
both (some xs) none = none
both (some xs) (some ys) = some (xs ++ ys)

abbrev at_cell : ℕ → ℕ → Option (List ℕ) → Option (List ResultsSearchMatch)
at_cell row col none = none
at_cell row col (some starts) = some (map (λ i. record { row = row; col = col; start = i }) starts)

unfoldable matches_in_row :
    (Text → Text) → Text → Bool → ℕ → List Text → List ℕ → Option (List ResultsSearchMatch)
unfolding find_match_starts
matches_in_row lower query ignore_case row cells [] = some []
matches_in_row lower query ignore_case row cells (col ∷ cols) =
    both
      (at_cell row col
        (find_match_starts lower (or_else (get_elem? cells col) []) query ignore_case))
      (matches_in_row lower query ignore_case row cells cols)

unfoldable matches_in_rows :
    (Text → Text) → Text → Bool → ℕ → List (List Text) → List ℕ → Option (List ResultsSearchMatch)
unfolding matches_in_row
matches_in_rows lower query ignore_case row [] cols = some []
matches_in_rows lower query ignore_case row (cells ∷ rows) cols =
    both (matches_in_row lower query ignore_case row cells cols)
      (matches_in_rows lower query ignore_case (row + 1) rows cols)

unfoldable pub find_matches :
    (Text → Text) → QueryResultData → Text → Option ℕ → Bool → Option (List ResultsSearchMatch)
unfolding scope_columns matches_in_rows
find_matches lower result query column ignore_case =
    if is_empty (trim query) || is_empty result.rows || is_empty result.columns
    then some []
    else matches_in_rows lower (trim query) ignore_case 0 result.rows
        (scope_columns column (length result.columns))

-- The cell of the active match is selected.
unfoldable pub apply_current_match : ListState → ListState
apply_current_match s = elim (get_elem? s.search_matches s.search_match_index) [
  | none ↦ s
  | some m ↦ record s { selected = true; live = record s.live { row = m.row; col = m.col } }
]

abbrev pub matches_of : (Text → Text) → ListState → Option (List ResultsSearchMatch)
matches_of lower s = elim s.live.result [
  | none ↦ some []
  | some result ↦
      find_matches lower result s.search.query s.search_scope_column s.search.ignore_case
]

unfoldable pub with_matches : ListState → List ResultsSearchMatch → ListState
unfolding apply_current_match
with_matches s matches =
    if length matches == 0
    then record s { search_matches = []; search_match_index = 0 }
    else apply_current_match (record s {
      search_matches = matches;
      search_match_index =
          if leb (length matches) s.search_match_index then 0 else s.search_match_index;
    })

unfoldable pub refresh_search_matches : (Text → Text) → ListState → Option ListState
unfolding find_matches with_matches
refresh_search_matches lower s = elim (matches_of lower s) [
  | none ↦ none
  | some matches ↦ some (with_matches s matches)
]

-- `forward` is the sign of `dr`.
unfoldable pub advance_search_match : ListState → Bool → ListState
unfolding apply_current_match
advance_search_match s forward =
    let count = length s.search_matches in
    if count == 0
    then s
    else apply_current_match (record s {
      search_match_index =
          if forward
          then (s.search_match_index + 1) % count
          else (s.search_match_index + count - 1) % count;
    })
