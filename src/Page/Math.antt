-- ===== src/Page/Math.antt =====
-- Page arithmetic. `usize` and `u64` are both 64 bits wide.
use dbm.Base.{
  ℕ, ◌-◌, Bool, true, false, ◌&&◌, ◌||◌, Option, none, some, Text, trim, min, max, ltb, leb, ◌==◌,
  if◌then◌else◌, div_ceil, mul_u64,
}
use dbm.Base.Decimal.{parse_usize}

abbrev min_results_row_limit : ℕ
min_results_row_limit = 1

abbrev pub max_results_row_limit : ℕ
max_results_row_limit = 10_000

unfoldable pub page_count : ℕ → ℕ → ℕ
page_count total limit = if limit == 0 then 1 else max (div_ceil total limit) 1

unfoldable pub max_page : Option ℕ → ℕ → Option ℕ
unfolding page_count
max_page none limit = none
max_page (some t) limit = some (page_count t limit)

unfoldable pub clamp_page : ℕ → Option ℕ → ℕ → ℕ
unfolding max_page
clamp_page page total limit = elim (max_page total limit) [
  | some most ↦ min (max page 1) most
  | none ↦ max page 1
]

-- `saturating_sub` is the subtraction of ℕ.
unfoldable pub page_offset : ℕ → ℕ → ℕ
page_offset page limit = mul_u64 (page - 1) limit

unfoldable pub can_go_next : ℕ → ℕ → ℕ → Option ℕ → Bool → Bool
can_go_next page limit row_count total at_last_page =
    if at_last_page || ltb row_count limit
    then false
    else elim total [ some t ↦ ltb (mul_u64 page limit) t | none ↦ true ]

unfoldable pub parse_row_limit_input : Text → Option ℕ
parse_row_limit_input input = elim (parse_usize (trim input)) [
  | none ↦ none
  | some n ↦ if leb min_results_row_limit n && leb n max_results_row_limit then some n else none
]

unfoldable pub parse_page_input : Text → Option ℕ → ℕ → Option ℕ
unfolding clamp_page
parse_page_input input total limit = elim (parse_usize (trim input)) [
  | none ↦ none
  | some n ↦ if n == 0 then none else some (clamp_page n total limit)
]
