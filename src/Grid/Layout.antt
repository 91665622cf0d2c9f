-- ===== src/Grid/Layout.antt =====
-- The widths of the columns, common/view/format.rs: automatic widths, where a column begins and ends,
-- and the width of the table. `display_width` is the number of terminal columns of a text, which a
-- crate computes.
use dbm.Base.{
  ℕ, ◌+◌, ◌-◌, ◌%◌, ◌^◌, min, max, none, some, List, [], ◌∷◌, map, Text, length, get_elem?, take,
  clamp, as_u16, sat_add16, u16_max, to_ascii_lower, ltb, if◌then◌else◌, arith, ◌≤◌,
}
use dbm.Base.Int.{ℤ, pos, negsuc}
use dbm.Edit.Live.{ColumnInfo}
use dbm.Edit.Sql.{is_empty}

abbrev default_results_col_width : ℕ
default_results_col_width = 14

abbrev min_results_col_width : ℕ
min_results_col_width = 4

abbrev max_results_col_width : ℕ
max_results_col_width = 80

abbrev auto_results_col_width_cap : ℕ
auto_results_col_width_cap = 36

unfoldable pub clamp_col_width : ℕ → ℕ
clamp_col_width width = clamp width min_results_col_width max_results_col_width

-- One column for the border, and one so that a text that fits is not cut.
unfoldable results_col_width_for_measured : ℕ → ℕ
unfolding clamp_col_width
results_col_width_for_measured measured = clamp_col_width (sat_add16 (sat_add16 measured 1) 1)

unfoldable friendly_type_name : Text → Text
friendly_type_name type_name = map to_ascii_lower type_name

unfoldable column_type_label : ColumnInfo → Text
unfolding friendly_type_name
column_type_label meta =
    if is_empty meta.type_display
    then friendly_type_name meta.type_name
    else friendly_type_name meta.type_display

-- The widest value of a column; a row that is too short has none there.
unfoldable widest_cell : (Text → ℕ) → List (List Text) → ℕ → ℕ
widest_cell display_width [] col_idx = 0
widest_cell display_width (row ∷ rows) col_idx =
    let rest = widest_cell display_width rows col_idx in
    elim (get_elem? row col_idx) [ some value ↦ max (display_width value) rest | none ↦ rest ]

unfoldable column_measured_width : (Text → ℕ) → ColumnInfo → List (List Text) → ℕ → ℕ
unfolding column_type_label widest_cell
column_measured_width display_width col rows col_idx =
    min
      (max (max (display_width col.name) (display_width (column_type_label col)))
        (widest_cell display_width rows col_idx))
      u16_max

unfoldable column_width_for_result : (Text → ℕ) → ColumnInfo → List (List Text) → ℕ → ℕ
unfolding column_measured_width results_col_width_for_measured
column_width_for_result display_width col rows col_idx =
    results_col_width_for_measured
      (min (column_measured_width display_width col rows col_idx) auto_results_col_width_cap)

-- The columns from `col_idx` on.
unfoldable widths_from : (Text → ℕ) → List (List Text) → ℕ → List ColumnInfo → List ℕ
unfolding column_width_for_result
widths_from display_width rows col_idx [] = []
widths_from display_width rows col_idx (col ∷ columns) =
    column_width_for_result display_width col rows col_idx
    ∷ widths_from display_width rows (col_idx + 1) columns

unfoldable pub init_results_layout : (Text → ℕ) → List ColumnInfo → List (List Text) → List ℕ
unfolding widths_from
init_results_layout display_width columns rows = widths_from display_width rows 0 columns

abbrev pub sum : List ℕ → ℕ
sum [] = 0
sum (w ∷ widths) = w + sum widths

-- The spacing between columns is 0.
unfoldable pub col_x_start : ℕ → List ℕ → ℕ
col_x_start col_idx widths = sum (take col_idx widths)

unfoldable pub col_x_end : ℕ → List ℕ → ℕ
unfolding col_x_start
col_x_end col_idx widths =
    col_x_start col_idx widths
    + elim (get_elem? widths col_idx) [ some w ↦ w | none ↦ default_results_col_width ]

unfoldable pub results_table_width : List ℕ → ℕ
unfolding col_x_end
results_table_width [] = 0
results_table_width (w ∷ widths) = as_u16 (col_x_end (length widths) (w ∷ widths))

-- A sum of two `i16` as a release build computes it.
abbrev pub wrap_i16 : ℤ → ℤ
wrap_i16 (pos n) =
    if ltb (n % 2 ^ 16) (2 ^ 15) then pos (n % 2 ^ 16) else negsuc (2 ^ 16 - 1 - n % 2 ^ 16)
wrap_i16 (negsuc n) = negsuc n

-- `x.clamp(MIN_RESULTS_COL_WIDTH, MAX_RESULTS_COL_WIDTH)` of an `i16`.
unfoldable pub clamp_signed_width : ℤ → ℕ
unfolding clamp_col_width
clamp_signed_width (pos n) = clamp_col_width n
clamp_signed_width (negsuc n) = min_results_col_width

abbrev pub AllWidths : List ℕ → Type 0
AllWidths [] = Unit
AllWidths (w ∷ widths) =
    (min_results_col_width ≤ w) × (w ≤ max_results_col_width) × AllWidths widths

pub clamp_col_width_bounds : (w : ℕ) → (4 ≤ clamp_col_width w) × (clamp_col_width w ≤ 80)
unfolding clamp_col_width
clamp_col_width_bounds w = (ground arith, ground arith)

pub clamp_signed_width_bounds : (z : ℤ) → (4 ≤ clamp_signed_width z) × (clamp_signed_width z ≤ 80)
unfolding clamp_signed_width
clamp_signed_width_bounds (pos n) = clamp_col_width_bounds n
clamp_signed_width_bounds (negsuc n) = (omega arith, omega arith)

widths_from-AllWidths :
    (display_width : Text → ℕ) (rows : List (List Text)) (i : ℕ) (columns : List ColumnInfo)
    → AllWidths (widths_from display_width rows i columns)
unfolding widths_from column_width_for_result results_col_width_for_measured
widths_from-AllWidths display_width rows i [] = tt
widths_from-AllWidths display_width rows i (c ∷ columns) =
    let b = clamp_col_width_bounds (
      sat_add16
        (sat_add16 (min (column_measured_width display_width c rows i) auto_results_col_width_cap)
          1)
        1) in
    (b.0, b.1, widths_from-AllWidths display_width rows (i + 1) columns)

pub init_results_layout-AllWidths :
    (display_width : Text → ℕ) (columns : List ColumnInfo) (rows : List (List Text))
    → AllWidths (init_results_layout display_width columns rows)
unfolding init_results_layout
init_results_layout-AllWidths display_width columns rows =
    widths_from-AllWidths display_width rows 0 columns
