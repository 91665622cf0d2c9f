-- ===== src/Splitter/Geometry.antt =====
-- common/layout/splitter.rs: floors, clamping and the deltas of the keys.
use dbm.Base.{ℕ, ◌+◌, ◌-◌, ◌*◌, ◌/◌, Bool, true, false, Option, ltb, if◌then◌else◌, as_u16, clamp}
use dbm.Base.Int.{ℤ, pos, neg, sub_ℕ, clamp_checked}

unfoldable pub min_rows_for_pct : ℕ → ℕ → ℕ
min_rows_for_pct track_h pct = as_u16 (track_h * pct / 100)

unfoldable pub clamp_split_px : ℕ → ℕ → ℕ → ℕ → ℕ
clamp_split_px px track_h min_top_pct min_bottom_pct =
    let min_top = min_rows_for_pct track_h min_top_pct in
    let min_bottom = min_rows_for_pct track_h min_bottom_pct in
    let most = track_h - (1 + min_bottom) in
    if ltb most min_top then most else clamp px min_top most

-- `grow == focus_is_top`
abbrev pub same : Bool → Bool → Bool
same true b = b
same false b = if b then false else true

unfoldable pub nudge_px_for_focus : ℕ → Bool → Bool → ℕ → ℕ → ℕ → Option ℕ
nudge_px_for_focus px grow focus_is_top min_top max_top step =
    clamp_checked (if same grow focus_is_top then pos (px + step) else sub_ℕ px step) min_top
      max_top

pub data VerticalSplitterNudge : Type 0 where
  left : VerticalSplitterNudge
  right : VerticalSplitterNudge

abbrev pub width_nudge_step : ℤ
width_nudge_step = pos 2

unfoldable width_delta_for_left_pane : VerticalSplitterNudge → ℤ → ℤ
width_delta_for_left_pane right step = step
width_delta_for_left_pane left step = neg step

unfoldable pub width_delta_for_right_pane : VerticalSplitterNudge → ℤ → ℤ
unfolding width_delta_for_left_pane
width_delta_for_right_pane nudge step = neg (width_delta_for_left_pane nudge step)
