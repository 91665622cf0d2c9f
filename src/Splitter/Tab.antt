-- ===== src/Splitter/Tab.antt =====
-- splitter/state.rs: the History pane's width and the height of the editor's row.
use dbm.Base.{
  ℕ, ◌*◌, ◌/◌, Bool, true, false, not, Option, none, some, min, max, ◌==◌, if◌then◌else◌, clamp,
}
use dbm.Base.Int.{neg, shift, clamp_checked}
use dbm.Splitter.Geometry.{VerticalSplitterNudge, width_nudge_step, width_delta_for_right_pane}

abbrev pub min_history_width : ℕ
min_history_width = 16

abbrev pub max_history_width : ℕ
max_history_width = 200

abbrev default_history_width : ℕ
default_history_width = 24

abbrev default_editor_top_height : ℕ
default_editor_top_height = 18

pub record SqlTabSplitterState : Type 0 where
  pub history_pane_width : ℕ
  pub editor_top_height : ℕ
  pub editor_top_min : ℕ
  pub editor_top_max : ℕ
  pub history_min : ℕ
  pub history_max : ℕ

abbrev pub default : SqlTabSplitterState
default = record {
  history_pane_width = default_history_width;
  editor_top_height = default_editor_top_height;
  editor_top_min = 1;
  editor_top_max = 200;
  history_min = min_history_width;
  history_max = max_history_width;
}

unfoldable set_history_pane_width : SqlTabSplitterState → ℕ → SqlTabSplitterState
set_history_pane_width s width = record s {
  history_pane_width = clamp width min_history_width max_history_width;
}

unfoldable pub nudge_history_width :
    SqlTabSplitterState → VerticalSplitterNudge → Option (SqlTabSplitterState × Bool)
unfolding set_history_pane_width width_delta_for_right_pane
nudge_history_width s nudge =
    let delta = width_delta_for_right_pane nudge width_nudge_step in
    let lo = max s.history_min min_history_width in
    let hi = min s.history_max max_history_width in
    elim (clamp_checked (shift s.history_pane_width delta) lo hi) [
      | none ↦ none
      | some next ↦ some (set_history_pane_width s next, not (s.history_pane_width == next))
    ]

unfoldable pub set_editor_top_height : SqlTabSplitterState → ℕ → SqlTabSplitterState × Bool
set_editor_top_height s height =
    if clamp height 1 1000 == s.editor_top_height
    then (s, false)
    else (record s { editor_top_height = clamp height 1 1000 }, true)

unfoldable pub editor_top_pct : SqlTabSplitterState → ℕ → ℕ
editor_top_pct s track_h =
    if track_h == 0 then 20 else clamp (s.editor_top_height * 100 / track_h) 20 80

unfoldable pub set_editor_top_pct : SqlTabSplitterState → ℕ → ℕ → SqlTabSplitterState
set_editor_top_pct s pct track_h = record s {
  editor_top_height = clamp (track_h * clamp pct 20 80 / 100) 1 1000;
}

-- The numbers here stay below 2^15, where the casts to i16 keep them: the height by
-- `set_editor_top_height`, and the upper bound by its minimum with 1000. The lower bound is a number of
-- rows of a terminal.
unfoldable pub nudge_editor_top_height :
    SqlTabSplitterState → Bool → Bool → Option (SqlTabSplitterState × Bool)
unfolding set_editor_top_height
nudge_editor_top_height s plus top_focused =
    let grow_top = if plus then top_focused else not top_focused in
    let delta = if grow_top then width_nudge_step else neg width_nudge_step in
    let lo = max s.editor_top_min 1 in
    let hi = min s.editor_top_max 1000 in
    elim (clamp_checked (shift s.editor_top_height delta) lo hi) [
      | none ↦ none
      | some next ↦ some (set_editor_top_height s next)
    ]
