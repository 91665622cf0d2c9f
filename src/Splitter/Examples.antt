-- ===== src/Splitter/Examples.antt =====
-- The theorems on splitters at concrete inputs.
use dbm.Base.{◌+◌, ◌≤◌, ◌≡◌, ◌↔◌, arith, min, Bool, false, some}
use dbm.Splitter.Geometry.{left}
use dbm.Splitter.Tab.{SqlTabSplitterState, default, nudge_history_width, max_history_width}
use dbm.Splitter.Moves.{IsValid, nudge_history_width_lem}

default-IsValid : IsValid default
default-IsValid = record {
  wide = omega arith;
  not_too_wide = omega arith;
  high = omega arith;
  not_too_high = omega arith;
  widths = omega arith;
  heights = omega arith;
}

nudge_history_width_lem_example :
    (s' : SqlTabSplitterState) × (changed : Bool) × (nudge_history_width default left
      ≡ some (s', changed))
    × IsValid s'
    × (16 ≤ s'.history_pane_width)
    × (s'.history_pane_width ≤ 200)
    × (s' ≡ record default { history_pane_width = s'.history_pane_width })
    × ((changed ≡ false) ↔ (s'.history_pane_width ≡ 24))
    × (16 ≤ 24 → 24 ≤ 200 → s'.history_pane_width ≡ min (24 + 2) (min 200 max_history_width))
nudge_history_width_lem_example = nudge_history_width_lem default left default-IsValid
