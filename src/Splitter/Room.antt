-- ===== src/Splitter/Room.antt =====
-- Both panes of a split keep their room, and a height survives being stored as a percentage.
use dbm.Base.{
  ℕ, ◌+◌, ◌-◌, ◌*◌, ◌/◌, ◌≤◌, ◌<◌, ◌≡◌, arith, ◌==◌, if◌then◌else◌, clamp, Bool, true, false, none,
  some, min, max,
}
use native.Mathlib.Nat
use dbm.Splitter.Geometry.{clamp_split_px, min_rows_for_pct, nudge_px_for_focus, same}
use dbm.Splitter.Tab.{SqlTabSplitterState, editor_top_pct, set_editor_top_pct}

-- On a track with room for both floors and the splitter, a clamped split leaves the top pane its floor,
-- and the splitter's row and the bottom pane's floor below it; a split that does so is kept, and
-- clamping keeps the order of splits. On any track with room for the splitter and the bottom pane, these
-- keep theirs.
clamp_split_px_lem :
    (px px' track top bottom : ℕ)
    → let p = clamp_split_px px track top bottom in
      (1 + min_rows_for_pct track bottom ≤ track → p + 1 + min_rows_for_pct track bottom ≤ track)
      × (min_rows_for_pct track top + 1 + min_rows_for_pct track bottom ≤ track
          → min_rows_for_pct track top ≤ p)
      × (min_rows_for_pct track top ≤ px → px + 1 + min_rows_for_pct track bottom ≤ track → p ≡ px)
      × (px ≤ px' → p ≤ clamp_split_px px' track top bottom)
unfolding clamp_split_px
clamp_split_px_lem px px' track top bottom =
    (λ h. ground arith, λ h. ground arith, λ h k. ground arith, λ h. ground arith)

-- The percentage and its rows, as the inequalities that determine them.
pct_rows :
    (h track : ℕ)
    → 0 < track
    → (track * (h * 100 / track) ≤ h * 100) × (h * 100 < track * (h * 100 / track) + track)
pct_rows h track pos = (
  Nat.mul-div-le (h * 100) track,
  omega (arith, Nat.div-add-mod (h * 100) track, Nat.mod-lt (h * 100) pos),
)

pct_bounds :
    (h track : ℕ)
    → 0 < track
    → track * 20 ≤ h * 100
    → h * 100 ≤ track * 80
    → (20 ≤ h * 100 / track) × (h * 100 / track ≤ 80)
pct_bounds h track pos low high =
    ((Nat.le-div_iff_mul-le pos).1 (omega arith), Nat.div-le_of_le-mul track high)

-- A height that fills 20% to 80% of a track of at most 100 rows, stored as a percentage and restored on
-- the same track, is the same or one row less.
set_editor_top_pct-editor_top_pct :
    (s s' : SqlTabSplitterState) (track : ℕ)
    → 0 < track
    → track ≤ 100
    → track * 20 ≤ s.editor_top_height * 100
    → s.editor_top_height * 100 ≤ track * 80
    → 1 ≤ s.editor_top_height
    → let r = (set_editor_top_pct s' (editor_top_pct s track) track).editor_top_height in
      (r ≤ s.editor_top_height) × (s.editor_top_height ≤ r + 1)
unfolding editor_top_pct set_editor_top_pct
set_editor_top_pct-editor_top_pct s s' track some_rows short low high one =
    let h = s.editor_top_height in
    let p = h * 100 / track in
    let (least, most) = pct_bounds h track some_rows low high in
    let (below, above) = pct_rows h track some_rows in
    let known : (track == 0) ≡ false = ground arith in
    let kept : clamp p 20 80 ≡ p = ground arith in
    rw (known, kept, kept) (ground arith, ground arith)

-- Bounds that cross are a panic; otherwise a nudge gives a height inside the bounds, which from a height
-- inside them is `step` more, up to the upper bound, where the pane that grows is the focused top one or
-- the one that shrinks is the focused bottom one, and `step` less, down to the lower bound, elsewhere.
nudge_px_for_focus_lem :
    (px : ℕ) (grow focus_is_top : Bool) (min_top max_top step : ℕ)
    → (max_top < min_top → nudge_px_for_focus px grow focus_is_top min_top max_top step ≡ none)
      × (min_top ≤ px
          → px ≤ max_top
          → nudge_px_for_focus px grow focus_is_top min_top max_top step
            ≡ some (
                if same grow focus_is_top
                then min (px + step) max_top
                else max (px - step) min_top))
unfolding nudge_px_for_focus
nudge_px_for_focus_lem px true true min_top max_top step = (λ h. ground arith, λ h k. ground arith)
nudge_px_for_focus_lem px true false min_top max_top step = (λ h. ground arith, λ h k. ground arith)
nudge_px_for_focus_lem px false true min_top max_top step = (λ h. ground arith, λ h k. ground arith)
nudge_px_for_focus_lem px false false min_top max_top step =
    (λ h. ground arith, λ h k. ground arith)
