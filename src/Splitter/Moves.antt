-- ===== src/Splitter/Moves.antt =====
-- What the keys do to the splitters.
use dbm.Base.{
  ℕ, ◌+◌, ◌-◌, ◌≤◌, ◌≡◌, ◌↔◌, refl, arith, min, max, ◌==◌, if◌then◌else◌, clamp, Bool, true, false,
  not, Option, some,
}
use dbm.Splitter.Geometry.{VerticalSplitterNudge, left, right, same}
use dbm.Splitter.Tab.{
  SqlTabSplitterState, min_history_width, max_history_width, nudge_history_width,
  set_editor_top_height, nudge_editor_top_height,
}

-- What the run loop and the methods keep true: the layout's bounds leave a width and a height that may be
-- stored.
pub record IsValid (s : SqlTabSplitterState) : Type 0 where
  pub wide : min_history_width ≤ s.history_pane_width
  pub not_too_wide : s.history_pane_width ≤ max_history_width
  pub high : 1 ≤ s.editor_top_height
  pub not_too_high : s.editor_top_height ≤ 1000
  pub widths : max s.history_min min_history_width ≤ min s.history_max max_history_width
  pub heights : max s.editor_top_min 1 ≤ min s.editor_top_max 1000

-- A nudge of the History pane in a valid state does not panic, leaves the state valid and the width inside
-- the layout's bounds, changes nothing but the width, and reports a change exactly where the width
-- changed; `[` adds two columns up to the upper bound, and `]` takes two away down to the lower one, from
-- a width that the layout allows.
pub nudge_history_width_lem :
    (s : SqlTabSplitterState) (nudge : VerticalSplitterNudge)
    → IsValid s
    → (s' : SqlTabSplitterState) × (changed : Bool) × (nudge_history_width s nudge
        ≡ some (s', changed))
      × IsValid s'
      × (s.history_min ≤ s'.history_pane_width)
      × (s'.history_pane_width ≤ s.history_max)
      × (s' ≡ record s { history_pane_width = s'.history_pane_width })
      × ((changed ≡ false) ↔ (s'.history_pane_width ≡ s.history_pane_width))
      × (s.history_min ≤ s.history_pane_width
          → s.history_pane_width ≤ s.history_max
          → s'.history_pane_width ≡ elim nudge [
            | left ↦ min (s.history_pane_width + 2) (min s.history_max max_history_width)
            | right ↦ max (s.history_pane_width - 2) (max s.history_min min_history_width)
          ])
unfolding nudge_history_width
nudge_history_width_lem s left v =
    let w =
      clamp (s.history_pane_width + 2) (max s.history_min min_history_width)
        (min s.history_max max_history_width) in
    (
      record s { history_pane_width = w },
      not (s.history_pane_width == w),
      ground arith,
      ground arith,
      ground arith,
      ground arith,
      refl,
      (λ e. ground arith, λ e. ground arith),
      λ a b. ground arith,
    )
nudge_history_width_lem s right v =
    let w =
      clamp (s.history_pane_width - 2) (max s.history_min min_history_width)
        (min s.history_max max_history_width) in
    (
      record s { history_pane_width = w },
      not (s.history_pane_width == w),
      ground arith,
      ground arith,
      ground arith,
      ground arith,
      refl,
      (λ e. ground arith, λ e. ground arith),
      λ a b. ground arith,
    )

-- A move of the height to a bound or by two rows.
abbrev Moves : SqlTabSplitterState → Option (SqlTabSplitterState × Bool) → ℕ → Type 0
Moves s moved target =
    (s' : SqlTabSplitterState) × (changed : Bool) × (moved ≡ some (s', changed))
    × IsValid s'
    × (s.editor_top_min ≤ s'.editor_top_height)
    × (s'.editor_top_height ≤ s.editor_top_max)
    × (s' ≡ record s { editor_top_height = s'.editor_top_height })
    × ((changed ≡ false) ↔ (s'.editor_top_height ≡ s.editor_top_height))
    × (s.editor_top_min ≤ s.editor_top_height
        → s.editor_top_height ≤ s.editor_top_max
        → s'.editor_top_height ≡ target)

moves :
    (s : SqlTabSplitterState) (h target : ℕ)
    → IsValid s
    → max s.editor_top_min 1 ≤ h
    → h ≤ min s.editor_top_max 1000
    → (s.editor_top_min ≤ s.editor_top_height → s.editor_top_height ≤ s.editor_top_max → h ≡ target)
    → Moves s (some (set_editor_top_height s h)) target
unfolding set_editor_top_height
moves s h target v lo hi on = (
  record s { editor_top_height = h },
  not (h == s.editor_top_height),
  ground arith,
  ground arith,
  omega arith,
  omega arith,
  refl,
  (λ e. ground arith, λ e. ground arith),
  on,
)

abbrev at_layout : SqlTabSplitterState → ℕ → ℕ
at_layout s n = clamp n (max s.editor_top_min 1) (min s.editor_top_max 1000)

taller :
    (s : SqlTabSplitterState) (b : Bool)
    → IsValid s
    → nudge_editor_top_height s b b
      ≡ some (set_editor_top_height s (at_layout s (s.editor_top_height + 2)))
unfolding nudge_editor_top_height
taller s true v = ground arith
taller s false v = ground arith

shorter :
    (s : SqlTabSplitterState) (b : Bool)
    → IsValid s
    → nudge_editor_top_height s b (not b)
      ≡ some (set_editor_top_height s (at_layout s (s.editor_top_height - 2)))
unfolding nudge_editor_top_height
shorter s true v = ground arith
shorter s false v = ground arith

-- A nudge of the editor's height in a valid state does not panic, leaves the state valid and the height
-- inside the layout's bounds, changes nothing but the height, and reports a change exactly where the
-- height changed; from a height that the layout allows, `+` with the top pane focused and `-` with the
-- bottom one add two rows up to the upper bound, and the others take two away down to the lower one.
nudge_editor_top_height_lem :
    (s : SqlTabSplitterState) (plus top_focused : Bool)
    → IsValid s
    → (s' : SqlTabSplitterState) × (changed : Bool) × (nudge_editor_top_height s plus top_focused
        ≡ some (s', changed))
      × IsValid s'
      × (s.editor_top_min ≤ s'.editor_top_height)
      × (s'.editor_top_height ≤ s.editor_top_max)
      × (s' ≡ record s { editor_top_height = s'.editor_top_height })
      × ((changed ≡ false) ↔ (s'.editor_top_height ≡ s.editor_top_height))
      × (s.editor_top_min ≤ s.editor_top_height
          → s.editor_top_height ≤ s.editor_top_max
          → s'.editor_top_height ≡ (
              if same plus top_focused
              then min (s.editor_top_height + 2) (min s.editor_top_max 1000)
              else max (s.editor_top_height - 2) (max s.editor_top_min 1)))
nudge_editor_top_height_lem s true true v = rw (taller s true v) (
    moves s (at_layout s (s.editor_top_height + 2)) _ v (ground arith) (ground arith)
      (λ a b. ground arith))
nudge_editor_top_height_lem s false false v = rw (taller s false v) (
    moves s (at_layout s (s.editor_top_height + 2)) _ v (ground arith) (ground arith)
      (λ a b. ground arith))
nudge_editor_top_height_lem s true false v = rw (shorter s true v) (
    moves s (at_layout s (s.editor_top_height - 2)) _ v (ground arith) (ground arith)
      (λ a b. ground arith))
nudge_editor_top_height_lem s false true v = rw (shorter s false v) (
    moves s (at_layout s (s.editor_top_height - 2)) _ v (ground arith) (ground arith)
      (λ a b. ground arith))
