-- ===== src/Viewport/Examples.antt =====
-- The theorems on panes at concrete inputs.
use dbm.Base.{ℕ, ◌+◌, ◌≤◌, ◌<◌, ◌≡◌, arith, min, max, true, false, List, [], ◌∷◌}
use dbm.Viewport.Anchor.{uniform, variable, pane_anchor, top, height_at}
use dbm.Viewport.Window.{pane_anchor_uniform, pane_anchor_variable}

pane_anchor_uniform_example :
    let a = pane_anchor 30 (uniform 1) 10 3 17 false in
    (a.visible ≡ min 30 (max 10 1))
    × (a.start + a.visible ≤ 30)
    × (a.start ≤ a.max_scroll)
    × (a.max_scroll + a.visible ≡ 30)
    × (false ≡ false → (a.start ≤ 17) × (17 < a.start + a.visible))
    × (false ≡ true → a.start ≡ min 3 a.max_scroll)
pane_anchor_uniform_example = pane_anchor_uniform 30 10 3 17 false (omega arith) (omega arith)

abbrev heights : List ℕ
heights = 1 ∷ 3 ∷ 2 ∷ 2 ∷ []

pane_anchor_variable_example :
    let a = pane_anchor 4 (variable heights) 4 1 3 false in
    (1 ≤ a.visible)
    × (a.start + a.visible ≤ 4)
    × (a.start ≤ a.max_scroll)
    × (height_at heights a.start ≤ max 4 1
        → top heights (a.start + a.visible) ≤ top heights a.start + max 4 1)
    × (a.start + a.visible < 4
        → top heights a.start + max 4 1
          < top heights (a.start + a.visible) + height_at heights (a.start + a.visible))
    × (false ≡ true → a.start ≡ min 1 a.max_scroll)
pane_anchor_variable_example =
    pane_anchor_variable 4 4 1 3 heights false (unfold top in omega arith)
