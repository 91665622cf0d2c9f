-- ===== src/Viewport/Hit.antt =====
-- Where a pane's scrollbars stand and whether the pointer is on one: pane_scroll_layout,
-- point_in_bar, v_scrollbar_hit and h_scrollbar_hit.
use dbm.Base.{
  ℕ, ◌+◌, ◌-◌, ◌≤◌, ◌<◌, ◌≡◌, inl, inr, Bool, ◌&&◌, Option, none, some, arith, max, ltb, leb, ◌==◌,
  if◌then◌else◌, Bool-cases, sat_add16,
}
use dbm.Base.Rect.{Rect, Fits, Within}

record ScrollbarHitInfo : Type 0 where
  pub track_start : ℕ
  pub track_len : ℕ
  pub max_scroll : ℕ

record PaneScrollLayout : Type 0 where
  content_area : Rect
  h_scrollbar : Option Rect
  v_scrollbar : Option Rect

unfoldable point_in_bar : Rect → ℕ → ℕ → Bool
point_in_bar bar x y =
    ltb 0 bar.width
    && ltb 0 bar.height
    && leb bar.x x
    && ltb x (sat_add16 bar.x bar.width)
    && leb bar.y y
    && ltb y (sat_add16 bar.y bar.height)

unfoldable v_scrollbar_hit : PaneScrollLayout → ℕ → ℕ → ℕ → Option ScrollbarHitInfo
unfolding point_in_bar
v_scrollbar_hit layout most x y = elim layout.v_scrollbar [
  | none ↦ none
  | some bar ↦
      if most == 0
      then none
      else if point_in_bar bar x y
      then some (record { track_start = bar.y; track_len = max bar.height 1; max_scroll = most })
      else none
]

unfoldable h_scrollbar_hit : PaneScrollLayout → ℕ → ℕ → ℕ → Option ScrollbarHitInfo
unfolding point_in_bar
h_scrollbar_hit layout most x y = elim layout.h_scrollbar [
  | none ↦ none
  | some bar ↦
      if most == 0
      then none
      else if point_in_bar bar x y
      then some (record { track_start = bar.x; track_len = max bar.width 1; max_scroll = most })
      else none
]

-- `Layout::split` of the library ratatui with the constraints Min(1) and Length(1), side by side and
-- one below the other. Its documentation promises that the chunks make up the area in order; where
-- there is room for both constraints, the second chunk has the length that it asks for.
pub record Splits : Type 0 where
  pub columns : Rect → Rect × Rect
  pub rows : Rect → Rect × Rect
  pub columns_lem :
      (r : Rect)
      → 2 ≤ r.width
      → columns r ≡ (
        record { x = r.x; y = r.y; width = r.width - 1; height = r.height },
        record { x = r.x + r.width - 1; y = r.y; width = 1; height = r.height },
      )
  pub rows_lem :
      (r : Rect)
      → 2 ≤ r.height
      → rows r ≡ (
        record { x = r.x; y = r.y; width = r.width; height = r.height - 1 },
        record { x = r.x; y = r.y + r.height - 1; width = r.width; height = 1 },
      )

module _ (split : Splits) where
  open split use {columns, rows, columns_lem, rows_lem}

  unfoldable pane_scroll_layout : Rect → ℕ → ℕ → ℕ → PaneScrollLayout
  pane_scroll_layout content content_width row_count viewport_rows =
      let needs_v = ltb viewport_rows row_count && ltb 0 viewport_rows in
      let main = if needs_v then (columns content).0 else content in
      let needs_h = ltb main.width content_width in
      record {
        content_area = if needs_h then (rows main).0 else main;
        h_scrollbar = if needs_h then some (rows main).1 else none;
        v_scrollbar = if needs_v then some (columns content).1 else none;
      }

  -- In a pane of two columns and two rows at least that fits the screen, the content stays inside the
  -- pane. A press hits the vertical bar only where a shown pane has more rows than it shows, in the
  -- pane's last column and right of the content, and the horizontal bar only where the content is wider
  -- than its area, in the pane's last row and below the content; no press hits both, and a drag starts
  -- from the pane's top or left edge.
  pane_scroll_layout_lem :
      (content : Rect) (wide rows_in shown most x y : ℕ)
      → Fits content
      → 2 ≤ content.width
      → 2 ≤ content.height
      → 0 < most
      → let l = pane_scroll_layout content wide rows_in shown in
        Within l.content_area content
        × ((i : ScrollbarHitInfo)
            → v_scrollbar_hit l most x y ≡ some i
            → (shown < rows_in)
              × (x + 1 ≡ content.x + content.width)
              × (l.content_area.x + l.content_area.width ≤ x)
              × (i.track_start ≡ content.y)
              × (h_scrollbar_hit l most x y ≡ none))
        × ((i : ScrollbarHitInfo)
            → h_scrollbar_hit l most x y ≡ some i
            → (l.content_area.width < wide)
              × (y + 1 ≡ content.y + content.height)
              × (l.content_area.y + l.content_area.height ≤ y)
              × (i.track_start ≡ content.x))
  unfolding pane_scroll_layout v_scrollbar_hit h_scrollbar_hit
  pane_scroll_layout_lem content wide rows_in shown most x y fits w h m =
      elim (Bool-cases (ltb shown rows_in && ltb 0 shown)) [
        | inl v ↦
            let main : Rect = record content { width = content.width - 1 } in
            rw (v, columns_lem content w)
              (elim (Bool-cases (ltb (content.width - 1) wide)) [
                | inl over ↦
                    rw (over, rows_lem main h)
                      (
                        (omega arith, omega arith, omega arith, omega arith),
                        λ i e. ground arith,
                        λ i e. ground arith,
                      )
                | inr fit ↦ rw fit (
                  (omega arith, omega arith, omega arith, omega arith),
                  λ i e. ground arith,
                  λ i e. cc,
                )
              ])
        | inr v ↦ rw v (elim (Bool-cases (ltb content.width wide)) [
          | inl over ↦
              rw (over, rows_lem content h)
                (
                  (omega arith, omega arith, omega arith, omega arith),
                  λ i e. cc,
                  λ i e. ground arith,
                )
          | inr fit ↦
              rw fit ((omega arith, omega arith, omega arith, omega arith), λ i e. cc, λ i e. cc)
        ])
      ]
