-- ===== src/Page/Hits.antt =====
-- Where the toolbar's clickable regions and the popups stand: proofs about Page/Toolbar.antt.
use dbm.Base.{
  ℕ, ◌+◌, ◌-◌, ◌≤◌, ◌<◌, ◌≡◌, refl, ◌↔◌, inl, inr, Bool, true, false, Option, List, [], ◌∷◌, arith,
  min, ltb, ◌==◌, Option-cases, if-cases, subst, length, as_u16, sat_add16, u16_max,
}
use dbm.Base.Rect.{Rect, Fits, Within}
use dbm.Page.Toolbar.{
  ResultsPaginationHit, ToolbarPiece, toolbar_pieces, text_len, place_hits, layout_pagination_bar,
  popup_above_anchor, point_in_rect,
}

-- The regions stand in row y, between the columns lo and hi, each one to the right of those before.
abbrev pub InOrder : ℕ → ℕ → ℕ → List (ResultsPaginationHit × Rect) → Type 0
InOrder y lo hi [] = Unit {0}
InOrder y lo hi ((h, r) ∷ hits) =
    (r.y ≡ y)
    × (r.height ≡ 1)
    × (lo ≤ r.x)
    × (r.x + r.width ≤ hi)
    × InOrder y (r.x + r.width) hi hits

InOrder-le :
    (y hi : ℕ) {lo lo' : ℕ} (hits : List (ResultsPaginationHit × Rect))
    → lo ≤ lo'
    → InOrder y lo' hi hits
    → InOrder y lo hi hits
InOrder-le y hi [] h o = tt
InOrder-le y hi ((k, r) ∷ hits) h (a, b, c, d, e) = (a, b, omega arith, d, e)

place_hits-InOrder :
    (x y w rel : ℕ) (ps : List ToolbarPiece)
    → x + w ≤ u16_max
    → rel ≤ u16_max
    → InOrder y (x + rel) (x + w) (place_hits x y w rel ps)
unfolding place_hits
place_hits-InOrder x y w rel [] h k = tt
place_hits-InOrder x y w rel (p ∷ ps) h k =
    let width = as_u16 (length p.text) in
    let rest = place_hits-InOrder x y w (sat_add16 rel width) ps h (omega arith) in
    elim (Option-cases p.hit) [
      | inl e ↦ rw e (InOrder-le y (x + w) _ (omega arith) rest)
      | inr (hit, e) ↦ rw e (
          if-cases (InOrder y (x + rel) (x + w)) (ltb rel w)
            (λ in_bar.
              let room : rel < w = ground arith in
              (refl, refl, omega arith, omega arith, InOrder-le y (x + w) _ (omega arith) rest))
            (λ past.
              let full : w ≤ rel = ground arith in InOrder-le y (x + w) _ (omega arith) rest))
    ]

-- The bar lies inside a non-empty area that fits the screen, ends at its right edge, and its clickable
-- regions lie inside the bar, from left to right, and do not overlap.
pub layout_pagination_bar_lem :
    (area : Rect) (limit page row_count : ℕ) (total : Option ℕ) (counting show_count : Bool)
    → Fits area
    → 0 < area.width
    → 0 < area.height
    → let l = layout_pagination_bar area limit page total row_count counting show_count in
      Within l.bar_rect area
      × (l.bar_rect.x + l.bar_rect.width ≡ area.x + area.width)
      × InOrder l.bar_rect.y l.bar_rect.x (l.bar_rect.x + l.bar_rect.width) l.hits
unfolding layout_pagination_bar
layout_pagination_bar_lem area limit page row_count total counting show_count fits w h =
    let pieces = toolbar_pieces limit page total row_count counting show_count in
    let bar_width = min (as_u16 (text_len pieces)) area.width in
    let bar_x = sat_add16 area.x (area.width - bar_width) in
    let wide : (area.width == 0) ≡ false = ground arith in
    let high : (area.height == 0) ≡ false = ground arith in
    let first : bar_x + 0 ≡ bar_x = omega arith in
    rw wide (
      rw high (
        omega arith,
        omega arith,
        subst
            (λ lo.
              InOrder area.y lo (bar_x + bar_width) (place_hits bar_x area.y bar_width 0 pieces))
            first (place_hits-InOrder bar_x area.y bar_width 0 pieces (omega arith) (omega arith)),
      ))

-- A popup lies inside a non-empty body that fits the screen, from its left edge to its right one and
-- from its top down; it ends above the anchor where the anchor is below the body's first row; and it is
-- never larger than asked for.
popup_above_anchor_lem :
    (anchor body : Rect) (width height : ℕ)
    → Fits body
    → 0 < body.width
    → 0 < body.height
    → let p = popup_above_anchor anchor body width height in
      (body.x ≤ p.x)
      × (p.x + p.width ≤ body.x + body.width)
      × (body.y ≤ p.y)
      × (body.y < anchor.y → p.y + p.height ≤ anchor.y)
      × (anchor.y ≤ body.y + body.height → p.y + p.height ≤ body.y + body.height)
      × (p.width ≤ width)
      × (p.height ≤ height)
unfolding popup_above_anchor
popup_above_anchor_lem anchor body width height fits w h =
    let wide : (body.width == 0) ≡ false = ground arith in
    let high : (body.height == 0) ≡ false = ground arith in
    rw wide (
      rw high (
        omega arith,
        omega arith,
        omega arith,
        λ k. omega arith,
        λ k. omega arith,
        omega arith,
        omega arith,
      ))

-- A point is in a rectangle that fits the screen exactly where both its coordinates are in range.
point_in_rect_iff :
    (x y : ℕ) (r : Rect)
    → Fits r
    → (point_in_rect x y r ≡ true)
      ↔ ((r.x ≤ x) × (x < r.x + r.width) × (r.y ≤ y) × (y < r.y + r.height))
unfolding point_in_rect
point_in_rect_iff x y r fits = (λ h. ground arith, λ h. ground arith)
