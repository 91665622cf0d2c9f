-- ===== src/Page/Examples.antt =====
-- The theorems on pages at concrete inputs.
use dbm.Base.{◌+◌, ◌/◌, ◌≤◌, ◌<◌, ◌≡◌, refl, ◌↔◌, true, false, some, arith}
use dbm.Base.Rect.{Rect, Within}
use dbm.Page.Math.{page_count, page_offset}
use dbm.Page.Cover.{page_covers}
use dbm.Page.Scroll.{flips, flips-last, next_page, move_to_row}
use dbm.Page.Toolbar.{layout_pagination_bar}
use dbm.Page.Hits.{layout_pagination_bar_lem, InOrder}

abbrev area : Rect
area = record { x = 2; y = 30; width = 80; height = 1 }

page_covers_example :
    (230 / 100 + 1 ≤ page_count 250 100)
    × (((page_offset 3 100 ≤ 230) × (230 < page_offset 3 100 + 100)) ↔ (3 ≡ 230 / 100 + 1))
page_covers_example =
    page_covers 250 100 230 3 (omega arith) (omega arith) (omega arith) (omega arith)
      (unfold page_count in omega arith)

flips-last_example : flips 4 100 40 true true 1 true 5 ≡ next_page
flips-last_example = flips-last 100 40 1 true true 4 5 (omega arith) (omega arith)

flips_unpaginated : flips 4 100 40 true false 1 false 5 ≡ move_to_row 99
flips_unpaginated = unfold flips in refl

layout_pagination_bar_lem_example :
    let l = layout_pagination_bar area 100 2 (some 250) 100 false true in
    Within l.bar_rect area
    × (l.bar_rect.x + l.bar_rect.width ≡ area.x + area.width)
    × InOrder l.bar_rect.y l.bar_rect.x (l.bar_rect.x + l.bar_rect.width) l.hits
layout_pagination_bar_lem_example =
    layout_pagination_bar_lem area 100 2 100 (some 250) false true (omega arith, omega arith)
      (omega arith) (omega arith)
