-- ===== src/Page/Toolbar.antt =====
-- The pagination toolbar and its popups: `toolbar_pieces`, `layout_pagination_bar`,
-- `popup_above_anchor` and `point_in_rect` of sql_tab/results/pagination.rs.
use dbm.Base.{
  ℕ, ◌+◌, ◌-◌, ◌/◌, Bool, ◌&&◌, Option, none, some, List, [], ◌∷◌, ◌++◌, Text, codes, min, max, ltb,
  leb, ◌==◌, if◌then◌else◌, length, as_u16, sat_add16,
}
use dbm.Base.Decimal.{show}
use dbm.Base.Rect.{Rect}
use dbm.Page.Math.{max_page}

pub data ResultsPaginationHit : Type 0 where
  row_limit : ResultsPaginationHit
  count_total_rows : ResultsPaginationHit
  first_page : ResultsPaginationHit
  prev_page : ResultsPaginationHit
  page_number : ResultsPaginationHit
  next_page : ResultsPaginationHit
  last_page : ResultsPaginationHit

pub record ResultsPaginationLayout : Type 0 where
  pub bar_rect : Rect
  pub hits : List (ResultsPaginationHit × Rect)

pub record ToolbarPiece : Type 0 where
  pub text : Text
  pub hit : Option ResultsPaginationHit

abbrev label : Text → ToolbarPiece
label s = record { text = s; hit = none }

abbrev button : Text → ResultsPaginationHit → ToolbarPiece
button s h = record { text = s; hit = some h }

unfoldable pub toolbar_pieces : ℕ → ℕ → Option ℕ → ℕ → Bool → Bool → List ToolbarPiece
unfolding max_page show
toolbar_pieces limit page total row_count counting show_count_button =
    let page_label : Text = elim (max_page total limit) [
      | some most ↦ codes "[p]" ++ (show page ++ (codes "/" ++ show most))
      | none ↦ codes "[p]" ++ show page
    ] in
    let rows : ℕ = elim total [ some t ↦ t | none ↦ row_count ] in
    label (codes "Total " ++ (show rows ++ codes " rows")) ∷ label (codes " ") ∷ []
    ++ ((if show_count_button
          then button (codes (if counting then "[c]counting…" else "[c]count total rows"))
              count_total_rows
            ∷ []
          else [])
        ++ label (codes "  ")
          ∷ button (show limit ++ codes " [r]rows ▾") row_limit
          ∷ label (codes "  ")
          ∷ button (codes "«") first_page
          ∷ label (codes " ")
          ∷ button (codes "‹") prev_page
          ∷ label (codes " ")
          ∷ button page_label page_number
          ∷ label (codes " ")
          ∷ button (codes "›") next_page
          ∷ label (codes " ")
          ∷ button (codes "»") last_page
          ∷ [])

unfoldable pub text_len : List ToolbarPiece → ℕ
text_len [] = 0
text_len (p ∷ ps) = length p.text + text_len ps

-- The loop over the pieces: `rel` is `rel_x`.
unfoldable pub place_hits : ℕ → ℕ → ℕ → ℕ → List ToolbarPiece → List (ResultsPaginationHit × Rect)
place_hits x y bar_width rel [] = []
place_hits x y bar_width rel (p ∷ ps) =
    let width = as_u16 (length p.text) in
    let rest = place_hits x y bar_width (sat_add16 rel width) ps in
    elim p.hit [
      | none ↦ rest
      | some hit ↦
          if ltb rel bar_width
          then (
            hit,
            record { x = sat_add16 x rel; y = y; width = min width (bar_width - rel); height = 1 },
          )
            ∷ rest
          else rest
    ]

unfoldable pub layout_pagination_bar :
    Rect → ℕ → ℕ → Option ℕ → ℕ → Bool → Bool → ResultsPaginationLayout
unfolding toolbar_pieces text_len place_hits
layout_pagination_bar area limit page total row_count counting show_count_button =
    if area.width == 0
    then record { bar_rect = area; hits = [] }
    else if area.height == 0
    then record { bar_rect = area; hits = [] }
    else (let pieces = toolbar_pieces limit page total row_count counting show_count_button in
        let bar_width = min (as_u16 (text_len pieces)) area.width in
        let bar_x = sat_add16 area.x (area.width - bar_width) in
        record {
          bar_rect = record { x = bar_x; y = area.y; width = bar_width; height = 1 };
          hits = place_hits bar_x area.y bar_width 0 pieces;
        })

unfoldable pub popup_above_anchor : Rect → Rect → ℕ → ℕ → Rect
popup_above_anchor anchor body width height =
    if body.width == 0
    then record { x = 0; y = 0; width = 0; height = 0 }
    else if body.height == 0
    then record { x = 0; y = 0; width = 0; height = 0 }
    else (let width' = min width body.width in
        let height' = min height (max (anchor.y - body.y) 1) in
        record {
          x =
              min (max (sat_add16 anchor.x (anchor.width / 2) - width' / 2) body.x)
                (sat_add16 body.x (body.width - width'));
          y = max (anchor.y - height') body.y;
          width = width';
          height = height';
        })

unfoldable pub point_in_rect : ℕ → ℕ → Rect → Bool
point_in_rect x y rect =
    leb rect.x x
    && leb rect.y y
    && ltb x (sat_add16 rect.x rect.width)
    && ltb y (sat_add16 rect.y rect.height)
