-- ===== src/Viewport/Anchor.antt =====
-- The anchored viewport of a pane: RowHeights, PaneAnchor, pane_anchor.
use dbm.Base.{
  ℕ, zero, suc, ◌+◌, ◌-◌, ◌/◌, Bool, ◌&&◌, List, min, max, ltb, leb, ◌==◌, if◌then◌else◌, div_ceil,
  mul_u64, get_or,
}

pub data RowHeights : Type 0 where
  uniform : ℕ → RowHeights
  variable : List ℕ → RowHeights

pub record PaneAnchor : Type 0 where
  pub start : ℕ
  pub max_scroll : ℕ
  pub visible : ℕ

-- `h.get(i).copied().unwrap_or(0)`
abbrev pub height_at : List ℕ → ℕ → ℕ
height_at h i = get_or h i 0

-- `cum[i]`
unfoldable pub top : List ℕ → ℕ → ℕ
top h zero = 0
top h (suc i) = top h i + height_at h i

-- `cum.iter().take_while(|&&top| top <= max_pixel).count()` over the n entries from the i-th on.
unfoldable pub count_tops : List ℕ → ℕ → ℕ → ℕ → ℕ
count_tops h max_pixel i zero = 0
count_tops h max_pixel i (suc n) =
    let rest = count_tops h max_pixel (i + 1) n in if leb (top h i) max_pixel then suc rest else 0

-- The loop that looks for the first top from `lo` on; n is `total - s`.
unfoldable seek : List ℕ → ℕ → ℕ → ℕ → ℕ
seek h lo s zero = s
seek h lo s (suc n) = let rest = seek h lo (s + 1) n in if ltb (top h s) lo then rest else s

-- The loop that counts the steps that fit; n is `total - i`.
unfoldable pub fill : List ℕ → ℕ → ℕ → ℕ → ℕ → ℕ
fill h ext px i zero = 0
fill h ext px i (suc n) =
    let rest = fill h ext (px + height_at h i) (i + 1) n in
    if ltb ext (px + height_at h i) then 0 else suc rest

-- The uniform branch, for a step and an extent of at least 1.
unfoldable uniform_anchor : ℕ → ℕ → ℕ → ℕ → ℕ → Bool → PaneAnchor
uniform_anchor total step ext scroll cursor scroll_locked =
    let max_start = if leb (mul_u64 total step) ext then 0 else total - div_ceil ext step in
    let viewport_units = ext / step in
    let at = min cursor (total - 1) in
    let from = min scroll max_start in
    let pushed =
      if scroll_locked
      then from
      else if ltb at from
      then at
      else if leb (from + viewport_units) at
      then at + 1 - viewport_units
      else from in
    let start = min pushed max_start in
    record { start = start; max_scroll = max_start; visible = min (total - start) viewport_units }

-- Where the unlocked variable branch pushes the window to.
unfoldable pub push : List ℕ → ℕ → ℕ → ℕ → ℕ → ℕ
unfolding top seek
push h total ext from at =
    if ltb (top h at) (top h from)
    then at
    else if ltb (top h from + ext) (top h (at + 1))
    then min (seek h (top h (at + 1) - ext) 0 total) at
    else from

unfoldable pub variable_max_start : List ℕ → ℕ → ℕ → ℕ
unfolding count_tops
variable_max_start h total ext = count_tops h (top h total - ext) 0 (total + 1) - 1

-- The variable branch, for an extent of at least 1.
unfoldable variable_anchor : ℕ → List ℕ → ℕ → ℕ → ℕ → Bool → PaneAnchor
unfolding push variable_max_start fill
variable_anchor total h ext scroll cursor scroll_locked =
    let max_start = variable_max_start h total ext in
    let from = min scroll max_start in
    let pushed = if scroll_locked then from else push h total ext from (min cursor (total - 1)) in
    let start = min pushed max_start in
    let fits = fill h ext 0 start (total - start) in
    record {
      start = start;
      max_scroll = max_start;
      visible = if fits == 0 && ltb start total then 1 else fits;
    }

unfoldable pub pane_anchor : ℕ → RowHeights → ℕ → ℕ → ℕ → Bool → PaneAnchor
unfolding uniform_anchor variable_anchor
pane_anchor total heights content_extent scroll cursor scroll_locked =
    let ext = max content_extent 1 in
    if total == 0 then record { start = 0; max_scroll = 0; visible = 0 } else elim heights [
      | uniform step ↦ uniform_anchor total (max step 1) ext scroll cursor scroll_locked
      | variable h ↦ variable_anchor total h ext scroll cursor scroll_locked
    ]
