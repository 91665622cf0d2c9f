-- ===== src/Base/Rect.antt =====
-- A rectangle of terminal cells, with the fields of `ratatui::layout::Rect`.
use Prim.Native.Nat.{ℕ, ◌+◌, ◌≤◌}
use dbm.Base.Words.{u16_max}

pub record Rect : Type 0 where
  pub x : ℕ
  pub y : ℕ
  pub width : ℕ
  pub height : ℕ

-- A rectangle whose far edges are cells of the width u16.
abbrev pub Fits : Rect → Type 0
Fits r = (r.x + r.width ≤ u16_max) × (r.y + r.height ≤ u16_max)

-- One rectangle inside another.
abbrev pub Within : Rect → Rect → Type 0
Within r s =
    (s.x ≤ r.x) × (r.x + r.width ≤ s.x + s.width) × (s.y ≤ r.y) × (r.y + r.height ≤ s.y + s.height)
