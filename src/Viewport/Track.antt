-- ===== src/Viewport/Track.antt =====
-- Which scrollbar is dragged, and the pointer's way to an offset: ActiveScrollbar, ScrollbarDrag,
-- scroll_offset_from_track.
use dbm.Base.{
  ℕ, ◌+◌, ◌-◌, ◌*◌, ◌/◌, ◌%◌, ◌^◌, ◌≤◌, ◌<◌, ◌≡◌, ap, sym, subst, inl, inr, false, ◌||◌, arith, min,
  leb, ◌==◌, if◌then◌else◌, Bool-cases, as_u16, mul_u64,
}
use native.Mathlib.Nat

data ActiveScrollbar : Type 0 where
  tree_v : ActiveScrollbar
  tree_h : ActiveScrollbar
  objects_v : ActiveScrollbar
  objects_h : ActiveScrollbar
  results_v : ActiveScrollbar
  results_h : ActiveScrollbar
  results_detail_v : ActiveScrollbar
  history_v : ActiveScrollbar
  history_h : ActiveScrollbar
  history_detail_v : ActiveScrollbar
  sql_v : ActiveScrollbar
  overview_v : ActiveScrollbar
  overview_h : ActiveScrollbar
  discover_targets_v : ActiveScrollbar
  discover_results_v : ActiveScrollbar
  connections_v : ActiveScrollbar

data ScrollAxis : Type 0 where
  horizontal : ScrollAxis
  vertical : ScrollAxis

unfoldable axis : ActiveScrollbar → ScrollAxis
axis tree_h = horizontal
axis objects_h = horizontal
axis results_h = horizontal
axis history_h = horizontal
axis overview_h = horizontal
axis tree_v = vertical
axis objects_v = vertical
axis results_v = vertical
axis results_detail_v = vertical
axis history_v = vertical
axis history_detail_v = vertical
axis sql_v = vertical
axis overview_v = vertical
axis discover_targets_v = vertical
axis discover_results_v = vertical
axis connections_v = vertical

record ScrollbarDrag : Type 0 where
  pub which : ActiveScrollbar
  pub track_start : ℕ
  viewport_len : ℕ
  pub max_scroll : ℕ

unfoldable scroll_offset_from_track : ℕ → ℕ → ℕ → ℕ → ℕ
scroll_offset_from_track pointer track_start track_len max_scroll =
    let denom = track_len - 1 in
    let rel = min (pointer - track_start) (as_u16 (track_len - 1)) in
    if leb track_len 1 || max_scroll == 0
    then 0
    else min (mul_u64 rel max_scroll / denom) max_scroll

unfoldable offset_for_pointer : ScrollbarDrag → ℕ → ℕ → ℕ
offset_for_pointer d x y =
    scroll_offset_from_track (elim (axis d.which) [ horizontal ↦ x | vertical ↦ y ]) d.track_start
      d.viewport_len d.max_scroll

-- The quotient without the wrap.
scroll_offset_from_track-eq :
    (pointer start len most : ℕ)
    → 1 < len
    → len ≤ 2 ^ 16
    → len * most < 2 ^ 64
    → scroll_offset_from_track pointer start len most
      ≡ min (min (pointer - start) (len - 1) * most / (len - 1)) most
unfolding scroll_offset_from_track
scroll_offset_from_track-eq pointer start len most h k fits =
    let rel = min (pointer - start) (len - 1) in
    let narrow : (len - 1) % 2 ^ 16 ≡ len - 1 = omega arith in
    let small : rel * most ≤ len * most = Nat.mul-le-mul_right most (omega arith) in
    let kept : (rel * most) % 2 ^ 64 ≡ rel * most = Nat.mod-eq_of_lt (omega arith) in
    let long : leb len 1 ≡ false = ground arith in
    rw long (elim (Bool-cases (most == 0)) [
      | inl z ↦ ground arith
      | inr z ↦ rw z (
          ap (λ m. min (m / (len - 1)) most)
            (subst (λ l. (min (pointer - start) l * most) % 2 ^ 64 ≡ rel * most) (sym narrow) kept))
    ])

div_mono : (a b d : ℕ) → 0 < d → a ≤ b → a / d ≤ b / d
div_mono a b d pos h = elim (Bool-cases (leb (a / d) (b / d))) [
  | inl le ↦ ground arith
  | inr gt ↦
      let more : d * (b / d + 1) ≤ d * (a / d) = Nat.mul-le-mul_left d (ground arith) in
      let split : d * (b / d + 1) ≡ d * (b / d) + d = grind arith in
      absurd (omega (arith, Nat.mul-div-le a d, Nat.div-add-mod b d, Nat.mod-lt b pos))
]

module _ (most d : ℕ) (pos : 0 < d) where
  start_of_track : (r : ℕ) → r ≡ 0 → min (min r d * most / d) most ≡ 0
  start_of_track r z =
      let none_yet : min r d * most ≡ 0 = grind arith in
      rw none_yet (rw (Nat.zero-div d) (omega arith))

  end_of_track : (r : ℕ) → d ≤ r → min (min r d * most / d) most ≡ most
  end_of_track r past =
      let whole : min r d ≡ d = omega arith in
      rw whole (rw (Nat.mul-div_cancel_left most pos) (omega arith))

  along_track : (r r' : ℕ) → r ≤ r' → min (min r d * most / d) most ≤ min (min r' d * most / d) most
  along_track r r' h =
      let more =
        div_mono (min r d * most) (min r' d * most) d pos
          (Nat.mul-le-mul_right most (omega arith)) in
      omega arith

-- On a track of up to 2^16 cells, of which the product with the largest offset fits in 64 bits, the
-- pointer's offset is at most the largest one, 0 at or before the first cell and the largest at or past
-- the last one of at least two, and it never falls as the pointer moves on.
scroll_offset_from_track_lem :
    (p q start len most : ℕ)
    → len ≤ 2 ^ 16
    → len * most < 2 ^ 64
    → (scroll_offset_from_track p start len most ≤ most)
      × (p ≤ start → scroll_offset_from_track p start len most ≡ 0)
      × (1 < len → start + len ≤ p + 1 → scroll_offset_from_track p start len most ≡ most)
      × (p ≤ q
          → scroll_offset_from_track p start len most ≤ scroll_offset_from_track q start len most)
scroll_offset_from_track_lem p q start len most small fits = elim (Bool-cases (leb len 1)) [
  | inl short ↦ (
    unfold scroll_offset_from_track in ground arith,
    λ h. unfold scroll_offset_from_track in ground arith,
    λ h k. absurd (ground arith),
    λ h. unfold scroll_offset_from_track in ground arith,
  )
  | inr long ↦
      let wide : 1 < len = ground arith in
      rw (scroll_offset_from_track-eq p start len most wide small fits) (
        rw (scroll_offset_from_track-eq q start len most wide small fits) (
          omega arith,
          λ h. start_of_track most (len - 1) (omega arith) (p - start) (omega arith),
          λ _ k. end_of_track most (len - 1) (omega arith) (p - start) (omega arith),
          λ h. along_track most (len - 1) (omega arith) (p - start) (q - start) (omega arith),
        ))
]
