-- ===== src/Cursor/RoundTrip.antt =====
-- From byte offsets to cursors and back.
use dbm.Base.{
  ℕ, zero, suc, ◌+◌, ◌-◌, ◌≡◌, ◌≤◌, ◌<◌, refl, ap, sym, subst, ◌∙◌, min, true, false, some, [], ◌∷◌,
  Text, arith, len_utf8, byte_len, split_at_byte, take, drop, leb, ◌==◌, if-cases, Bool-cases, inl,
  inr, ◌⊎◌,
}
use dbm.Cursor.Offset.{
  Cursor, step, same, offset_from, cursor_to_byte_offset, is_char_boundary, snap, cursor_from,
  byte_offset_to_cursor, ends_line, rest_ends_line, cursor_at_line_end,
}
use dbm.Cursor.Boundary.{
  len_utf8_pos, byte_len-take_le, is_char_boundary-take, take-is_char_boundary, snap_lem,
}

-- The position after a text.
unfoldable walk : Cursor → Text → Cursor
walk at [] = at
walk at (c ∷ s) = walk (step c at) s

abbrev IsAtOrAfter : Cursor → Cursor → Type 0
IsAtOrAfter at c = (at.row < c.row) ⊎ ((c.row ≡ at.row) × (at.col ≤ c.col))

-- A position is not before the one that it was reached from.
walk-ge : (at : Cursor) (p : Text) → IsAtOrAfter at (walk at p)
unfolding walk
walk-ge at [] = inr (refl, omega arith)
walk-ge at (c ∷ p) = elim (Bool-cases (c == 0xa)) [
  | inl newline ↦
      let on : step c at ≡ record { row = at.row + 1; col = 0 } = unfold step in rw newline refl in
      subst (λ d. IsAtOrAfter at (walk d p)) (sym on)
        (elim (walk-ge (record { row = at.row + 1; col = 0 }) p) [
          | inl later ↦ inl (omega arith)
          | inr (same_row, right) ↦ inl (omega arith)
        ])
  | inr other ↦
      let on : step c at ≡ record { row = at.row; col = at.col + 1 } =
        unfold step in rw other refl in
      subst (λ d. IsAtOrAfter at (walk d p)) (sym on)
        (elim (walk-ge (record { row = at.row; col = at.col + 1 }) p) [
          | inl later ↦ inl later
          | inr (same_row, right) ↦ inr (same_row, omega arith)
        ])
]

-- After a character the position is another one.
not_back : (c : ℕ) (at : Cursor) (p : Text) → same at (walk (step c at) p) ≡ false
not_back c at p = elim (Bool-cases (c == 0xa)) [
  | inl newline ↦
      let on : step c at ≡ record { row = at.row + 1; col = 0 } = unfold step in rw newline refl in
      rw on (ground (arith, walk-ge (record { row = at.row + 1; col = 0 }) p))
  | inr other ↦
      let on : step c at ≡ record { row = at.row; col = at.col + 1 } =
        unfold step in rw other refl in
      rw on (ground (arith, walk-ge (record { row = at.row; col = at.col + 1 }) p))
]

cursor_from-walk :
    (n : ℕ) (s : Text) (at : Cursor) (seen : ℕ)
    → cursor_from (seen + byte_len (take n s)) at seen s ≡ walk at (take n s)
unfolding cursor_from walk byte_len
cursor_from-walk zero [] at seen = refl
cursor_from-walk (suc n) [] at seen = refl
cursor_from-walk zero (c ∷ s) at seen = ground arith
cursor_from-walk (suc n) (c ∷ s) at seen =
    let sum : seen + len_utf8 c + byte_len (take n s) ≡ seen + (len_utf8 c + byte_len (take n s)) =
      omega arith in
    if-cases (λ d. d ≡ walk (step c at) (take n s))
      (leb (seen + (len_utf8 c + byte_len (take n s))) seen)
      (λ e. absurd (ground (arith, len_utf8_pos c)))
      λ e.
        subst (λ m. cursor_from m (step c at) (seen + len_utf8 c) s ≡ walk (step c at) (take n s))
          sum (cursor_from-walk n s (step c at) (seen + len_utf8 c))

offset_from-walk :
    (n : ℕ) (s : Text) (at : Cursor) (off : ℕ)
    → offset_from (walk at (take n s)) at off s ≡ off + byte_len (take n s)
unfolding offset_from walk byte_len
offset_from-walk zero [] at off = omega arith
offset_from-walk (suc n) [] at off = omega arith
offset_from-walk zero (c ∷ s) at off = ground arith
offset_from-walk (suc n) (c ∷ s) at off =
    let rest = offset_from-walk n s (step c at) (off + len_utf8 c) in
    if-cases (λ m. m ≡ off + (len_utf8 c + byte_len (take n s)))
      (same at (walk (step c at) (take n s))) (λ e. let other = not_back c at (take n s) in cc)
      λ e. omega (arith, rest)

-- The cursor of a byte offset leads back to the boundary that the offset was snapped to: the greatest
-- boundary of a character that is not past the offset, and not past the end.
pub offset_round_trip :
    (text : Text) (offset : ℕ)
    → (cursor_to_byte_offset text (byte_offset_to_cursor text offset) ≤ offset)
      × (is_char_boundary text (cursor_to_byte_offset text (byte_offset_to_cursor text offset))
          ≡ true)
      × ((b : ℕ)
          → b ≤ offset
          → b ≤ byte_len text
          → is_char_boundary text b ≡ true
          → b ≤ cursor_to_byte_offset text (byte_offset_to_cursor text offset))
unfolding cursor_to_byte_offset byte_offset_to_cursor
offset_round_trip text offset =
    let m = min offset (byte_len text) in
    let origin : Cursor = record { row = 0; col = 0 } in
    let (below, at, most) = snap_lem text m in
    let (n, begins) = take-is_char_boundary text (snap text m) at in
    let cursor : cursor_from (snap text m) origin 0 text ≡ walk origin (take n text) =
      subst (λ k. cursor_from k origin 0 text ≡ walk origin (take n text)) (omega (arith, begins))
        (cursor_from-walk n text origin 0) in
    let back : offset_from (walk origin (take n text)) origin 0 text ≡ snap text m =
      offset_from-walk n text origin 0 ∙ omega (arith, begins) in
    let trip : offset_from (cursor_from (snap text m) origin 0 text) origin 0 text ≡ snap text m =
      ap (λ c. offset_from c origin 0 text) cursor ∙ back in
    rw trip (omega arith, at, λ b h k. most b (omega arith))

offset_from-boundary :
    (cursor at : Cursor) (off : ℕ) (s : Text)
    → (n : ℕ) × (offset_from cursor at off s ≡ off + byte_len (take n s))
unfolding offset_from byte_len
offset_from-boundary cursor at off [] = (0, omega arith)
offset_from-boundary cursor at off (c ∷ s) = elim (Bool-cases (same at cursor)) [
  | inl here ↦ (0, rw here (omega arith))
  | inr on ↦
      let (n, e) = offset_from-boundary cursor (step c at) (off + len_utf8 c) s in
      (suc n, rw on (omega (arith, e)))
]

split_at_byte-take :
    (n : ℕ) (s : Text) → split_at_byte (byte_len (take n s)) s ≡ some (take n s, drop n s)
unfolding split_at_byte byte_len
split_at_byte-take zero [] = refl
split_at_byte-take (suc n) [] = refl
split_at_byte-take zero (c ∷ s) = refl
split_at_byte-take (suc n) (c ∷ s) =
    let len = len_utf8_pos c in
    let past : len_utf8 c + byte_len (take n s) - len_utf8 c ≡ byte_len (take n s) = omega arith in
    let rest : split_at_byte (len_utf8 c + byte_len (take n s) - len_utf8 c) s
        ≡ some (take n s, drop n s) =
      ap (λ m. split_at_byte m s) past ∙ split_at_byte-take n s in
    rw rest (ground arith)

-- Every cursor leads to the boundary after some characters of the text, so that the slice there does
-- not panic; the line ends there where the rest of the text is empty or begins with a new line.
pub cursor_at_line_end_lem :
    (text : Text) (cursor : Cursor)
    → (n : ℕ) × (cursor_to_byte_offset text cursor ≡ byte_len (take n text))
      × (cursor_at_line_end text cursor ≡ some (ends_line (drop n text)))
unfolding cursor_to_byte_offset cursor_at_line_end
cursor_at_line_end_lem text cursor =
    let (n, e) = offset_from-boundary cursor (record { row = 0; col = 0 }) 0 text in
    let at : offset_from cursor (record { row = 0; col = 0 }) 0 text ≡ byte_len (take n text) =
      omega (arith, e) in
    (
      n,
      at,
      ap (λ m. rest_ends_line (split_at_byte m text)) at
          ∙ ap rest_ends_line (split_at_byte-take n text),
    )

-- The position after the first characters of a text leads to the byte after them, and from there back to
-- the position.
cursor_round_trip :
    (text : Text) (n : ℕ)
    → (cursor_to_byte_offset text (walk (record { row = 0; col = 0 }) (take n text))
        ≡ byte_len (take n text))
      × (byte_offset_to_cursor text (byte_len (take n text))
          ≡ walk (record { row = 0; col = 0 }) (take n text))
unfolding cursor_to_byte_offset byte_offset_to_cursor
cursor_round_trip text n =
    let b = byte_len (take n text) in
    let (below, at, most) = snap_lem text b in
    let inside = byte_len-take_le n text in
    let near : min b (byte_len text) ≡ b = omega arith in
    let greatest : snap text b ≡ 0 + b =
      omega (arith, most b (omega arith) (is_char_boundary-take n text)) in
    let kept : snap text (min b (byte_len text)) ≡ 0 + b = ap (snap text) near ∙ greatest in
    (
      offset_from-walk n text (record { row = 0; col = 0 }) 0 ∙ omega arith,
      ap (λ m. cursor_from m (record { row = 0; col = 0 }) 0 text) kept
          ∙ cursor_from-walk n text (record { row = 0; col = 0 }) 0,
    )
