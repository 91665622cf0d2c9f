-- ===== src/Cursor/Offset.antt =====
-- Cursors and byte offsets: the functions of cursor.rs. A column counts characters.
use dbm.Base.{
  ℕ, zero, suc, ◌+◌, ◌-◌, min, Bool, true, false, ◌&&◌, Option, none, some, [], ◌∷◌, Text, len_utf8,
  byte_len, split_at_byte, ltb, leb, ◌==◌, if◌then◌else◌,
}

pub record Cursor : Type 0 where
  pub row : ℕ
  pub col : ℕ

-- The position after a character.
unfoldable pub step : ℕ → Cursor → Cursor
step ch c =
    if ch == 0xa
    then record { row = c.row + 1; col = 0 }
    else record { row = c.row; col = c.col + 1 }

abbrev pub same : Cursor → Cursor → Bool
same c d = c.row == d.row && c.col == d.col

-- The loop of `cursor_to_byte_offset`, at the position `at` and the byte `byte_offset`.
unfoldable pub offset_from : Cursor → Cursor → ℕ → Text → ℕ
unfolding step len_utf8
offset_from cursor at byte_offset [] = byte_offset
offset_from cursor at byte_offset (ch ∷ s) =
    let rest = offset_from cursor (step ch at) (byte_offset + len_utf8 ch) s in
    if same at cursor then byte_offset else rest

unfoldable pub cursor_to_byte_offset : Text → Cursor → ℕ
unfolding offset_from
cursor_to_byte_offset text cursor = offset_from cursor (record { row = 0; col = 0 }) 0 text

-- `str::is_char_boundary`
unfoldable pub is_char_boundary : Text → ℕ → Bool
unfolding len_utf8
is_char_boundary [] n = n == 0
is_char_boundary (c ∷ s) n =
    let rest = is_char_boundary s (n - len_utf8 c) in
    if n == 0 then true else if ltb n (len_utf8 c) then false else rest

-- The loop that goes down to a boundary.
unfoldable pub snap : Text → ℕ → ℕ
unfolding is_char_boundary
snap text zero = zero
snap text (suc n) = let rest = snap text n in if is_char_boundary text (suc n) then suc n else rest

-- The loop of `byte_offset_to_cursor`, at the position `at` and after `bytes_seen` bytes.
unfoldable pub cursor_from : ℕ → Cursor → ℕ → Text → Cursor
unfolding step len_utf8
cursor_from offset at bytes_seen [] = at
cursor_from offset at bytes_seen (ch ∷ s) =
    let rest = cursor_from offset (step ch at) (bytes_seen + len_utf8 ch) s in
    if leb offset bytes_seen then at else rest

unfoldable pub byte_offset_to_cursor : Text → ℕ → Cursor
unfolding snap byte_len cursor_from
byte_offset_to_cursor text offset =
    cursor_from (snap text (min offset (byte_len text))) (record { row = 0; col = 0 }) 0 text

-- The next character ends the line, or there is none.
abbrev pub ends_line : Text → Bool
ends_line [] = true
ends_line (c ∷ s) = c == 0xa

abbrev pub rest_ends_line : Option (Text × Text) → Option Bool
rest_ends_line none = none
rest_ends_line (some (front, back)) = some (ends_line back)

-- A slice inside a character, or past the end, panics.
unfoldable pub cursor_at_line_end : Text → Cursor → Option Bool
unfolding cursor_to_byte_offset split_at_byte
cursor_at_line_end text cursor =
    rest_ends_line (split_at_byte (cursor_to_byte_offset text cursor) text)
