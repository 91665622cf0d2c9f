-- ===== src/Cursor/Examples.antt =====
-- Cursors in a text of two lines with a character of two bytes.
use dbm.Base.{ℕ, ◌≤◌, ◌≡◌, true, [], ◌∷◌, Text, byte_len}
use dbm.Cursor.Offset.{cursor_to_byte_offset, byte_offset_to_cursor, is_char_boundary}
use dbm.Cursor.RoundTrip.{offset_round_trip}

abbrev two_lines : Text
two_lines = b'a' ∷ 0xa ∷ 0xe9 ∷ b'b' ∷ []

-- The byte 3 lies inside the second line's first character.
offset_round_trip_example :
    (cursor_to_byte_offset two_lines (byte_offset_to_cursor two_lines 3) ≤ 3)
    × (is_char_boundary two_lines
          (cursor_to_byte_offset two_lines (byte_offset_to_cursor two_lines 3))
        ≡ true)
    × ((b : ℕ)
        → b ≤ 3
        → b ≤ byte_len two_lines
        → is_char_boundary two_lines b ≡ true
        → b ≤ cursor_to_byte_offset two_lines (byte_offset_to_cursor two_lines 3))
offset_round_trip_example = offset_round_trip two_lines 3
