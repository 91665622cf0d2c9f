-- ===== src/Editability/Keywords.antt =====
-- Keywords outside of quotes and parentheses. A byte index is the pair of what stands before it and
-- what is left; a keyword is a text of ASCII letters, in upper case.
use dbm.Base.{
  ℕ, ◌+◌, ◌-◌, Bool, true, false, not, ◌&&◌, ◌||◌, Option, none, some, List, [], ◌∷◌, Text,
  is_ascii_alphanumeric, to_ascii_lower, trim_start, ◌==◌, if◌then◌else◌,
}

unfoldable pub is_identifier_char : ℕ → Bool
unfolding is_ascii_alphanumeric
is_identifier_char c = is_ascii_alphanumeric c || c == b'_' || c == b'$'

-- What follows a prefix, up to the case of ASCII letters.
unfoldable pub after_ignore_case : Text → Text → Option Text
unfolding to_ascii_lower
after_ignore_case [] s = some s
after_ignore_case (k ∷ keyword) [] = none
after_ignore_case (k ∷ keyword) (c ∷ s) =
    let rest = after_ignore_case keyword s in
    if to_ascii_lower k == to_ascii_lower c then rest else none

abbrev pub continues : Text → Bool
continues [] = false
continues (c ∷ s) = is_identifier_char c

-- `previous_char(sql, index).is_some_and(is_identifier_char)`
abbrev pub is_inside_word : Option ℕ → Bool
is_inside_word none = false
is_inside_word (some c) = is_identifier_char c

abbrev ends_word : Option Text → Bool
ends_word none = false
ends_word (some s) = not (continues s)

-- The keyword stands at the beginning of `s`, as a word of its own.
unfoldable pub matches_at : Text → Option ℕ → Text → Bool
unfolding after_ignore_case is_identifier_char
matches_at keyword previous s =
    ends_word (after_ignore_case keyword s) && not (is_inside_word previous)

-- The scan's state: how many parentheses are open, and the character that closes an open quote.
pub record Level : Type 0 where
  pub depth : ℕ
  pub quote : Option ℕ

abbrev pub top : Level
top = record { depth = 0; quote = none }

abbrev pub is_quote : ℕ → Bool
is_quote c = c == b'\'' || c == b'"' || c == b'`'

-- A character moves the level, or it is none of the quotes and parentheses.
unfoldable pub step : Level → ℕ → Level
step l c = elim l.quote [
  | some close ↦ if c == close then record l { quote = none } else l
  | none ↦
      if is_quote c
      then record l { quote = some c }
      else if c == b'['
      then record l { quote = some b']' }
      else if c == b'('
      then record l { depth = l.depth + 1 }
      else if c == b')'
      then record l { depth = l.depth - 1 }
      else l
]

abbrev is_open : Option ℕ → Bool
is_open none = false
is_open (some c) = true

-- A keyword may begin here: outside of quotes and parentheses, not at a quote or a parenthesis.
unfoldable pub may_begin : Level → ℕ → Bool
may_begin l c =
    not (is_open l.quote) && not (is_quote c || c == b'[' || c == b'(' || c == b')') && l.depth == 0

abbrev pub push_front : ℕ → Option (Text × Text) → Option (Text × Text)
push_front c none = none
push_front c (some (front, rest)) = some (c ∷ front, rest)

unfoldable pub find_from : Text → Option ℕ → Level → Text → Option (Text × Text)
unfolding matches_at step may_begin
find_from keyword previous l [] = none
find_from keyword previous l (c ∷ s) =
    let more = push_front c (find_from keyword (some c) (step l c) s) in
    if may_begin l c && matches_at keyword previous (c ∷ s) then some ([], c ∷ s) else more

-- From the beginning of the text; `find_top_level_keyword` with another start scans what is left from
-- there, the last character before it being `previous`.
unfoldable pub find_top_level_keyword : Text → Option ℕ → Text → Option (Text × Text)
unfolding find_from
find_top_level_keyword keyword previous s = find_from keyword previous top s

abbrev pub is_found : Option (Text × Text) → Bool
is_found none = false
is_found (some found) = true

unfoldable pub contains_keyword : Text → Text → Bool
unfolding find_top_level_keyword
contains_keyword keyword s = is_found (find_top_level_keyword keyword none s)

unfoldable pub has_top_level_keyword : List Text → Text → Bool
unfolding contains_keyword
has_top_level_keyword [] s = false
has_top_level_keyword (keyword ∷ more) s =
    contains_keyword keyword s || has_top_level_keyword more s

unfoldable pub starts_with_keyword : Text → Text → Bool
unfolding after_ignore_case is_identifier_char
starts_with_keyword keyword s = ends_word (after_ignore_case keyword (trim_start s))
