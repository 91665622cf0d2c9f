-- ===== src/Editability/Identifiers.antt =====
-- The readers of identifiers and aliases. A reader returns what is left of the text in place of the
-- byte index at which it stopped.
use dbm.Base.{
  ℕ, zero, suc, Bool, true, false, not, ◌||◌, Option, none, some, List, [], ◌∷◌, Text,
  is_ascii_alphabetic, is_whitespace, trim, trim_start, length, codes, ◌==◌, if◌then◌else◌,
}
use dbm.Editability.Keywords.{after_ignore_case, is_identifier_char}

pub record Identifier : Type 0 where
  pub value : Text
  pub quoted : Bool
  pub rest : Text

abbrev pub is_empty : Text → Bool
is_empty [] = true
is_empty (c ∷ s) = false

-- The text up to the closing character, and what follows it.
unfoldable read_closed : ℕ → Text → Option (Text × Text)
read_closed close [] = none
read_closed close (c ∷ s) =
    let more = read_closed close s in
    if c == close
    then some ([], s)
    else elim more [ none ↦ none | some (value, rest) ↦ some (c ∷ value, rest) ]

abbrev pub closing : ℕ → ℕ
closing first = if first == b'[' then b']' else first

-- The characters of a word, and what follows them.
unfoldable read_word : Text → Text × Text
unfolding is_identifier_char
read_word [] = ([], [])
read_word (c ∷ s) =
    let (value, rest) = read_word s in
    if is_identifier_char c then (c ∷ value, rest) else ([], c ∷ s)

abbrev quoted_identifier : Option (Text × Text) → Option Identifier
quoted_identifier none = none
quoted_identifier (some (value, rest)) = some (record { value = value; quoted = true; rest = rest })

abbrev plain_identifier : ℕ → Text × Text → Option Identifier
plain_identifier first (value, rest) =
    some (record { value = first ∷ value; quoted = false; rest = rest })

-- After the white space.
unfoldable read_first : Text → Option Identifier
unfolding read_closed read_word is_ascii_alphabetic
read_first [] = none
read_first (c ∷ s) =
    if c == b'"' || c == b'`' || c == b'['
    then quoted_identifier (read_closed (closing c) s)
    else if not (is_ascii_alphabetic c || c == b'_')
    then none
    else plain_identifier c (read_word s)

unfoldable pub read_identifier : Text → Option Identifier
unfolding read_first
read_identifier s = read_first (trim_start s)

-- The text is one identifier, and nothing follows.
unfoldable pub whole_identifier : Text → Option Text
unfolding read_identifier
whole_identifier s = elim (read_identifier s) [
  | none ↦ none
  | some ident ↦ if is_empty ident.rest then some ident.value else none
]

-- `text.strip_prefix('.')`
abbrev after_dot : Text → Option Text
after_dot [] = none
after_dot (c ∷ s) = if c == b'.' then some s else none

pub record QualifiedIdentifier : Type 0 where
  pub parts : List Identifier
  pub rest : Text

-- The loop of `parse_qualified_identifier`; each round but the last takes a character.
unfoldable read_parts : ℕ → Text → QualifiedIdentifier
unfolding read_identifier
read_parts zero s = record { parts = []; rest = s }
read_parts (suc fuel) s = elim (read_identifier s) [
  | none ↦ record { parts = []; rest = trim_start s }
  | some ident ↦ elim (after_dot (trim_start ident.rest)) [
    | none ↦ record { parts = ident ∷ []; rest = trim_start ident.rest }
    | some s' ↦
        let more = read_parts fuel s' in record { parts = ident ∷ more.parts; rest = more.rest }
  ]
]

abbrev none_if_no_parts : QualifiedIdentifier → Option QualifiedIdentifier
none_if_no_parts q = elim q.parts [ [] ↦ none | ident ∷ more ↦ some q ]

unfoldable pub parse_qualified_identifier : Text → Option QualifiedIdentifier
unfolding read_parts
parse_qualified_identifier s = none_if_no_parts (read_parts (suc (length s)) s)

abbrev pub starts_blank : Text → Bool
starts_blank [] = false
starts_blank (c ∷ s) = is_whitespace c

unfoldable strip_leading_as : Text → Option Text
unfolding after_ignore_case is_whitespace
strip_leading_as s = elim (after_ignore_case (codes "AS") s) [
  | none ↦ none
  | some rest ↦ if starts_blank rest then some rest else none
]

-- `strip_leading_as(s).unwrap_or(s).trim()`
unfoldable pub alias_text : Text → Text
unfolding strip_leading_as
alias_text s = elim (strip_leading_as s) [ none ↦ trim s | some rest ↦ trim rest ]

-- `none`: the alias cannot be read; `some none`: there is none.
unfoldable pub parse_column_alias : Text → Option (Option Text)
unfolding alias_text whole_identifier
parse_column_alias rest =
    if is_empty (trim rest) then some none else elim (whole_identifier (alias_text (trim rest))) [
      | none ↦ none
      | some alias ↦ some (some alias)
    ]
