-- ===== src/Editability/Columns.antt =====
-- The columns of a SELECT list.
use dbm.Base.{
  ℕ, ◌+◌, ◌-◌, Bool, false, not, ◌&&◌, ◌||◌, Option, none, some, List, [], ◌∷◌, ◌++◌, Text,
  is_whitespace, trim, trim_end, length, take, codes, ◌==◌, nat_eq, list_eq, if◌then◌else◌,
}
use dbm.Base.Int.{ℤ, pos, negsuc, shift, sub_ℕ}
use dbm.Editability.Keywords.{after_ignore_case, is_identifier_char, is_inside_word, is_quote}
use dbm.Editability.Identifiers.{
  starts_blank, Identifier, read_identifier, is_empty, parse_qualified_identifier,
  parse_column_alias,
}

pub record EditableQueryColumn : Type 0 where
  pub source_name : Option Text
  pub source_name_quoted : Bool
  pub result_name : Text
  pub expression : Text

record ExpressionAlias : Type 0 where
  pub expression : Text
  pub result_name : Text

abbrev pub last : List Identifier → Option Identifier
last [] = none
last (x ∷ []) = some x
last (x ∷ y ∷ xs) = last (y ∷ xs)

-- An alias that begins at `A` or `a`: the text after `AS`, if that is a word in front of white space.
abbrev after_as : Option ℕ → Text → Option Text
after_as previous s =
    if is_inside_word previous then none else elim (after_ignore_case (codes "AS") s) [
      | none ↦ none
      | some rest ↦ if starts_blank rest then some (trim rest) else none
    ]

abbrev named : Text → Text → Option ExpressionAlias
named expression name =
    if is_empty expression
    then none
    else some (record { expression = expression; result_name = name })

-- `match_indices(['A', 'a'])`: the characters of `s`, after those of `front`; `more` is what the later
-- ones give.
unfoldable alias_from : Text → Option ℕ → Text → Option ExpressionAlias
unfolding after_ignore_case is_identifier_char is_whitespace read_identifier
alias_from front previous [] = none
alias_from front previous (c ∷ s) =
    let more = alias_from (front ++ c ∷ []) (some c) s in
    if not (c == b'A' || c == b'a') then more else elim (after_as previous (c ∷ s)) [
      | none ↦ more
      | some alias ↦ elim (read_identifier alias) [
        | none ↦ none
        | some ident ↦ if not (is_empty ident.rest) then more else named (trim front) ident.value
      ]
    ]

unfoldable parse_expression_alias : Text → Option ExpressionAlias
unfolding alias_from
parse_expression_alias column = alias_from [] none (trim_end column)

unfoldable parse_computed_select_column : Text → Option EditableQueryColumn
unfolding parse_expression_alias
parse_computed_select_column column = elim (parse_expression_alias column) [
  | none ↦ none
  | some alias ↦ some (record {
    source_name = none;
    source_name_quoted = false;
    result_name = alias.result_name;
    expression = alias.expression;
  })
]

abbrev or_name : Option Text → Text → Text
or_name none name = name
or_name (some alias) name = alias

-- The column that an identifier stands for; `s` is the whole text, of which `rest` follows it.
abbrev column_of : Text → Text → Identifier → Option Text → EditableQueryColumn
column_of s rest source alias = record {
  source_name = some source.value;
  source_name_quoted = source.quoted;
  result_name = or_name alias source.value;
  expression = trim (take (length s - length rest) s);
}

unfoldable pub parse_select_column : Text → Option EditableQueryColumn
unfolding parse_computed_select_column parse_qualified_identifier parse_column_alias
parse_select_column s = elim (parse_qualified_identifier s) [
  | none ↦ parse_computed_select_column s
  | some source ↦ elim (parse_column_alias source.rest) [
    | none ↦ parse_computed_select_column s
    | some alias ↦ elim (last source.parts) [
      | none ↦ none
      | some ident ↦ some (column_of s source.rest ident alias)
    ]
  ]
]

-- Does a comma split the list here, and how a character moves the depth and the quote? The depth may
-- fall below zero.
abbrev pub is_zero : ℤ → Bool
is_zero (pos n) = n == 0
is_zero (negsuc n) = false

abbrev minus_one : ℤ → ℤ
minus_one (pos n) = sub_ℕ n 1
minus_one (negsuc n) = negsuc (n + 1)

unfoldable pub depth_after : ℤ → Option ℕ → ℕ → ℤ
depth_after depth quote c = elim quote [
  | some close ↦ depth
  | none ↦ if c == b'(' then shift 1 depth else if c == b')' then minus_one depth else depth
]

unfoldable pub quote_after : Option ℕ → ℕ → Option ℕ
quote_after quote c = elim quote [
  | some close ↦ if c == close then none else some close
  | none ↦ if is_quote c then some c else if c == b'[' then some b']' else none
]

unfoldable pub splits_at : ℤ → Option ℕ → ℕ → Bool
splits_at depth quote c = elim quote [ some close ↦ false | none ↦ c == b',' && is_zero depth ]

-- The pieces of the list; the last one counts only if it is not blank.
unfoldable pub pieces : ℤ → Option ℕ → Text → Text → List Text
unfolding depth_after quote_after splits_at
pieces depth quote current [] = if is_empty (trim current) then [] else trim current ∷ []
pieces depth quote current (c ∷ s) =
    let after = trim current ∷ pieces depth quote [] s in
    let more = pieces (depth_after depth quote c) (quote_after quote c) (current ++ c ∷ []) s in
    if splits_at depth quote c then after else more

-- All of the columns, or none where one cannot be read.
unfoldable pub parse_all : List Text → Option (List EditableQueryColumn)
unfolding parse_select_column
parse_all [] = some []
parse_all (piece ∷ more) = elim (parse_select_column piece) [
  | none ↦ none
  | some column ↦ elim (parse_all more) [ none ↦ none | some columns ↦ some (column ∷ columns) ]
]

unfoldable pub parse_select_columns : Text → List EditableQueryColumn
unfolding pieces parse_all
parse_select_columns body = elim (parse_all (pieces (pos 0) none [] body)) [
  | none ↦ []
  | some columns ↦ columns
]
