-- ===== src/Editability/Analyze.antt =====
-- The source of a query, and the analysis as a whole.
use dbm.Base.{
  ℕ, Bool, true, false, not, ◌&&◌, ◌||◌, Option, none, some, List, [], ◌∷◌, Text, codes, any, drop,
  eq_ignore_ascii_case, trim, trim_start, ◌==◌, ◌=?◌, ltb, length, nat_eq, list_eq, if◌then◌else◌,
}
use dbm.Editability.Comments.{normalize_editable_sql}
use dbm.Editability.Keywords.{
  find_top_level_keyword, is_found, contains_keyword, has_top_level_keyword, starts_with_keyword,
}
use dbm.Editability.Identifiers.{
  Identifier, read_identifier, is_empty, whole_identifier, parse_qualified_identifier, alias_text,
}
use dbm.Editability.Columns.{EditableQueryColumn, parse_select_columns}

pub record EditableQueryInfo : Type 0 where
  pub schema : Option Text
  pub schema_quoted : Bool
  pub table_name : Text
  pub table_name_quoted : Bool
  pub table_alias : Option Text
  pub select_star : Bool
  pub columns : List EditableQueryColumn

pub data EditabilityReason : Type 0 where
  not_select cte set_operation aggregation external_source complex_source : EditabilityReason
  computed_columns no_table no_primary_key primary_key_not_returned : EditabilityReason
  metadata_unavailable : EditabilityReason

pub record QueryEditability : Type 0 where
  pub editable : Bool
  pub analysis : Option EditableQueryInfo
  pub reason : Option EditabilityReason

pub record FromSource : Type 0 where
  pub schema : Option Text
  pub schema_quoted : Bool
  pub table_name : Text
  pub table_name_quoted : Bool
  pub alias : Option Text

abbrev pub not_editable : EditabilityReason → QueryEditability
not_editable reason = record { editable = false; analysis = none; reason = some reason }

abbrev is_char : ℕ → ℕ → Bool
is_char a b = a == b

unfoldable pub contains_char : ℕ → Text → Bool
unfolding any
contains_char c s = any (is_char c) s

-- After the opening quote of a source in single quotes: a closing quote, and at most an alias.
unfoldable ends_quoted_source : Text → Bool
unfolding whole_identifier alias_text
ends_quoted_source [] = false
ends_quoted_source (c ∷ []) = c == b'\''
ends_quoted_source (c ∷ d ∷ s) =
    let over = ends_quoted_source s in
    let more = ends_quoted_source (d ∷ s) in
    if not (c == b'\'')
    then more
    else if d == b'\''
    then over
    else if is_empty (trim (d ∷ s))
    then true
    else elim (whole_identifier (alias_text (trim (d ∷ s)))) [ none ↦ false | some alias ↦ true ]

unfoldable is_single_quoted_source_with_optional_alias : Text → Bool
unfolding ends_quoted_source
is_single_quoted_source_with_optional_alias [] = false
is_single_quoted_source_with_optional_alias (c ∷ s) = c == b'\'' && ends_quoted_source s

abbrev starts_paren : Text → Bool
starts_paren [] = false
starts_paren (c ∷ s) = c == b'('

unfoldable starts_with_table_function : Text → Bool
unfolding read_identifier
starts_with_table_function s = elim (read_identifier s) [
  | none ↦ false
  | some ident ↦ starts_paren (trim_start ident.rest)
]

unfoldable pub is_external_from_source : Text → Bool
unfolding is_single_quoted_source_with_optional_alias starts_with_table_function
is_external_from_source body =
    is_single_quoted_source_with_optional_alias (trim body)
    || starts_with_table_function (trim body)

-- One name, or a schema and a name.
abbrev source_of : List Identifier → Option Text → Option FromSource
source_of (table ∷ []) alias = some (record {
  schema = none;
  schema_quoted = false;
  table_name = table.value;
  table_name_quoted = table.quoted;
  alias = alias;
})
source_of (schema ∷ table ∷ []) alias = some (record {
  schema = some schema.value;
  schema_quoted = schema.quoted;
  table_name = table.value;
  table_name_quoted = table.quoted;
  alias = alias;
})
source_of _ alias = none

abbrev some_alias : List Identifier → Option Text → Option FromSource
some_alias parts none = none
some_alias parts (some alias) = source_of parts (some alias)

unfoldable pub parse_from_source : Text → Option FromSource
unfolding contains_char contains_keyword parse_qualified_identifier whole_identifier alias_text
parse_from_source body =
    if is_empty body
      || contains_char b',' body
      || contains_char b'(' body
      || contains_char b')' body
      || contains_keyword (codes "JOIN") body
    then none
    else elim (parse_qualified_identifier body) [
      | none ↦ none
      | some ident ↦
          if is_empty (trim ident.rest)
          then source_of ident.parts none
          else some_alias ident.parts (whole_identifier (alias_text (trim ident.rest)))
    ]

-- `split_once('.')`
unfoldable pub split_dot : Text → Option (Text × Text)
split_dot [] = none
split_dot (c ∷ s) =
    let more = split_dot s in
    if c == b'.'
    then some ([], s)
    else elim more [ none ↦ none | some (prefix, suffix) ↦ some (c ∷ prefix, suffix) ]

abbrev pub star : Text
star = codes "*"

unfoldable pub is_select_star : Text → Option Text → Bool
unfolding split_dot eq_ignore_ascii_case
is_select_star body alias = if trim body =? star then true else elim alias [
  | none ↦ false
  | some name ↦ elim (split_dot (trim body)) [
    | none ↦ false
    | some (prefix, suffix) ↦ eq_ignore_ascii_case (trim prefix) name && trim suffix =? star
  ]
]

-- The text up to the first of the keywords that end a FROM clause; `previous` stands before it.
abbrev pub clause_ends : List Text
clause_ends = codes "WHERE" ∷ codes "ORDER" ∷ codes "LIMIT" ∷ codes "OFFSET" ∷ codes "FETCH" ∷ []

abbrev pub shorter : Option (Text × Text) → Text → Text
shorter none s = s
shorter (some (front, rest)) s = if ltb (length front) (length s) then front else s

unfoldable pub before_keywords : List Text → Option ℕ → Text → Text
unfolding find_top_level_keyword
before_keywords [] previous s = s
before_keywords (keyword ∷ more) previous s =
    shorter (find_top_level_keyword keyword previous s) (before_keywords more previous s)

abbrev pub info_of : FromSource → Bool → List EditableQueryColumn → QueryEditability
info_of source star_list columns = record {
  editable = true;
  analysis = some (record {
    schema = source.schema;
    schema_quoted = source.schema_quoted;
    table_name = source.table_name;
    table_name_quoted = source.table_name_quoted;
    table_alias = source.alias;
    select_star = star_list;
    columns = columns;
  });
  reason = none;
}

-- The last part: the columns of the list `select_body` over a source.
unfoldable pub analyze_columns : Text → FromSource → QueryEditability
unfolding is_select_star parse_select_columns
analyze_columns select_body source =
    let columns = parse_select_columns select_body in
    if is_select_star select_body source.alias then info_of source true [] else elim columns [
      | [] ↦ not_editable computed_columns
      | column ∷ more ↦ info_of source false (column ∷ more)
    ]

-- A query with the list `select_body` between SELECT and FROM, and `body` after FROM, whose last
-- character is `previous`.
unfoldable pub analyze_parts : Text → Option ℕ → Text → QueryEditability
unfolding starts_with_keyword find_top_level_keyword before_keywords is_external_from_source
    parse_from_source analyze_columns
analyze_parts select_body previous body =
    let from_body = trim (before_keywords clause_ends previous body) in
    if starts_with_keyword (codes "DISTINCT") select_body
    then not_editable aggregation
    else if is_found (find_top_level_keyword (codes "GROUP") previous body)
        || is_found (find_top_level_keyword (codes "HAVING") previous body)
    then not_editable aggregation
    else if is_external_from_source from_body
    then not_editable external_source
    else elim (parse_from_source from_body) [
      | none ↦ not_editable complex_source
      | some source ↦ analyze_columns select_body source
    ]

-- The last of the four letters of FROM in the text.
abbrev pub fourth : Text → Option ℕ
fourth (a ∷ b ∷ c ∷ d ∷ s) = some d
fourth _ = none

abbrev pub set_operations : List Text
set_operations = codes "UNION" ∷ codes "INTERSECT" ∷ codes "EXCEPT" ∷ []

-- Of a normalised query.
unfoldable pub analyze_normalized : Text → QueryEditability
unfolding starts_with_keyword has_top_level_keyword contains_char find_top_level_keyword
    analyze_parts
analyze_normalized s =
    if is_empty s
    then not_editable not_select
    else if starts_with_keyword (codes "WITH") s
    then not_editable cte
    else if not (starts_with_keyword (codes "SELECT") s)
    then not_editable not_select
    else if has_top_level_keyword set_operations s
    then not_editable set_operation
    else if contains_char b';' s
    then not_editable complex_source
    else elim (find_top_level_keyword (codes "FROM") none s) [
      | none ↦ not_editable no_table
      | some (front, rest) ↦ analyze_parts (trim (drop 6 front)) (fourth rest) (drop 4 rest)
    ]

unfoldable pub analyze_editable_query_editability : Text → QueryEditability
unfolding normalize_editable_sql analyze_normalized
analyze_editable_query_editability sql = analyze_normalized (normalize_editable_sql sql)
