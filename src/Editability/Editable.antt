-- ===== src/Editability/Editable.antt =====
-- What an editable query is, and what unlocks the editing of its result.
use dbm.Base.{
  ℕ, ◌≡◌, ◌≢◌, ◌⊎◌, refl, subst, true, false, not, ◌||◌, Option, none, some, List, [], ◌∷◌, Text,
  codes, trim, drop, arith, if-cases, inl, inr,
}
use dbm.Editability.Comments.{normalize_editable_sql}
use dbm.Editability.Keywords.{
  find_top_level_keyword, is_found, starts_with_keyword, has_top_level_keyword,
}
use dbm.Editability.Identifiers.{is_empty}
use dbm.Editability.Columns.{EditableQueryColumn, parse_select_columns}
use dbm.Editability.Analyze
use dbm.Editability.Analyze.{
  QueryEditability, EditableQueryInfo, EditabilityReason, FromSource,
  analyze_editable_query_editability, analyze_normalized, analyze_parts, analyze_columns,
  contains_char, set_operations, is_select_star, not_editable, fourth, info_of, before_keywords,
  clause_ends, is_external_from_source, parse_from_source,
}
use dbm.Editability.Toplevel.{
  Never, Finds, NoneOf, NoneOf-not_found, Never-not_found, find_top_level_keyword-Finds,
}
use dbm.Editability.Places.{Without}
use dbm.Editability.Standing.{StartsWith, starts_with_keyword_iff}
use dbm.Editability.Tables.{
  IsUpTo, IsSingle, before_keywords-IsUpTo, parse_from_source-IsSingle, contains_char-Without,
}
use dbm.Editability.Lists.{IsStar, IsRead, is_select_star-IsStar, parse_select_columns-IsRead}

-- Where the query is editable, `P` holds of the analysis.
abbrev IfEditable : (EditableQueryInfo → Type 0) → QueryEditability → Type 0
IfEditable P q = q.editable ≡ true → (info : EditableQueryInfo) × (q.analysis ≡ some info) × P info

-- The list between SELECT and FROM is the star, or each of its columns was read.
abbrev HasColumns : Text → EditableQueryInfo → Type 0
HasColumns body info =
    ((info.select_star ≡ true) × IsStar body info.table_alias)
    ⊎ ((info.select_star ≡ false) × (info.columns ≢ []) × IsRead body info.columns)

-- The table is that of the source.
abbrev IsOf : FromSource → EditableQueryInfo → Type 0
IsOf source info =
    (info.schema ≡ source.schema)
    × (info.table_name ≡ source.table_name)
    × (info.table_alias ≡ source.alias)

refused :
    (P : EditableQueryInfo → Type 0) (reason : EditabilityReason)
    → IfEditable P (not_editable reason)
refused P reason e = cc

-- Among several columns, or none.
listed :
    (body : Text) (source : FromSource) (columns : List EditableQueryColumn)
    → (columns ≢ [] → IsRead body columns)
    → IfEditable
        (λ info. IsOf source info × HasColumns body info)
        (elim columns as (λ l. QueryEditability) [
          | [] ↦ not_editable Analyze.computed_columns
          | column ∷ more ↦ info_of source false (column ∷ more)
        ])
listed body source [] read e = cc
listed body source (column ∷ more) read e =
    let full : (column ∷ more) ≢ [] = λ none_left. cc in
    (_, refl, ((refl, refl, refl), inr (refl, full, read full)))

columns-IfEditable :
    (body : Text) (source : FromSource)
    → IfEditable (λ info. IsOf source info × HasColumns body info) (analyze_columns body source)
unfolding analyze_columns
columns-IfEditable body source =
    if-cases (IfEditable (λ info. IsOf source info × HasColumns body info))
      (is_select_star body source.alias)
      (λ star_list e. (
        _,
        refl,
        ((refl, refl, refl), inl (refl, is_select_star-IsStar body source.alias star_list)),
      ))
      (λ no_star. listed body source (parse_select_columns body) (parse_select_columns-IsRead body))

-- The part of `body` up to the next clause is one table, and read as such.
abbrev HasTable : Option ℕ → Text → EditableQueryInfo → Type 0
HasTable previous body info =
    (part : Text) × IsUpTo clause_ends previous body part
    × IsSingle (trim part)
    × ((source : FromSource) × (parse_from_source (trim part) ≡ some source) × IsOf source info)

-- `body` follows FROM, after the character `previous`: no grouping stands in it, and it begins with the
-- table.
abbrev IsFlat : Text → Option ℕ → Text → EditableQueryInfo → Type 0
IsFlat select_body previous body info =
    (¬ StartsWith (codes "DISTINCT") select_body)
    × Never (codes "GROUP") previous body
    × Never (codes "HAVING") previous body
    × HasTable previous body info
    × HasColumns select_body info

over_source :
    (P : EditableQueryInfo → Type 0) (body : Text) (o : Option FromSource)
    → ((source : FromSource) → o ≡ some source → IfEditable P (analyze_columns body source))
    → IfEditable P (elim o as (λ x. QueryEditability) [
      | none ↦ not_editable Analyze.complex_source
      | some source ↦ analyze_columns body source
    ])
over_source P body none h e = cc
over_source P body (some source) h e = h source refl e

parts-IfEditable :
    (select_body : Text) (previous : Option ℕ) (body : Text)
    → IfEditable (IsFlat select_body previous body) (analyze_parts select_body previous body)
unfolding analyze_parts
parts-IfEditable select_body previous body =
    let P = IsFlat select_body previous body in
    if-cases (IfEditable P) (starts_with_keyword (codes "DISTINCT") select_body)
      (λ distinct. refused P Analyze.aggregation)
      λ all.
        if-cases (IfEditable P)
          (is_found (find_top_level_keyword (codes "GROUP") previous body)
            || is_found (find_top_level_keyword (codes "HAVING") previous body))
          (λ grouped. refused P Analyze.aggregation)
          λ flat.
            if-cases (IfEditable P)
              (is_external_from_source (trim (before_keywords clause_ends previous body)))
              (λ external. refused P Analyze.external_source)
              (λ inner.
                over_source P select_body
                  (parse_from_source (trim (before_keywords clause_ends previous body)))
                  λ source known e.
                    let (info, there, (whose, columns)) = columns-IfEditable select_body source e in
                    (
                      info,
                      there,
                      (
                        λ h. absurd (
                            let on = (starts_with_keyword_iff (codes "DISTINCT") select_body).1 h in
                            ground arith),
                        Never-not_found (codes "GROUP") previous body (ground arith),
                        Never-not_found (codes "HAVING") previous body (ground arith),
                        (
                          before_keywords clause_ends previous body,
                          before_keywords-IsUpTo clause_ends previous body,
                          parse_from_source-IsSingle _ source known,
                          (source, known, whose),
                        ),
                        columns,
                      ),
                    ))

-- Of the normalised query `s`: SELECT comes first, no set operation stands in it, nor a semicolon
-- anywhere; FROM stands first between `front` and `rest`, no DISTINCT and a list of columns in front of
-- it, and after it a table and no grouping.
abbrev pub IsEditable : Text → EditableQueryInfo → Type 0
IsEditable s info =
    StartsWith (codes "SELECT") s
    × NoneOf set_operations s
    × Without b';' s
    × ((front : Text) × (rest : Text) × Finds (codes "FROM") none s (some (front, rest))
        × IsFlat (trim (drop 6 front)) (fourth rest) (drop 4 rest) info)

after_from :
    (s : Text) (o : Option (Text × Text))
    → find_top_level_keyword (codes "FROM") none s ≡ o
    → starts_with_keyword (codes "SELECT") s ≡ true
    → has_top_level_keyword set_operations s ≡ false
    → contains_char b';' s ≡ false
    → IfEditable (IsEditable s) (elim o as (λ x. QueryEditability) [
      | none ↦ not_editable Analyze.no_table
      | some (front, rest) ↦ analyze_parts (trim (drop 6 front)) (fourth rest) (drop 4 rest)
    ])
after_from s none e select simple single h = cc
after_from s (some (front, rest)) e select simple single h =
    let (info, known, flat) =
      parts-IfEditable (trim (drop 6 front)) (fourth rest) (drop 4 rest) h in
    (
      info,
      known,
      (
        (starts_with_keyword_iff (codes "SELECT") s).0 select,
        NoneOf-not_found set_operations s simple,
        contains_char-Without b';' s single,
        (
          front,
          rest,
          subst (Finds (codes "FROM") none s) e
              (find_top_level_keyword-Finds (codes "FROM") none s),
          flat,
        ),
      ),
    )

normalized-IfEditable : (s : Text) → IfEditable (IsEditable s) (analyze_normalized s)
unfolding analyze_normalized
normalized-IfEditable s =
    let P = IsEditable s in
    if-cases (IfEditable P) (is_empty s) (λ blank. refused P Analyze.not_select)
      λ full.
        if-cases (IfEditable P) (starts_with_keyword (codes "WITH") s)
          (λ common. refused P Analyze.cte)
          λ plain.
            if-cases (IfEditable P) (not (starts_with_keyword (codes "SELECT") s))
              (λ other. refused P Analyze.not_select)
              λ select.
                if-cases (IfEditable P) (has_top_level_keyword set_operations s)
                  (λ combined. refused P Analyze.set_operation)
                  λ simple.
                    if-cases (IfEditable P) (contains_char b';' s)
                      (λ script. refused P Analyze.complex_source)
                      (λ single.
                        after_from s (find_top_level_keyword (codes "FROM") none s) refl
                          (ground arith) simple single)

-- Where a query is called editable, its normalised text (without what the removal of comments takes,
-- also inside string literals, and without white space and semicolons at the end) starts with the word
-- SELECT, has no semicolon, and has no UNION, INTERSECT or EXCEPT outside of quotes and parentheses; FROM
-- stands there, outside of these. The list in front of the first such FROM does not start with DISTINCT,
-- and no GROUP or HAVING follows outside of quotes and parentheses. The part from FROM to the first such
-- WHERE, ORDER, LIMIT, OFFSET or FETCH is not empty, has no comma or parenthesis and, outside of quotes,
-- no JOIN, and the schema, the table and its alias are those read from it. The list is a star, alone or
-- after the table's alias, up to the case of letters, and a dot; or all of it was read: there are texts
-- that, with commas in between, make up the list, and the columns are those read from them, one from each
-- in their order, but for the last text, which may be blank and is then left out.
pub analyze-IsEditable :
    (sql : Text)
    → (analyze_editable_query_editability sql).editable ≡ true
    → (info : EditableQueryInfo) × ((analyze_editable_query_editability sql).analysis ≡ some info)
      × IsEditable (normalize_editable_sql sql) info
unfolding analyze_editable_query_editability
analyze-IsEditable sql e = normalized-IfEditable (normalize_editable_sql sql) e
