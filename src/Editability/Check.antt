-- ===== src/Editability/Check.antt =====
-- The effect CheckEditability of results/effect.rs: the analysis, then the primary keys of the table,
-- which the service reads from the database.
use dbm.Base.{
  Bool, true, false, not, ◌&&◌, ◌||◌, Option, none, some, List, [], ◌∷◌, ◌++◌, Text, codes,
  eq_ignore_ascii_case, join, if◌then◌else◌,
}
use dbm.Edit.Sql.{EditTarget}
use dbm.Editability.Identifiers.{is_empty}
use dbm.Editability.Analyze.{
  EditabilityReason, not_select, cte, set_operation, aggregation, external_source, complex_source,
  computed_columns, no_table, no_primary_key, primary_key_not_returned, metadata_unavailable,
  EditableQueryInfo, QueryEditability, analyze_editable_query_editability,
}

unfoldable pub editability_reason_message : EditabilityReason → Text
editability_reason_message not_select = codes "not a SELECT query"
editability_reason_message cte = codes "CTE (WITH) queries are not editable"
editability_reason_message set_operation = codes "UNION/INTERSECT/EXCEPT results are not editable"
editability_reason_message aggregation = codes "DISTINCT/GROUP BY results are not editable"
editability_reason_message external_source = codes "external FROM source is not editable"
editability_reason_message complex_source = codes "JOIN or complex FROM is not editable"
editability_reason_message computed_columns = codes "computed SELECT list is not editable"
editability_reason_message no_table = codes "no base table in FROM"
editability_reason_message no_primary_key = codes "table has no primary key"
editability_reason_message primary_key_not_returned = codes "result is missing primary key columns"
editability_reason_message metadata_unavailable = codes "table metadata unavailable"

-- `names.iter().any(|n| n.eq_ignore_ascii_case(name))`
unfoldable pub is_among : List Text → Text → Bool
unfolding eq_ignore_ascii_case
is_among [] name = false
is_among (n ∷ names) name = eq_ignore_ascii_case n name || is_among names name

unfoldable pub all_among : List Text → List Text → Bool
unfolding is_among
all_among [] names = true
all_among (key ∷ keys) names = is_among names key && all_among keys names

unfoldable pub all_primary_keys_present : List Text → List Text → Bool
unfolding all_among
all_primary_keys_present [] result_columns = false
all_primary_keys_present (key ∷ keys) result_columns = all_among (key ∷ keys) result_columns

unfoldable missing_keys : List Text → List Text → List Text
unfolding is_among
missing_keys [] result_columns = []
missing_keys (key ∷ keys) result_columns =
    let rest = missing_keys keys result_columns in
    if is_among result_columns key then rest else key ∷ rest

-- `EditabilityReady`: the target, or why there is none.
abbrev pub Answer : Type 0
Answer = Option EditTarget × Option Text

abbrev pub blocked : Text → Answer
blocked message = (none, some message)

abbrev pub because : EditabilityReason → Answer
because reason = blocked (editability_reason_message reason)

-- What the database says of a table's keys.
pub data Keys : Type 0 where
  found : List Text → Keys
  failed : Text → Keys

-- With the keys at hand.
unfoldable pub answer_keys : Text → Text → List Text → Keys → Answer
unfolding editability_reason_message all_primary_keys_present missing_keys
answer_keys schema table result_columns (failed e) =
    blocked (editability_reason_message metadata_unavailable ++ (codes ": " ++ e))
answer_keys schema table result_columns (found []) = because no_primary_key
answer_keys schema table result_columns (found (key ∷ keys)) =
    if not (all_primary_keys_present (key ∷ keys) result_columns)
    then blocked (
        editability_reason_message primary_key_not_returned
        ++ (codes ": missing " ++ join (codes ", ") (missing_keys (key ∷ keys) result_columns)))
    else (
      some (record {
        schema = schema;
        table = table;
        primary_keys = key ∷ keys;
        columns = result_columns;
      }),
      none,
    )

-- The schema that is written in the query, or else the tab's.
abbrev pub schema_or : Option Text → Text → Text
schema_or none schema = schema
schema_or (some s) schema = if is_empty s then schema else s

abbrev reason_or : Option EditabilityReason → EditabilityReason
reason_or none = complex_source
reason_or (some reason) = reason

-- For the table of an analysis; `keys` is `list_primary_keys` of the instance, connection and database.
unfoldable pub answer_info :
    (Text → Text → Keys) → Text → List Text → Option EditableQueryInfo → Answer
answer_info keys schema result_columns none = because metadata_unavailable
answer_info keys schema result_columns (some info) =
    if is_empty (schema_or info.schema schema) || is_empty info.table_name
    then because metadata_unavailable
    else answer_keys (schema_or info.schema schema) info.table_name result_columns
        (keys (schema_or info.schema schema) info.table_name)

unfoldable pub answer_analysis : (Text → Text → Keys) → Text → List Text → QueryEditability → Answer
answer_analysis keys schema result_columns analysis =
    if not analysis.editable
    then because (reason_or analysis.reason)
    else answer_info keys schema result_columns analysis.analysis

unfoldable pub check_editability : (Text → Text → Keys) → Text → Text → List Text → Answer
check_editability keys schema sql result_columns =
    answer_analysis keys schema result_columns (analyze_editable_query_editability sql)
