-- ===== src/Editability/Unlock.antt =====
-- What unlocks the editing of a result, and on what it depends.
use dbm.Base.{
  ◌≡◌, ◌≢◌, refl, sym, subst, ap, ◌∙◌, true, false, not, ◌||◌, Option, none, some, List, [], ◌∷◌,
  Text, arith, if-cases, if◌then◌else◌,
}
use dbm.Edit.Sql.{EditTarget}
use dbm.Editability.Identifiers.{is_empty}
use dbm.Editability.Analyze.{
  QueryEditability, EditableQueryInfo, metadata_unavailable, analyze_editable_query_editability,
}
use dbm.Editability.Check.{
  Answer, Keys, found, failed, is_among, all_among, all_primary_keys_present, answer_keys,
  answer_info, answer_analysis, check_editability, schema_or, because,
}

-- Every key is among the names, whatever the case of its letters.
abbrev AllAmong : List Text → List Text → Type 0
AllAmong names [] = Unit
AllAmong names (key ∷ keys) = (is_among names key ≡ true) × AllAmong names keys

all_among-AllAmong : (keys names : List Text) → all_among keys names ≡ true → AllAmong names keys
unfolding all_among
all_among-AllAmong [] names e = tt
all_among-AllAmong (key ∷ keys) names e =
    (ground arith, all_among-AllAmong keys names (ground arith))

-- The schema that the query names, or else the tab's.
abbrev IsSchemaOf : Option Text → Text → Text → Type 0
IsSchemaOf none tab s = s ≡ tab
IsSchemaOf (some []) tab s = s ≡ tab
IsSchemaOf (some (c ∷ named)) tab s = s ≡ c ∷ named

-- The target of the table of an analysis: its keys are those that the database has for this table, there
-- is one at least, and all are shown.
pub record IsTarget (keys : Text → Text → Keys) (tab : Text) (result_columns : List Text)
    (info : EditableQueryInfo) (t : EditTarget) : Type 0 where
  pub table : t.table ≡ info.table_name
  pub schema : IsSchemaOf info.schema tab t.schema
  pub columns : t.columns ≡ result_columns
  pub keyed : t.primary_keys ≢ []
  pub shown : AllAmong result_columns t.primary_keys
  pub asked : keys t.schema t.table ≡ found t.primary_keys
  pub schema_named : t.schema ≢ []
  pub table_named : t.table ≢ []

abbrev IfTarget : (EditTarget → Type 0) → Answer → Type 0
IfTarget P a = (t : EditTarget) → a.0 ≡ some t → P t

schema_or-IsSchemaOf : (o : Option Text) (tab : Text) → IsSchemaOf o tab (schema_or o tab)
schema_or-IsSchemaOf none tab = refl
schema_or-IsSchemaOf (some []) tab = refl
schema_or-IsSchemaOf (some (c ∷ named)) tab = refl

named-text : (s : Text) → is_empty s ≡ false → s ≢ []
named-text [] e = λ h. cc
named-text (c ∷ s) e = λ h. cc

answered :
    (keys : Text → Text → Keys) (tab : Text) (result_columns : List Text) (info : EditableQueryInfo)
    (k : Keys)
    → keys (schema_or info.schema tab) info.table_name ≡ k
    → is_empty (schema_or info.schema tab) ≡ false
    → is_empty info.table_name ≡ false
    → IfTarget
        (IsTarget keys tab result_columns info)
        (answer_keys (schema_or info.schema tab) info.table_name result_columns k)
unfolding answer_keys
answered keys tab result_columns info (failed e) asked s t = λ target h. cc
answered keys tab result_columns info (found []) asked s t = λ target h. cc
answered keys tab result_columns info (found (key ∷ more)) asked s t =
    if-cases (IfTarget (IsTarget keys tab result_columns info))
      (not (all_primary_keys_present (key ∷ more) result_columns)) (λ missing target h. cc)
      λ present target h.
        subst (λ o. Given o) h
          (record {
            table = refl;
            schema = schema_or-IsSchemaOf info.schema tab;
            columns = refl;
            keyed = λ e. cc;
            shown =
                all_among-AllAmong (key ∷ more) result_columns
                  (unfold all_primary_keys_present in ground arith);
            asked = asked;
            schema_named = named-text _ s;
            table_named = named-text _ t;
          })
  where
    Given : Option EditTarget → Type 0
    Given none = Unit
    Given (some target) = IsTarget keys tab result_columns info target

-- A target is that of the analysis, if there is one.
abbrev OfInfo :
    (Text → Text → Keys) → Text → List Text → Option EditableQueryInfo → EditTarget → Type 0
OfInfo keys tab result_columns o t =
    (info : EditableQueryInfo) × (o ≡ some info) × IsTarget keys tab result_columns info t

info-IfTarget :
    (keys : Text → Text → Keys) (tab : Text) (result_columns : List Text)
    (o : Option EditableQueryInfo)
    → IfTarget (OfInfo keys tab result_columns o) (answer_info keys tab result_columns o)
unfolding answer_info
info-IfTarget keys tab result_columns none = λ target h. cc
info-IfTarget keys tab result_columns (some info) =
    if-cases (IfTarget (OfInfo keys tab result_columns (some info)))
      (is_empty (schema_or info.schema tab) || is_empty info.table_name) (λ unnamed target h. cc)
      λ named target h. (
        info,
        refl,
        answered keys tab result_columns info (keys (schema_or info.schema tab) info.table_name)
            refl (ground arith) (ground arith) target h,
      )

analysis-IfTarget :
    (keys : Text → Text → Keys) (tab : Text) (result_columns : List Text) (q : QueryEditability)
    → IfTarget
        (λ t. (q.editable ≡ true) × OfInfo keys tab result_columns q.analysis t)
        (answer_analysis keys tab result_columns q)
unfolding answer_analysis
analysis-IfTarget keys tab result_columns q =
    if-cases (IfTarget (λ t. (q.editable ≡ true) × OfInfo keys tab result_columns q.analysis t))
      (not q.editable) (λ refused target h. cc)
      (λ passed target h. (ground arith, info-IfTarget keys tab result_columns q.analysis target h))

answer_analysis-some :
    (keys : Text → Text → Keys) (schema : Text) (result_columns : List Text) (q : QueryEditability)
    (info : EditableQueryInfo)
    → q.editable ≡ true
    → q.analysis ≡ some info
    → answer_analysis keys schema result_columns q
      ≡ answer_info keys schema result_columns (some info)
unfolding answer_analysis
answer_analysis-some keys schema result_columns q info e known =
    let passed : answer_analysis keys schema result_columns q
        ≡ answer_info keys schema result_columns q.analysis =
      ground arith in
    passed ∙ ap (answer_info keys schema result_columns) known

answer_info-table :
    (keys : Text → Text → Keys) (schema : Text) (result_columns : List Text)
    (info twin : EditableQueryInfo)
    → info.schema ≡ twin.schema
    → info.table_name ≡ twin.table_name
    → answer_info keys schema result_columns (some info)
      ≡ answer_info keys schema result_columns (some twin)
unfolding answer_info
answer_info-table keys schema result_columns info twin s t = λ i.
    if is_empty (schema_or (s i) schema) || is_empty (t i)
    then because metadata_unavailable
    else answer_keys (schema_or (s i) schema) (t i) result_columns
        (keys (schema_or (s i) schema) (t i))

-- A result may be edited only if its query is editable; the target is then the table that the analysis
-- found in the query, in the schema that the query names, or the tab's where it names none; neither name
-- is empty; its primary keys are those that the database answers for this schema and table, at least
-- one; and each of them is, in any case of its letters, among the columns of the result.
pub check_editability-IsTarget :
    (keys : Text → Text → Keys) (tab sql : Text) (result_columns : List Text) (t : EditTarget)
    → (check_editability keys tab sql result_columns).0 ≡ some t
    → ((analyze_editable_query_editability sql).editable ≡ true)
      × ((info : EditableQueryInfo) × ((analyze_editable_query_editability sql).analysis
            ≡ some info)
          × IsTarget keys tab result_columns info t)
unfolding check_editability
check_editability-IsTarget keys tab sql result_columns t e =
    analysis-IfTarget keys tab result_columns (analyze_editable_query_editability sql) t e

-- The target depends on the query only by its table: two editable queries of one table with the same
-- names of columns in their results get the same answer, whatever expression or column each name
-- stands for.
pub check_editability-table :
    (keys : Text → Text → Keys) (schema sql other : Text) (result_columns : List Text)
    (info twin : EditableQueryInfo)
    → (analyze_editable_query_editability sql).editable ≡ true
    → (analyze_editable_query_editability other).editable ≡ true
    → (analyze_editable_query_editability sql).analysis ≡ some info
    → (analyze_editable_query_editability other).analysis ≡ some twin
    → info.schema ≡ twin.schema
    → info.table_name ≡ twin.table_name
    → check_editability keys schema sql result_columns
      ≡ check_editability keys schema other result_columns
unfolding check_editability
check_editability-table keys schema sql other result_columns info twin e f a b s t =
    answer_analysis-some keys schema result_columns (analyze_editable_query_editability sql) info e
      a
    ∙ answer_info-table keys schema result_columns info twin s t
    ∙ sym (
        answer_analysis-some keys schema result_columns (analyze_editable_query_editability other)
          twin f b)
