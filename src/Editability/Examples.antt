-- ===== src/Editability/Examples.antt =====
-- The analysis at concrete queries, the source's own tests among them.
use dbm.Base.{
  ℕ, ◌≡◌, refl, Bool, true, false, not, ◌&&◌, ◌==◌, arith, none, some, List, [], ◌∷◌, ◌++◌, Text,
  codes,
}
use Prim.Native.String.{String}
use dbm.Edit.Sql.{EditTarget}
use dbm.Editability.Comments.{newline, normalize_editable_sql}
use dbm.Editability.Keywords.{find_top_level_keyword}
use dbm.Editability.Columns.{EditableQueryColumn}
use dbm.Editability.Analyze.{
  QueryEditability, EditableQueryInfo, analyze_editable_query_editability, aggregation,
  complex_source, external_source,
}
use dbm.Editability.Check.{Answer, Keys, found, check_editability}
use dbm.Editability.Hidden.{IsPlain, IsLine, analyze-hidden}
use dbm.Editability.Toplevel.{Finds, find_top_level_keyword-Finds}
use dbm.Editability.Editable.{IsEditable, analyze-IsEditable}
use dbm.Editability.Unlock.{IsTarget, check_editability-IsTarget, check_editability-table}

abbrev analyze : String → QueryEditability
analyze s = analyze_editable_query_editability (codes s)

simple_select :
    (analyze "select id, name from public.users where active order by id").editable ≡ true
unfolding analyze_editable_query_editability dbm.Base.trim
simple_select = refl

trailing : (analyze "SELECT * FROM public.users;\n").editable ≡ true
unfolding analyze_editable_query_editability dbm.Base.trim
trailing = refl

group_by : (analyze "select id, count(*) from users group by id").reason ≡ some aggregation
unfolding analyze_editable_query_editability dbm.Base.trim
group_by = refl

joined :
    (analyze "select u.id from users u join orders o on o.user_id = u.id").reason
    ≡ some complex_source
unfolding analyze_editable_query_editability dbm.Base.trim
joined = refl

script : (analyze "SELECT 1; SELECT * FROM users").reason ≡ some complex_source
unfolding analyze_editable_query_editability dbm.Base.trim
script = refl

external : (analyze "select * from 'a.csv' as x").reason ≡ some external_source
unfolding analyze_editable_query_editability dbm.Base.trim
external = refl

hidden_union : (analyze "select id from t where n = '--' union select 2").editable ≡ true
unfolding analyze_editable_query_editability dbm.Base.trim
hidden_union = refl

abbrev before_dashes : Text
before_dashes = codes "SELECT id FROM t WHERE n = '"

abbrev behind_dashes : Text
behind_dashes = codes "' UNION SELECT 1"

unfoldable is_plain : Text → Bool
is_plain [] = true
is_plain (c ∷ s) = not (c == b'-') && (not (c == b'/') && is_plain s)

is_plain-IsPlain : (s : Text) → is_plain s ≡ true → IsPlain s
unfolding is_plain
is_plain-IsPlain [] e = tt
is_plain-IsPlain (c ∷ s) e =
    (λ h. ground arith, λ h. ground arith, is_plain-IsPlain s (ground arith))

unfoldable is_line : Text → Bool
is_line [] = true
is_line (c ∷ s) = not (c == newline) && is_line s

is_line-IsLine : (s : Text) → is_line s ≡ true → IsLine s
unfolding is_line
is_line-IsLine [] e = tt
is_line-IsLine (c ∷ s) e = (λ h. ground arith, is_line-IsLine s (ground arith))

before_dashes-IsPlain : IsPlain before_dashes
unfolding is_plain
before_dashes-IsPlain = is_plain-IsPlain before_dashes refl

behind_dashes-IsLine : IsLine behind_dashes
unfolding is_line
behind_dashes-IsLine = is_line-IsLine behind_dashes refl

analyze-hidden_example :
    analyze_editable_query_editability (before_dashes ++ (b'-' ∷ b'-' ∷ behind_dashes))
    ≡ analyze_editable_query_editability before_dashes
analyze-hidden_example =
    analyze-hidden before_dashes behind_dashes before_dashes-IsPlain behind_dashes-IsLine

find_top_level_keyword-Finds_example :
    Finds
      (codes "from")
      none
      (codes "select (from) FROM t")
      (find_top_level_keyword (codes "from") none (codes "select (from) FROM t"))
find_top_level_keyword-Finds_example =
    find_top_level_keyword-Finds (codes "from") none (codes "select (from) FROM t")

abbrev plain_query : Text
plain_query = codes "select id from t"

plain_query_editable : (analyze_editable_query_editability plain_query).editable ≡ true
unfolding analyze_editable_query_editability dbm.Base.trim
plain_query_editable = refl

analyze-IsEditable_example :
    (info : EditableQueryInfo) × ((analyze_editable_query_editability plain_query).analysis
      ≡ some info)
    × IsEditable (normalize_editable_sql plain_query) info
analyze-IsEditable_example = analyze-IsEditable plain_query plain_query_editable

abbrev id_key : Text → Text → Keys
id_key schema table = found (codes "id" ∷ [])

abbrev straight_query : Text
straight_query = codes "SELECT id, other FROM t"

abbrev swapped_query : Text
swapped_query = codes "SELECT other AS id, id AS other FROM t"

abbrev both_names : List Text
both_names = codes "id" ∷ codes "other" ∷ []

abbrev id_target : EditTarget
id_target = record {
  schema = codes "public";
  table = codes "t";
  primary_keys = codes "id" ∷ [];
  columns = both_names;
}

abbrev answer : Answer
answer = check_editability id_key (codes "public") straight_query both_names

straight_answer : answer.0 ≡ some id_target
unfolding check_editability analyze_editable_query_editability dbm.Base.trim
    dbm.Editability.Check.answer_analysis dbm.Editability.Check.answer_info
    dbm.Editability.Check.answer_keys
straight_answer = refl

check_editability-IsTarget_example :
    ((analyze_editable_query_editability straight_query).editable ≡ true)
    × ((info : EditableQueryInfo) × ((analyze_editable_query_editability straight_query).analysis
          ≡ some info)
        × IsTarget id_key (codes "public") both_names info id_target)
check_editability-IsTarget_example =
    check_editability-IsTarget id_key (codes "public") straight_query both_names id_target
      straight_answer

abbrev named_column : String → String → EditableQueryColumn
named_column source result = record {
  source_name = some (codes source);
  source_name_quoted = false;
  result_name = codes result;
  expression = codes source;
}

abbrev table_t : List EditableQueryColumn → EditableQueryInfo
table_t columns = record {
  schema = none;
  schema_quoted = false;
  table_name = codes "t";
  table_name_quoted = false;
  table_alias = none;
  select_star = false;
  columns = columns;
}

abbrev straight_info : EditableQueryInfo
straight_info = table_t (named_column "id" "id" ∷ named_column "other" "other" ∷ [])

abbrev swapped_info : EditableQueryInfo
swapped_info = table_t (named_column "other" "id" ∷ named_column "id" "other" ∷ [])

straight_analysis :
    (analyze_editable_query_editability straight_query).analysis ≡ some straight_info
unfolding analyze_editable_query_editability dbm.Base.trim
straight_analysis = refl

straight_editable : (analyze_editable_query_editability straight_query).editable ≡ true
unfolding analyze_editable_query_editability dbm.Base.trim
straight_editable = refl

swapped_analysis : (analyze_editable_query_editability swapped_query).analysis ≡ some swapped_info
unfolding analyze_editable_query_editability dbm.Base.trim
swapped_analysis = refl

swapped_editable : (analyze_editable_query_editability swapped_query).editable ≡ true
unfolding analyze_editable_query_editability dbm.Base.trim
swapped_editable = refl

check_editability-table_example :
    check_editability id_key (codes "public") straight_query both_names
    ≡ check_editability id_key (codes "public") swapped_query both_names
check_editability-table_example =
    check_editability-table id_key (codes "public") straight_query swapped_query both_names
      straight_info swapped_info straight_editable swapped_editable straight_analysis
      swapped_analysis refl refl
