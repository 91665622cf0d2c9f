-- ===== src/Paginate/Statement.antt =====
-- The statements that are wrapped: is_read_only, single_select_statement, paginated_select_sql,
-- count_select_sql and user_result_row_cap.
use dbm.Base.{
  ℕ, Bool, not, Option, none, some, List, [], ◌∷◌, ◌++◌, map, Text, codes, ◌==◌, if◌then◌else◌,
  trim, trim_start, is_whitespace, to_ascii_lower, any, ◌=?◌, nat_eq, list_eq,
}
use mathlib.Core.Option
use dbm.Base.Decimal.{show, parse_usize}
use dbm.Paginate.Tokens.{top_level_tokens, span}

-- `split_whitespace().next()`
unfoldable pub first_word : Text → Option Text
unfolding trim_start span is_whitespace
first_word s = elim (span (λ c. not (is_whitespace c)) (trim_start s)).0 [
  | [] ↦ none
  | c ∷ w ↦ some (c ∷ w)
]

unfoldable pub one_of : List Text → Text → Bool
unfolding any
one_of words w = any (λ v. w =? v) words

abbrev read_only_heads : List Text
read_only_heads =
    codes "select"
    ∷ codes "with"
    ∷ codes "show"
    ∷ codes "explain"
    ∷ codes "table"
    ∷ codes "values"
    ∷ []

abbrev pub single_heads : List Text
single_heads = codes "select" ∷ codes "with" ∷ codes "table" ∷ codes "values" ∷ []

unfoldable pub is_read_only : Text → Bool
unfolding first_word one_of to_ascii_lower
is_read_only sql = elim (first_word sql) [
  | none ↦ one_of read_only_heads []
  | some w ↦ one_of read_only_heads (map to_ascii_lower w)
]

-- `trim_end_matches(';')`
unfoldable pub trim_semicolons : Text → Text
trim_semicolons [] = []
trim_semicolons (c ∷ s) = elim (trim_semicolons s) [
  | [] ↦ if c == b';' then [] else c ∷ []
  | d ∷ t ↦ c ∷ d ∷ t
]

unfoldable pub has_semicolon : Text → Bool
unfolding any
has_semicolon s = any (λ c. c == b';') s

unfoldable pub single_select_statement : Text → Option Text
unfolding trim trim_semicolons has_semicolon first_word one_of to_ascii_lower
single_select_statement sql =
    let trimmed = trim (trim_semicolons (trim sql)) in
    if has_semicolon trimmed then none else elim (first_word trimmed) [
      | none ↦ none
      | some w ↦ if one_of single_heads (map to_ascii_lower w) then some trimmed else none
    ]

-- The text of `format!` around a statement.
unfoldable pub page_text : Text → ℕ → ℕ → Text
unfolding show
page_text statement limit offset =
    codes "SELECT * FROM ("
    ++ (statement
        ++ (codes ") AS dbm_page LIMIT " ++ (show limit ++ (codes " OFFSET " ++ show offset))))

unfoldable pub paginated_select_sql : Text → ℕ → ℕ → Option Text
unfolding single_select_statement page_text
paginated_select_sql sql limit offset =
    Option.map (λ statement. page_text statement limit offset) (single_select_statement sql)

unfoldable pub count_text : Text → Text
count_text statement =
    codes "SELECT COUNT(*) AS dbm_total_rows FROM (" ++ (statement ++ codes ") AS dbm_count")

unfoldable pub count_select_sql : Text → Option Text
unfolding single_select_statement count_text
count_select_sql sql = Option.map count_text (single_select_statement sql)

-- The number after the first LIMIT among the tokens.
unfoldable limit_of : List Text → Option ℕ
unfolding parse_usize
limit_of [] = none
limit_of (token ∷ []) = none
limit_of (token ∷ next ∷ more) =
    let rest = limit_of (next ∷ more) in if token =? codes "LIMIT" then parse_usize next else rest

-- `none` outside is a panic, inside that there is no cap.
unfoldable pub user_result_row_cap : Text → Option (Option ℕ)
unfolding single_select_statement top_level_tokens limit_of
user_result_row_cap sql = elim (single_select_statement sql) [
  | none ↦ some none
  | some statement ↦ elim (top_level_tokens statement) [
    | none ↦ none
    | some tokens ↦ some (limit_of tokens)
  ]
]
