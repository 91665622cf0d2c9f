-- ===== src/Edit/Sql.antt =====
-- edit_sql.rs: the statements that commit an edit session.
use dbm.Base.{
  ℕ, suc, Bool, true, false, not, ◌||◌, Option, none, some, List, [], ◌∷◌, ◌++◌, map, length,
  get_elem?, Text, codes, nat_eq, leb, ◌==◌, ◌||◌, if◌then◌else◌, eq_ignore_ascii_case, join, any,
  trim_start, is_whitespace, byte_len, split_at_byte, ltb,
}
use dbm.Base.HashSet.{contains}
use dbm.Edit.Session.{Cells, ResultsEditState, dirty_rows}

pub record EditTarget : Type 0 where
  pub schema : Text
  pub table : Text
  pub primary_keys : List Text
  pub columns : List Text

-- The messages of `Err`, without the names that the source puts into them.
pub data CommitError : Type 0 where
  no_primary_key nothing_to_commit column_count_mismatch missing_snapshot : CommitError
  key_missing key_is_null : Text → CommitError

pub data Result {ℓ} (A : Type ℓ) : Type ℓ where
  ok : A → Result A
  err : CommitError → Result A

infixl 5 ◌>>=◌
abbrev pub ◌>>=◌ {ℓ κ} : {A : Type ℓ} {B : Type κ} → Result A → (A → Result B) → Result B
ok a >>= f = f a
err e >>= f = err e

abbrev pub is_empty {ℓ} : {A : Type ℓ} → List A → Bool
is_empty [] = true
is_empty (x ∷ xs) = false

-- `replace(c, cc)`: every quote is doubled.
unfoldable pub double_char : ℕ → Text → Text
double_char q [] = []
double_char q (c ∷ s) = if c == q then q ∷ q ∷ double_char q s else c ∷ double_char q s

unfoldable pub quote_ident : Text → Text
quote_ident name = b'"' ∷ (double_char b'"' name ++ b'"' ∷ [])

abbrev pub is_null_text : Text → Bool
is_null_text value = eq_ignore_ascii_case value (codes "NULL")

unfoldable pub quote_literal : Text → Text
quote_literal value =
    if is_null_text value then codes "NULL" else b'\'' ∷ (double_char b'\'' value ++ b'\'' ∷ [])

unfoldable pub qualified_table : EditTarget → Text
qualified_table target = quote_ident target.schema ++ (b'.' ∷ quote_ident target.table)

-- `columns.iter().position(|c| c.eq_ignore_ascii_case(name))`
unfoldable pub column_index : List Text → Text → Option ℕ
column_index [] name = none
column_index (c ∷ cs) name =
    let rest = column_index cs name in
    if eq_ignore_ascii_case c name
    then some 0
    else elim rest [ some i ↦ some (suc i) | none ↦ none ]

unfoldable pub old_value_predicate : Text → Text → Text
old_value_predicate column value =
    if is_null_text value
    then quote_ident column ++ codes " IS NULL"
    else quote_ident column ++ (codes " IS NOT DISTINCT FROM " ++ quote_literal value)

unfoldable check_keys : EditTarget → List Text → List Text → Result (Unit {0})
check_keys target snapshot [] = ok tt
check_keys target snapshot (pk ∷ pks) =
    let rest = check_keys target snapshot pks in
    elim (column_index target.columns pk) [
      | none ↦ err (key_missing pk)
      | some idx ↦ elim (get_elem? snapshot idx) [
        | some v ↦ if is_null_text v then err (key_is_null pk) else rest
        | none ↦ rest
      ]
    ]

unfoldable predicates : List Text → List Text → List Text
predicates (col ∷ cols) (v ∷ vs) = old_value_predicate col v ∷ predicates cols vs
predicates _ _ = []

unfoldable pub full_row_where : EditTarget → List Text → Result Text
unfolding check_keys predicates
full_row_where target snapshot =
    if not (length target.columns == length snapshot) then err column_count_mismatch else (do
      _ ← check_keys target snapshot target.primary_keys
      ok (join (codes " AND ") (predicates target.columns snapshot)))

abbrev pub is_key : EditTarget → Text → Bool
is_key target col = any (λ pk. eq_ignore_ascii_case pk col) target.primary_keys

-- The assignments of one row, in the order in which the map yields its cells; columns that the
-- target does not have and primary-key columns are left out.
unfoldable pub assignments : EditTarget → ℕ → Cells → List Text
assignments target row [] = []
assignments target row (((r, c), v) ∷ m) =
    let rest = assignments target row m in
    if r == row
    then elim (get_elem? target.columns c) [
      | none ↦ rest
      | some col ↦
          if is_key target col
          then rest
          else (quote_ident col ++ (codes " = " ++ quote_literal v)) ∷ rest
    ]
    else rest

-- `sort_unstable` of distinct numbers.
unfoldable pub insert_sorted : ℕ → List ℕ → List ℕ
insert_sorted x [] = x ∷ []
insert_sorted x (y ∷ ys) = if leb x y then x ∷ y ∷ ys else y ∷ insert_sorted x ys

unfoldable pub sort : List ℕ → List ℕ
unfolding insert_sorted
sort [] = []
sort (x ∷ xs) = insert_sorted x (sort xs)

abbrev pub snapshot_of : ResultsEditState → ℕ → Result (List Text)
snapshot_of state row = elim (get_elem? state.snapshots row) [
  | some snapshot ↦ ok snapshot
  | none ↦ err missing_snapshot
]

unfoldable pub update_text : Text → List Text → Text → Text
update_text table sets where_clause =
    codes "UPDATE "
    ++ (table ++ (codes " SET " ++ (join (codes ", ") sets ++ (codes " WHERE " ++ where_clause))))

unfoldable pub updates : EditTarget → ResultsEditState → List ℕ → Result (List Text)
updates target state [] = ok []
updates target state (row ∷ rows) =
    let rest = updates target state rows in
    if contains row state.deleted then rest else (do
      snapshot ← snapshot_of state row
      if is_empty (assignments target row state.dirty_cells) then rest else (do
        where_clause ← full_row_where target snapshot
        more ← rest
        let sets = assignments target row state.dirty_cells
        ok (update_text (qualified_table target) sets where_clause ∷ more)))

unfoldable pub delete_text : Text → Text → Text
delete_text table where_clause =
    codes "DELETE FROM " ++ (table ++ (codes " WHERE " ++ where_clause))

unfoldable pub deletes : EditTarget → ResultsEditState → List ℕ → Result (List Text)
deletes target state [] = ok []
deletes target state (row ∷ rows) = do
  snapshot ← snapshot_of state row
  where_clause ← full_row_where target snapshot
  more ← deletes target state rows
  ok (delete_text (qualified_table target) where_clause ∷ more)

-- The columns and values of a new row that are given: neither empty nor NULL.
unfoldable pub given_pairs : List Text → List Text → List (Text × Text)
given_pairs (c ∷ cs) (v ∷ vs) =
    let rest = given_pairs cs vs in if is_empty v || is_null_text v then rest else (c, v) ∷ rest
given_pairs _ _ = []

unfoldable pub insert_text : EditTarget → List (Text × Text) → Text
insert_text target pairs =
    codes "INSERT INTO "
    ++ (qualified_table target
        ++ (codes " ("
            ++ (join (codes ", ") (map (λ (c, v). quote_ident c) pairs)
                ++ (codes ") VALUES ("
                    ++ (join (codes ", ") (map (λ (c, v). quote_literal v) pairs) ++ codes ")")))))

unfoldable pub inserts : EditTarget → List (List Text) → List Text
unfolding given_pairs
inserts target [] = []
inserts target (new_row ∷ rows) =
    let rest = inserts target rows in
    if is_empty (given_pairs target.columns new_row)
    then rest
    else insert_text target (given_pairs target.columns new_row) ∷ rest

unfoldable pub build_commit_statements : EditTarget → ResultsEditState → Result (List Text)
unfolding updates deletes inserts
build_commit_statements target state =
    if is_empty target.primary_keys then err no_primary_key else (do
      changed ← updates target state (sort (dirty_rows state.dirty_cells))
      removed ← deletes target state (sort state.deleted)
      let statements = changed ++ (removed ++ inserts target state.new_rows)
      if is_empty statements then err nothing_to_commit else ok statements)

unfoldable join_batch_sql : List Text → Text
join_batch_sql statements = join (b';' ∷ b'\n' ∷ []) statements

-- `statement_requires_one_row` of common/utils/sql_editability.rs; `none` is the panic of a slice
-- that would cut a character.
unfoldable pub statement_requires_one_row : Text → Option Bool
unfolding trim_start is_whitespace byte_len split_at_byte eq_ignore_ascii_case
statement_requires_one_row sql =
    let t = trim_start sql in
    if ltb (byte_len t) 6 then some false else elim (split_at_byte 6 t) [
      | none ↦ none
      | some (head, rest) ↦
          some (
            eq_ignore_ascii_case head (codes "UPDATE")
            || eq_ignore_ascii_case head (codes "DELETE"))
    ]
