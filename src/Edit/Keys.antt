-- ===== src/Edit/Keys.antt =====
-- Edits of primary-key columns, which a commit leaves out.
use dbm.Base.{
  ℕ, ◌<◌, ◌≡◌, refl, ◌≢◌, true, false, none, some, List, [], ◌∷◌, arith, length, get_elem?,
  get_elem?-none, nat_eq,
}
use dbm.Base.HashSet.{contains, insert}
use dbm.Edit.Session.{Cells, ResultsEditState, dirty_rows, commit_row_count}
use dbm.Edit.Valid.{IsValid}
use dbm.Edit.Count.{row_is_dirty-lookup, contains-dirty_rows}
use dbm.Edit.Sql.{
  EditTarget, ok, err, nothing_to_commit, is_empty, is_key, assignments, sort, insert_sorted,
  updates, build_commit_statements,
}
use dbm.Edit.Commit.{length-changes}

-- Every override stands in a primary-key column, or in a column that the target does not have.
abbrev AllInKeys : EditTarget → Cells → Type 0
AllInKeys target [] = Unit
AllInKeys target (((r, c), v) ∷ m) =
    elim (get_elem? target.columns c) [ some col ↦ is_key target col ≡ true | none ↦ Unit ]
    × AllInKeys target m

assignments-AllInKeys :
    (target : EditTarget) (row : ℕ) (m : Cells) → AllInKeys target m → assignments target row m ≡ []
unfolding assignments
assignments-AllInKeys target row [] h = refl
assignments-AllInKeys target row (((r, c), v) ∷ m) h =
    ground (arith, assignments-AllInKeys target row m h.1, h.0)

abbrev AllLoaded : ResultsEditState → List ℕ → Type 0
AllLoaded s [] = Unit
AllLoaded s (r ∷ rs) = (r < length s.snapshots) × AllLoaded s rs

updates-AllInKeys :
    (target : EditTarget) (s : ResultsEditState) (rows : List ℕ)
    → AllInKeys target s.dirty_cells
    → AllLoaded s rows
    → updates target s rows ≡ ok []
unfolding updates
updates-AllInKeys target s [] k l = refl
updates-AllInKeys target s (row ∷ rows) k l = ground (
  arith,
  updates-AllInKeys target s rows k l.1,
  assignments-AllInKeys target row s.dirty_cells k,
  get_elem?-none s.snapshots row,
)

insert_sorted-AllLoaded :
    (s : ResultsEditState) (x : ℕ) (xs : List ℕ)
    → x < length s.snapshots
    → AllLoaded s xs
    → AllLoaded s (insert_sorted x xs)
unfolding insert_sorted
insert_sorted-AllLoaded s x [] h l = (h, tt)
insert_sorted-AllLoaded s x (y ∷ ys) h l = ground (arith, insert_sorted-AllLoaded s x ys h l.1)

sort-AllLoaded : (s : ResultsEditState) (xs : List ℕ) → AllLoaded s xs → AllLoaded s (sort xs)
unfolding sort
sort-AllLoaded s [] l = tt
sort-AllLoaded s (x ∷ xs) l = insert_sorted-AllLoaded s x (sort xs) l.0 (sort-AllLoaded s xs l.1)

AllLoaded-of_bound :
    (s : ResultsEditState) (xs : List ℕ)
    → ((r : ℕ) → contains r xs ≡ true → r < length s.snapshots)
    → AllLoaded s xs
unfolding contains
AllLoaded-of_bound s [] h = tt
AllLoaded-of_bound s (x ∷ xs) h =
    (h x (ground arith), AllLoaded-of_bound s xs (λ r k. h r (ground arith)))

dirty_rows-AllLoaded :
    (s : ResultsEditState) → IsValid s → AllLoaded s (sort (dirty_rows s.dirty_cells))
dirty_rows-AllLoaded s i = sort-AllLoaded s _ (
    AllLoaded-of_bound s _ λ r h.
      let (c, v, e) =
        row_is_dirty-lookup r s.dirty_cells (ground (arith, contains-dirty_rows r s.dirty_cells)) in
      (i.cells_live r c v e).0)

length-pos_of_contains : (r : ℕ) (xs : List ℕ) → contains r xs ≡ true → 0 < length xs
unfolding contains
length-pos_of_contains r [] h = cc
length-pos_of_contains r (x ∷ xs) h = omega arith

length-dirty_rows : (m : Cells) → m ≢ [] → 0 < length (dirty_rows m)
unfolding dirty_rows insert
length-dirty_rows [] h = absurd (h refl)
length-dirty_rows (((r, c), v) ∷ m) h = ground (arith, length-pos_of_contains r (dirty_rows m))

-- Edits of primary-key columns alone are counted as changes and never committed: the statements of
-- such a session are refused as having nothing to commit.
pub key_edits_dropped :
    (target : EditTarget) (s : ResultsEditState)
    → IsValid s
    → is_empty target.primary_keys ≡ false
    → s.dirty_cells ≢ []
    → s.deleted ≡ []
    → s.new_rows ≡ []
    → AllInKeys target s.dirty_cells
    → (0 < commit_row_count s) × (build_commit_statements target s ≡ err nothing_to_commit)
unfolding build_commit_statements sort
key_edits_dropped target s i keyed changed d n k = (
  omega (arith, length-changes s i, length-dirty_rows s.dirty_cells changed),
  ground (arith, updates-AllInKeys target s _ k (dirty_rows-AllLoaded s i)),
)
