-- ===== src/Edit/Commit.antt =====
-- The statements of a commit.
use dbm.Base.{
  ℕ, suc, ◌+◌, ◌≤◌, ◌≡◌, refl, ap, inl, inr, true, false, Bool-cases, List, [], ◌∷◌, ◌++◌, arith,
  length, length-append, Text, nat_eq,
}
use dbm.Base.HashSet.{contains, insert, extend, NoRepeats}
use dbm.Edit.Session.{ResultsEditState, dirty_rows, count_changes, commit_row_count}
use dbm.Edit.Valid.{IsValid}
use dbm.Edit.Count.{row_is_dirty-lookup, contains-dirty_rows}
use dbm.Edit.Sql.{
  EditTarget, Result, ok, err, sort, insert_sorted, updates, deletes, inserts,
  build_commit_statements,
}

length-insert_sorted : (x : ℕ) (xs : List ℕ) → length (insert_sorted x xs) ≡ suc (length xs)
unfolding insert_sorted
length-insert_sorted x [] = refl
length-insert_sorted x (y ∷ ys) = ground (arith, length-insert_sorted x ys)

length-sort : (xs : List ℕ) → length (sort xs) ≡ length xs
unfolding sort
length-sort [] = refl
length-sort (x ∷ xs) = ground (arith, length-sort xs, length-insert_sorted x (sort xs))

abbrev AtMost : ℕ → Result (List Text) → Type 0
AtMost n (ok statements) = length statements ≤ n
AtMost n (err e) = Unit

updates-AtMost :
    (target : EditTarget) (state : ResultsEditState) (rows : List ℕ)
    → AtMost (length rows) (updates target state rows)
unfolding updates
updates-AtMost target state [] = omega arith
updates-AtMost target state (row ∷ rows) = ground (arith, updates-AtMost target state rows)

deletes-AtMost :
    (target : EditTarget) (state : ResultsEditState) (rows : List ℕ)
    → AtMost (length rows) (deletes target state rows)
unfolding deletes
deletes-AtMost target state [] = omega arith
deletes-AtMost target state (row ∷ rows) = ground (arith, deletes-AtMost target state rows)

length-inserts :
    (target : EditTarget) (rows : List (List Text)) → length (inserts target rows) ≤ length rows
unfolding inserts
length-inserts target [] = omega arith
length-inserts target (row ∷ rows) = ground (arith, length-inserts target rows)

length-extend :
    (xs ys : List ℕ)
    → NoRepeats ys
    → ((a : ℕ) → contains a ys ≡ true → contains a xs ≡ false)
    → length (extend xs ys) ≡ length xs + length ys
unfolding extend insert contains
length-extend xs [] n h = omega arith
length-extend xs (y ∷ ys) n h =
    let apart = h y (ground arith) in
    let rest = length-extend (y ∷ xs) ys n.1 λ a k. ground (arith, h a, n.0) in
    ground (arith, apart, rest)

-- The statements of a commit that is built are the updates, the deletes and the inserts, in that
-- order.
pub build_commit_statements-parts :
    (target : EditTarget) (s : ResultsEditState) (statements : List Text)
    → build_commit_statements target s ≡ ok statements
    → (changed : List Text) × (removed : List Text) × (updates target s
          (sort (dirty_rows s.dirty_cells))
        ≡ ok changed)
      × (deletes target s (sort s.deleted) ≡ ok removed)
      × (statements ≡ changed ++ (removed ++ inserts target s.new_rows))
unfolding build_commit_statements
build_commit_statements-parts target s statements h = ground arith

deleted-undirty :
    (s : ResultsEditState) (r : ℕ)
    → IsValid s
    → contains r s.deleted ≡ true
    → contains r (dirty_rows s.dirty_cells) ≡ false
deleted-undirty s r i d = elim (Bool-cases (contains r (dirty_rows s.dirty_cells))) [
  | inr clean ↦ clean
  | inl dirty ↦
      let (c, v, e) =
        row_is_dirty-lookup r s.dirty_cells (ground (arith, contains-dirty_rows r s.dirty_cells)) in
      ground (arith, i.cells_live r c v e)
]

pub length-changes :
    (s : ResultsEditState)
    → IsValid s
    → commit_row_count s ≡ length (dirty_rows s.dirty_cells) + length s.deleted + length s.new_rows
unfolding count_changes
length-changes s i = omega (
  arith,
  i.counted,
  length-extend (dirty_rows s.dirty_cells) s.deleted i.deleted_once
      (λ r d. deleted-undirty s r i d),
)

length-of_AtMost :
    (n : ℕ) (r : Result (List Text)) (statements : List Text)
    → AtMost n r
    → r ≡ ok statements
    → length statements ≤ n
length-of_AtMost n (ok xs) statements a e = ground arith
length-of_AtMost n (err x) statements a e = cc

-- A commit has at most one statement for each row that the session counts as changed.
length-build_commit_statements :
    (target : EditTarget) (s : ResultsEditState) (statements : List Text)
    → IsValid s
    → build_commit_statements target s ≡ ok statements
    → length statements ≤ commit_row_count s
length-build_commit_statements target s statements i h =
    let (changed, removed, u, d, e) = build_commit_statements-parts target s statements h in
    omega (
      arith,
      length-changes s i,
      length-of_AtMost _ _ changed (updates-AtMost target s (sort (dirty_rows s.dirty_cells))) u,
      length-of_AtMost _ _ removed (deletes-AtMost target s (sort s.deleted)) d,
      length-inserts target s.new_rows,
      length-sort (dirty_rows s.dirty_cells),
      length-sort s.deleted,
      ap (length {A = Text}) e,
      length-append changed (removed ++ inserts target s.new_rows),
      length-append removed (inserts target s.new_rows),
    )
