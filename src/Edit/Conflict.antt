-- ===== src/Edit/Conflict.antt =====
-- Which statements of a commit are checked for conflicts, and which edits a commit leaves out.
use dbm.Base.{
  ℕ, ◌≡◌, sym, subst, ◌∙◌, Bool, true, false, some, List, [], ◌∷◌, ◌++◌, arith, Text, nat_eq,
  if-cases,
}
use mathlib.Core.List.{append_assoc}
use dbm.Base.HashSet.{contains}
use dbm.Edit.Session.{ResultsEditState, dirty_rows}
use dbm.Edit.Sql.{
  EditTarget, Result, ok, err, ◌>>=◌, is_empty, full_row_where, snapshot_of, assignments, sort,
  updates, deletes, inserts, update_text, delete_text, insert_text, given_pairs,
  build_commit_statements, statement_requires_one_row,
}
use dbm.Edit.Commit.{build_commit_statements-parts}

module _ (table : Text) (sets : List Text) (where_clause : Text) where
  requires-update_text :
      statement_requires_one_row (update_text table sets where_clause) ≡ some true
  unfolding statement_requires_one_row update_text
  requires-update_text = ground arith

requires-delete_text :
    (table where_clause : Text)
    → statement_requires_one_row (delete_text table where_clause) ≡ some true
unfolding statement_requires_one_row delete_text
requires-delete_text table where_clause = ground arith

requires-insert_text :
    (target : EditTarget) (pairs : List (Text × Text))
    → statement_requires_one_row (insert_text target pairs) ≡ some false
unfolding statement_requires_one_row insert_text
requires-insert_text target pairs = ground arith

abbrev AllRequire : Bool → List Text → Type 0
AllRequire b [] = Unit
AllRequire b (sql ∷ rest) = (statement_requires_one_row sql ≡ some b) × AllRequire b rest

abbrev ResultRequires : Bool → Result (List Text) → Type 0
ResultRequires b (ok statements) = AllRequire b statements
ResultRequires b (err e) = Unit

Requires-bind :
    {A : Type 0} (b : Bool) (m : Result A) (f : A → Result (List Text))
    → ((a : A) → ResultRequires b (f a))
    → ResultRequires b (m >>= f)
Requires-bind b (ok a) f h = h a
Requires-bind b (err e) f h = tt

Requires-more :
    (b : Bool) (sql : Text) (m : Result (List Text))
    → statement_requires_one_row sql ≡ some b
    → ResultRequires b m
    → ResultRequires b (m >>= λ more. ok (sql ∷ more))
Requires-more b sql (ok more) e h = (e, h)
Requires-more b sql (err x) e h = tt

updates-AllRequire :
    (target : EditTarget) (state : ResultsEditState) (rows : List ℕ)
    → ResultRequires true (updates target state rows)
unfolding updates
updates-AllRequire target state [] = tt
updates-AllRequire target state (row ∷ rows) =
    let rest = updates-AllRequire target state rows in
    if-cases (ResultRequires true) (contains row state.deleted) (λ gone. rest)
      λ kept. Requires-bind true (snapshot_of state row) _ λ snapshot.
        if-cases (ResultRequires true) (is_empty (assignments target row state.dirty_cells))
          (λ empty. rest)
          λ changed. Requires-bind true (full_row_where target snapshot) _ λ where_clause.
            Requires-more true _ (updates target state rows) (requires-update_text _ _ where_clause)
              rest

deletes-AllRequire :
    (target : EditTarget) (state : ResultsEditState) (rows : List ℕ)
    → ResultRequires true (deletes target state rows)
unfolding deletes
deletes-AllRequire target state [] = tt
deletes-AllRequire target state (row ∷ rows) =
    Requires-bind true (snapshot_of state row) _ λ snapshot.
      Requires-bind true (full_row_where target snapshot) _ λ where_clause.
        Requires-more true _ (deletes target state rows) (requires-delete_text _ where_clause)
          (deletes-AllRequire target state rows)

inserts-AllRequire :
    (target : EditTarget) (rows : List (List Text)) → AllRequire false (inserts target rows)
unfolding inserts
inserts-AllRequire target [] = tt
inserts-AllRequire target (row ∷ rows) = ground (
  arith,
  inserts-AllRequire target rows,
  requires-insert_text target (given_pairs target.columns row),
)

AllRequire-of_ok :
    (b : Bool) (r : Result (List Text)) (statements : List Text)
    → ResultRequires b r
    → r ≡ ok statements
    → AllRequire b statements
AllRequire-of_ok b r statements h e = subst (ResultRequires b) e h

AllRequire-append :
    (b : Bool) (xs ys : List Text) → AllRequire b xs → AllRequire b ys → AllRequire b (xs ++ ys)
AllRequire-append b [] ys h k = k
AllRequire-append b (x ∷ xs) ys h k = (h.0, AllRequire-append b xs ys h.1 k)

-- A commit that is built is a list of updates and deletes, every one of which the conflict check
-- holds to exactly one row, and then the inserts, of which it holds none to that.
build_commit_statements-AllRequire :
    (target : EditTarget) (s : ResultsEditState) (statements : List Text)
    → build_commit_statements target s ≡ ok statements
    → (checked : List Text) × (statements ≡ checked ++ inserts target s.new_rows)
      × AllRequire true checked
      × AllRequire false (inserts target s.new_rows)
build_commit_statements-AllRequire target s statements h =
    let (changed, removed, u, d, e) = build_commit_statements-parts target s statements h in
    (
      changed ++ removed,
      e ∙ sym (append_assoc changed removed (inserts target s.new_rows)),
      AllRequire-append true changed removed
          (AllRequire-of_ok true _ changed
            (updates-AllRequire target s (sort (dirty_rows s.dirty_cells))) u)
          (AllRequire-of_ok true _ removed (deletes-AllRequire target s (sort s.deleted)) d),
      inserts-AllRequire target s.new_rows,
    )
