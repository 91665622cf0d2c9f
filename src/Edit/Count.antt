-- ===== src/Edit/Count.antt =====
-- The cached commit count against the classification of the rows that the grid shows.
use dbm.Base.{
  ℕ, zero, suc, ◌+◌, ◌≤◌, ◌<◌, ◌≡◌, refl, ◌∙◌, inl, inr, Bool, true, false, ◌||◌, Bool-cases, some,
  List, [], ◌∷◌, arith, length, Text, nat_eq, pair_eq, ◌==◌, if◌then◌else◌,
}
use dbm.Base.Assoc.{lookup}
use dbm.Base.HashSet.{
  contains, extend, NoRepeats, contains-insert, contains-extend, insert-NoRepeats, extend-NoRepeats,
}
use dbm.Edit.Session.{
  RowChangeKind, no_change, Cells, ResultsEditState, row_is_dirty, row_change_kind, dirty_rows,
  count_changes, commit_row_count,
}
use dbm.Edit.Valid.{IsValid}

-- The number of rows below n that satisfy a test.
pub count_below : ℕ → (ℕ → Bool) → ℕ
count_below zero p = 0
count_below (suc n) p = (if p n then 1 else 0) + count_below n p

abbrev pub is_change : RowChangeKind → Bool
is_change no_change = false
is_change _ = true

pub contains-dirty_rows : (r : ℕ) (m : Cells) → contains r (dirty_rows m) ≡ row_is_dirty r m
unfolding contains dirty_rows row_is_dirty
contains-dirty_rows r [] = refl
contains-dirty_rows r (((x, c), v) ∷ m) =
    ground (arith, contains-insert x r (dirty_rows m), contains-dirty_rows r m)

dirty_rows-NoRepeats : (m : Cells) → NoRepeats (dirty_rows m)
unfolding dirty_rows
dirty_rows-NoRepeats [] = tt
dirty_rows-NoRepeats (((x, c), v) ∷ m) = insert-NoRepeats x _ (dirty_rows-NoRepeats m)

count_below_cong :
    (n : ℕ) (p q : ℕ → Bool) → ((r : ℕ) → r < n → p r ≡ q r) → count_below n p ≡ count_below n q
unfolding count_below
count_below_cong zero p q h = refl
count_below_cong (suc n) p q h =
    ground (arith, h n (omega arith), count_below_cong n p q (λ r l. h r (omega arith)))

count_below_one :
    (n x : ℕ) (p : ℕ → Bool)
    → x < n
    → p x ≡ false
    → count_below n (λ r. x == r || p r) ≡ suc (count_below n p)
unfolding count_below
count_below_one zero x p l h = absurd (omega arith)
count_below_one (suc n) x p l h = elim (Bool-cases (x == n)) [
  | inl e ↦
      let rest = count_below_cong n (λ r. x == r || p r) p (λ r k. ground arith) in
      ground (arith, rest)
  | inr e ↦ ground (arith, count_below_one n x p (ground arith) h)
]

count_below_none : (n : ℕ) → count_below n (λ r. false) ≡ 0
unfolding count_below
count_below_none zero = refl
count_below_none (suc n) = ground (arith, count_below_none n)

-- A list without repetitions is as long as the number of rows that it contains.
length-count_below :
    (n : ℕ) (xs : List ℕ)
    → NoRepeats xs
    → ((r : ℕ) → contains r xs ≡ true → r < n)
    → length xs ≡ count_below n (λ r. contains r xs)
unfolding contains
length-count_below n [] h b = omega (arith, count_below_none n)
length-count_below n (x ∷ xs) h b =
    let rest = length-count_below n xs h.1 (λ r k. b r (ground arith)) in
    let one = count_below_one n x (λ r. contains r xs) (b x (ground arith)) h.0 in
    ground (arith, rest, one)

count_below_all :
    (n m : ℕ) (p : ℕ → Bool)
    → ((r : ℕ) → n ≤ r → r < n + m → p r ≡ true)
    → (k : ℕ) → k ≡ n + m
    → count_below k p ≡ count_below n p + m
unfolding count_below
count_below_all n zero p h k e = let same : k ≡ n = omega arith in rw same (omega arith)
count_below_all n (suc m) p h zero e = absurd (omega arith)
count_below_all n (suc m) p h (suc k) e = ground (
  arith,
  h k (omega arith) (omega arith),
  count_below_all n m p (λ r a b. h r a (omega arith)) k (omega arith),
)

-- A modified row has a modified cell.
pub row_is_dirty-lookup :
    (r : ℕ) (m : Cells)
    → row_is_dirty r m ≡ true
    → (c : ℕ) × (v : Text) × (lookup (r, c) m ≡ some v)
unfolding row_is_dirty lookup
row_is_dirty-lookup r [] h = cc
row_is_dirty-lookup r (((x, c), v) ∷ m) h = elim (Bool-cases (x == r)) [
  | inl e ↦ (c, v, ground arith)
  | inr e ↦ let (d, w, p) = row_is_dirty-lookup r m (ground arith) in (d, w, ground arith)
]

module _ (s : ResultsEditState) where
  kind-idle : (r : ℕ) → s.editing ≡ false → is_change (row_change_kind s r) ≡ false
  unfolding row_change_kind
  kind-idle r off = ground arith

  kind-loaded :
      (r : ℕ)
      → s.editing ≡ true
      → r < length s.snapshots
      → is_change (row_change_kind s r) ≡ contains r (extend (dirty_rows s.dirty_cells) s.deleted)
  unfolding row_change_kind
  kind-loaded r on l = ground (
    arith,
    contains-extend r (dirty_rows s.dirty_cells) s.deleted,
    contains-dirty_rows r s.dirty_cells,
  )

  kind-new :
      (r : ℕ)
      → s.editing ≡ true
      → length s.snapshots ≤ r
      → r < length s.snapshots + length s.new_rows
      → is_change (row_change_kind s r) ≡ true
  unfolding row_change_kind
  kind-new r on l h = ground arith

  touched-lt :
      (r : ℕ)
      → IsValid s
      → contains r (extend (dirty_rows s.dirty_cells) s.deleted) ≡ true
      → r < length s.snapshots
  touched-lt r i h = elim (Bool-cases (contains r s.deleted)) [
    | inl d ↦ i.deleted_loaded r d
    | inr k ↦
        let (c, v, p) = row_is_dirty-lookup r s.dirty_cells (
          ground (
            arith,
            contains-extend r (dirty_rows s.dirty_cells) s.deleted,
            contains-dirty_rows r s.dirty_cells,
          )) in
        (i.cells_live r c v p).0
  ]

  count_changes-editing :
      IsValid s
      → s.editing ≡ true
      → count_changes s
        ≡ count_below
            (length s.snapshots + length s.new_rows)
            (λ r. is_change (row_change_kind s r))
  unfolding count_changes
  count_changes-editing i on =
      let touched = extend (dirty_rows s.dirty_cells) s.deleted in
      let loaded = length s.snapshots in
      let changed : ℕ → Bool = λ r. is_change (row_change_kind s r) in
      omega (
        arith,
        length-count_below loaded touched
            (extend-NoRepeats (dirty_rows s.dirty_cells) s.deleted
              (dirty_rows-NoRepeats s.dirty_cells))
            (λ r h. touched-lt r i h),
        count_below_cong loaded changed (λ r. contains r touched) (λ r l. kind-loaded r on l),
        count_below_all loaded (length s.new_rows) changed (λ r l h. kind-new r on l h)
            (loaded + length s.new_rows) refl,
      )

  count_changes-idle :
      IsValid s
      → s.editing ≡ false
      → count_changes s
        ≡ count_below
            (length s.snapshots + length s.new_rows)
            (λ r. is_change (row_change_kind s r))
  unfolding count_changes dirty_rows extend
  count_changes-idle i off =
      let n = length s.snapshots + length s.new_rows in
      let changed : ℕ → Bool = λ r. is_change (row_change_kind s r) in
      ground (
        arith,
        i.idle off,
        count_below_cong n changed (λ r. false) (λ r l. kind-idle r off),
        count_below_none n,
      )

-- The cached commit count of a valid session is the number of rows, loaded and new, that the grid
-- marks as changed.
pub commit_row_count_lem :
    (s : ResultsEditState)
    → IsValid s
    → commit_row_count s
      ≡ count_below (length s.snapshots + length s.new_rows) (λ r. is_change (row_change_kind s r))
commit_row_count_lem s i = i.counted ∙ elim (Bool-cases s.editing) [
  | inl on ↦ count_changes-editing s i on
  | inr off ↦ count_changes-idle s i off
]
