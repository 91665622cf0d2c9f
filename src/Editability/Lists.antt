-- ===== src/Editability/Lists.antt =====
-- The list between SELECT and FROM: what was read of it, and where it is all columns of the table.
use dbm.Base.{
  ℕ, ◌≡◌, ◌≢◌, ◌⊎◌, inl, inr, refl, sym, ap, subst, Bool, true, false, ◌&&◌, Option, none, some,
  List, [], ◌∷◌, ◌++◌, Text, trim, arith, if◌then◌else◌, if-cases, Option-cases, Bool-cases, ◌==◌,
  ◌=?◌, =?_iff, list_eq, nat_eq, eq_ignore_ascii_case,
}
use dbm.Base.Int.{ℤ, pos}
use dbm.Editability.Identifiers.{is_empty}
use dbm.Editability.Columns.{
  EditableQueryColumn, parse_select_column, parse_select_columns, pieces, parse_all, splits_at,
  depth_after, quote_after,
}
use dbm.Editability.Analyze.{is_select_star, split_dot, star}
use mathlib.Core.List.{append_assoc, append-nil}

-- The texts, with commas in between.
abbrev pub with_commas : List Text → Text
with_commas [] = []
with_commas (t ∷ []) = t
with_commas (t ∷ u ∷ more) = t ++ (b',' ∷ with_commas (u ∷ more))

-- Each of the texts was read, without its white space around, as the column of the same place; only
-- after the last comma there may be nothing but white space.
abbrev pub AreRead : List Text → List EditableQueryColumn → Type 0
AreRead [] columns = columns ≡ []
AreRead (t ∷ []) columns =
    ((trim t ≡ []) × (columns ≡ []))
    ⊎ ((column : EditableQueryColumn) × (parse_select_column (trim t) ≡ some column)
        × (columns ≡ column ∷ []))
AreRead (t ∷ u ∷ more) columns =
    (column : EditableQueryColumn) × (others : List EditableQueryColumn) × (columns
      ≡ column ∷ others)
    × (parse_select_column (trim t) ≡ some column)
    × AreRead (u ∷ more) others

-- The whole list was read.
abbrev pub IsRead : Text → List EditableQueryColumn → Type 0
IsRead body columns =
    (t : Text) × (more : List Text) × (with_commas (t ∷ more) ≡ body) × AreRead (t ∷ more) columns

-- If all of the pieces can be read.
abbrev IfRead : Text → Option (List EditableQueryColumn) → Type 0
IfRead body none = Unit
IfRead body (some columns) = IsRead body columns

last-IfRead :
    (current : Text)
    → IfRead current (parse_all (if is_empty (trim current) then [] else trim current ∷ []))
unfolding parse_all
last-IfRead current = elim (Bool-cases (is_empty (trim current))) [
  | inl e ↦ rw e (current, [], refl, inl (blank (trim current) e, refl))
  | inr e ↦ rw e (elim (Option-cases (parse_select_column (trim current))) [
    | inl f ↦ rw (f, parse_all) tt
    | inr (column, f) ↦ rw (f, parse_all) (current, [], refl, inr (column, f, refl))
  ])
]
  where
    blank : (t : Text) → is_empty t ≡ true → t ≡ []
    blank [] e = refl
    blank (c ∷ t) e = cc

comma-IfRead :
    (current s : Text) (more : List Text)
    → IfRead s (parse_all more)
    → IfRead (current ++ (b',' ∷ s)) (parse_all (trim current ∷ more))
unfolding parse_all
comma-IfRead current s more h = elim (Option-cases (parse_select_column (trim current))) [
  | inl f ↦ rw (f, parse_all) tt
  | inr (column, f) ↦
      rw (f, parse_all)
        (elim (Option-cases (parse_all more)) [
          | inl g ↦ rw (g, parse_all) tt
          | inr (columns, g) ↦
              let (t, others, whole, read) = subst (IfRead s) g h in
              rw (g, parse_all)
                (
                  current,
                  t ∷ others,
                  ap (λ x. current ++ (b',' ∷ x)) whole,
                  (column, columns, refl, f, read),
                )
        ])
]

pieces-IfRead :
    (depth : ℤ) (quote : Option ℕ) (current s : Text)
    → IfRead (current ++ s) (parse_all (pieces depth quote current s))
unfolding pieces splits_at
pieces-IfRead depth quote current [] =
    subst (λ x. IfRead x (parse_all (pieces depth quote current []))) (sym (append-nil current))
      (last-IfRead current)
pieces-IfRead depth quote current (c ∷ s) =
    if-cases (λ p. IfRead (current ++ (c ∷ s)) (parse_all p)) (splits_at depth quote c)
      (λ split.
        subst
          (λ d. IfRead (current ++ (d ∷ s)) (parse_all (trim current ∷ pieces depth quote [] s)))
          (comma depth quote c split)
          (comma-IfRead current s (pieces depth quote [] s) (pieces-IfRead depth quote [] s)))
      (λ whole.
        subst
          (λ x. IfRead x (
            parse_all
              (pieces (depth_after depth quote c) (quote_after quote c) (current ++ (c ∷ [])) s)))
          (append_assoc current (c ∷ []) s)
          (pieces-IfRead (depth_after depth quote c) (quote_after quote c) (current ++ (c ∷ [])) s))
  where
    comma : (depth : ℤ) (quote : Option ℕ) (c : ℕ) → splits_at depth quote c ≡ true → b',' ≡ c
    comma depth none c e = ground arith
    comma depth (some close) c e = cc

-- A list of columns that is not empty is that of the whole list.
pub parse_select_columns-IsRead :
    (body : Text) → parse_select_columns body ≢ [] → IsRead body (parse_select_columns body)
unfolding parse_select_columns
parse_select_columns-IsRead body =
    read (parse_all (pieces (pos 0) none [] body)) (pieces-IfRead (pos 0) none [] body)
  where
    Read : List EditableQueryColumn → Type 0
    Read columns = columns ≢ [] → IsRead body columns

    read :
        (o : Option (List EditableQueryColumn))
        → IfRead body o
        → Read (elim o as (λ x. List EditableQueryColumn) [ none ↦ [] | some columns ↦ columns ])
    read none h some_there = absurd (some_there refl)
    read (some columns) h some_there = h

-- All columns of the table: a star, alone or after the table's alias and a dot.
abbrev pub IsStar : Text → Option Text → Type 0
IsStar body alias =
    (trim body ≡ b'*' ∷ [])
    ⊎ ((name : Text) × (prefix : Text) × (suffix : Text) × (alias ≡ some name)
        × (trim body ≡ prefix ++ (b'.' ∷ suffix))
        × (eq_ignore_ascii_case (trim prefix) name ≡ true)
        × (trim suffix ≡ b'*' ∷ []))

abbrev IfDot : Text → Option (Text × Text) → Type 0
IfDot s none = Unit
IfDot s (some (prefix, suffix)) = s ≡ prefix ++ (b'.' ∷ suffix)

split_dot-IfDot : (s : Text) → IfDot s (split_dot s)
unfolding split_dot
split_dot-IfDot [] = tt
split_dot-IfDot (c ∷ s) =
    if-cases (IfDot (c ∷ s)) (c == b'.')
      (λ here. let dot : c ≡ b'.' = ground arith in ap (λ x. x ∷ s) dot)
      (λ later. more (split_dot s) (split_dot-IfDot s))
  where
    more :
        (o : Option (Text × Text))
        → IfDot s o
        → IfDot (c ∷ s) (elim o as (λ x. Option (Text × Text)) [
          | none ↦ none
          | some (prefix, suffix) ↦ some (c ∷ prefix, suffix)
        ])
    more none h = tt
    more (some (prefix, suffix)) h = ap (λ t. c ∷ t) h

dotted :
    (body name : Text) (o : Option (Text × Text))
    → IfDot (trim body) o
    → elim o as (λ x. Bool) [
      | none ↦ false
      | some (prefix, suffix) ↦ eq_ignore_ascii_case (trim prefix) name && trim suffix =? star
    ]
      ≡ true
    → IsStar body (some name)
dotted body name none h e = cc
dotted body name (some (prefix, suffix)) h e =
    inr (name, prefix, suffix, refl, h, ground arith, (=?_iff (trim suffix) star).0 (ground arith))

-- A list that is taken for all columns is a star.
pub is_select_star-IsStar :
    (body : Text) (alias : Option Text) → is_select_star body alias ≡ true → IsStar body alias
unfolding is_select_star
is_select_star-IsStar body none =
    if-cases (λ b. b ≡ true → IsStar body none) (trim body =? star)
      (λ alone h. inl ((=?_iff (trim body) star).0 alone)) (λ other h. cc)
is_select_star-IsStar body (some name) =
    if-cases (λ b. b ≡ true → IsStar body (some name)) (trim body =? star)
      (λ alone h. inl ((=?_iff (trim body) star).0 alone))
      (λ other. dotted body name (split_dot (trim body)) (split_dot-IfDot (trim body)))
