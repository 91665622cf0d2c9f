-- ===== src/Editability/Tables.antt =====
-- The part of a query after FROM: where it ends, and what does not stand in it.
use dbm.Base.{
  ℕ, ◌≤◌, ◌<◌, ◌≡◌, ◌⊎◌, inl, inr, subst, true, false, Option, none, some, List, [], ◌∷◌, ◌++◌,
  Text, codes, arith, length, ltb, if-cases, ◌||◌, ◌≢◌,
}
use mathlib.Core.List.{append-nil}
use dbm.Editability.Keywords.{find_top_level_keyword, contains_keyword}
use dbm.Editability.Identifiers.{is_empty}
use dbm.Editability.Analyze.{shorter, before_keywords, contains_char, parse_from_source, FromSource}
use dbm.Editability.Places.{Stands, Without}
use dbm.Editability.Toplevel.{Never, Finds, Never-not_found, find_top_level_keyword-Finds}

-- None of the keywords stands at a place that is less than `n` characters from the beginning.
abbrev pub NoneBefore : List Text → Option ℕ → Text → ℕ → Type 0
NoneBefore [] previous s n = Unit
NoneBefore (keyword ∷ more) previous s n =
    ((earlier after : Text)
      → earlier ++ after ≡ s
      → length earlier < n
      → ¬ Stands keyword previous earlier after)
    × NoneBefore more previous s n

-- One of the keywords stands there, or it is the end of the text.
abbrev pub OneOf : List Text → Option ℕ → Text → Text → Type 0
OneOf [] previous front rest = rest ≡ []
OneOf (keyword ∷ more) previous front rest =
    Stands keyword previous front rest ⊎ OneOf more previous front rest

-- `front` is the text up to the first of the keywords.
abbrev pub IsUpTo : List Text → Option ℕ → Text → Text → Type 0
IsUpTo keywords previous s front =
    (rest : Text) × (front ++ rest ≡ s)
    × OneOf keywords previous front rest
    × NoneBefore keywords previous s (length front)

NoneBefore-shorter :
    (keywords : List Text) (previous : Option ℕ) (s : Text) (m n : ℕ)
    → m ≤ n
    → NoneBefore keywords previous s n
    → NoneBefore keywords previous s m
NoneBefore-shorter [] previous s m n h k = tt
NoneBefore-shorter (keyword ∷ more) previous s m n h (k, ks) = (
  λ earlier after e short. k earlier after e (omega arith),
  NoneBefore-shorter more previous s m n h ks,
)

-- With one more keyword, which was found or not.
shorter-IsUpTo :
    (keyword : Text) (more : List Text) (previous : Option ℕ) (s front : Text)
    (o : Option (Text × Text))
    → Finds keyword previous s o
    → IsUpTo more previous s front
    → IsUpTo (keyword ∷ more) previous s (shorter o front)
shorter-IsUpTo keyword more previous s front none never (rest, whole, one, before) =
    (rest, whole, inr one, (λ earlier after e short. never earlier after e, before))
shorter-IsUpTo keyword more previous s front (some (here, there)) (all, stands, first)
      (rest, whole, one, before) =
    if-cases (IsUpTo (keyword ∷ more) previous s) (ltb (length here) (length front))
      (λ less. (
        there,
        all,
        inl stands,
        (
          first,
          NoneBefore-shorter more previous s (length here) (length front) (ground arith) before,
        ),
      ))
      (λ more_or_same. (
        rest,
        whole,
        inr one,
        (λ earlier after e short. first earlier after e (ground arith), before),
      ))

pub before_keywords-IsUpTo :
    (keywords : List Text) (previous : Option ℕ) (s : Text)
    → IsUpTo keywords previous s (before_keywords keywords previous s)
unfolding before_keywords
before_keywords-IsUpTo [] previous s = ([], append-nil s, λ i. [], tt)
before_keywords-IsUpTo (keyword ∷ more) previous s =
    shorter-IsUpTo keyword more previous s (before_keywords more previous s)
      (find_top_level_keyword keyword previous s) (find_top_level_keyword-Finds keyword previous s)
      (before_keywords-IsUpTo more previous s)

pub contains_char-Without : (c : ℕ) (s : Text) → contains_char c s ≡ false → Without c s
unfolding contains_char dbm.Base.any
contains_char-Without c [] e = tt
contains_char-Without c (d ∷ s) e = (λ h. ground arith, contains_char-Without c s (ground arith))

-- One table: no list of tables, no subquery or call, and no join.
abbrev pub IsSingle : Text → Type 0
IsSingle body =
    (body ≢ [])
    × Without b',' body
    × Without b'(' body
    × Without b')' body
    × Never (codes "JOIN") none body

pub parse_from_source-IsSingle :
    (body : Text) (source : FromSource) → parse_from_source body ≡ some source → IsSingle body
unfolding parse_from_source contains_keyword
parse_from_source-IsSingle body source e =
    if-cases (λ o. o ≡ some source → IsSingle body)
      (is_empty body
        || contains_char b',' body
        || contains_char b'(' body
        || contains_char b')' body
        || contains_keyword (codes "JOIN") body)
      (λ off h. cc)
      (λ on h. (
        full body (ground arith),
        contains_char-Without b',' body (ground arith),
        contains_char-Without b'(' body (ground arith),
        contains_char-Without b')' body (ground arith),
        Never-not_found (codes "JOIN") none body (ground arith),
      ))
      e
  where
    full : (t : Text) → is_empty t ≡ false → t ≢ []
    full [] e = cc
    full (c ∷ t) e = λ h. cc
