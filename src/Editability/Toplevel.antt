-- ===== src/Editability/Toplevel.antt =====
-- The search for a keyword against its description: the first place at which the keyword stands outside of
-- quotes and parentheses.
use dbm.Base.{
  ℕ, ◌≡◌, ◌<◌, subst, false, Option, none, some, List, [], ◌∷◌, ◌++◌, Text, arith, length,
  Option-cases, inl, inr,
}
use dbm.Editability.Keywords.{
  top, find_top_level_keyword, is_found, contains_keyword, has_top_level_keyword,
}
use dbm.Editability.Scan.{Scans, begins, find_from-Scans}
use dbm.Editability.Places.{Stands}
use dbm.Editability.Standing.{begins_iff}

-- The keyword stands at no place of the text.
abbrev pub Never : Text → Option ℕ → Text → Type 0
Never keyword previous s =
    (front rest : Text) → front ++ rest ≡ s → ¬ Stands keyword previous front rest

-- What a search ought to find: the first place where the keyword stands, as what is in front of it and
-- the rest, or nothing, where there is none.
abbrev pub Finds : Text → Option ℕ → Text → Option (Text × Text) → Type 0
Finds keyword previous s none = Never keyword previous s
Finds keyword previous s (some (front, rest)) =
    (front ++ rest ≡ s)
    × Stands keyword previous front rest
    × ((earlier after : Text)
        → earlier ++ after ≡ s
        → length earlier < length front
        → ¬ Stands keyword previous earlier after)

false-not_Stands :
    (keyword : Text) (previous : Option ℕ) (front rest : Text)
    → begins keyword previous top front rest ≡ false
    → ¬ Stands keyword previous front rest
false-not_Stands keyword previous front rest off h =
    absurd (let on = (begins_iff keyword previous front rest).1 h in ground arith)

Scans-Finds :
    (keyword : Text) (previous : Option ℕ) (s : Text) (o : Option (Text × Text))
    → Scans keyword previous top s o
    → Finds keyword previous s o
Scans-Finds keyword previous s none h =
    λ front rest e. false-not_Stands keyword previous front rest (h front rest e)
Scans-Finds keyword previous s (some (front, rest)) (whole, here, first) = (
  whole,
  (begins_iff keyword previous front rest).0 here,
  λ earlier after e short.
      false-not_Stands keyword previous earlier after (first earlier after e short),
)

-- The search finds the first place at which the keyword stands, in any case of its letters, outside of
-- quotes and brackets and with no parenthesis open, as a word of its own, and finds nothing only where
-- there is no such place. A quote ends at the next character that closes it, a parenthesis too many that
-- closes counts for nothing, and the place itself is at no quote and no parenthesis.
pub find_top_level_keyword-Finds :
    (keyword : Text) (previous : Option ℕ) (s : Text)
    → Finds keyword previous s (find_top_level_keyword keyword previous s)
unfolding find_top_level_keyword
find_top_level_keyword-Finds keyword previous s =
    Scans-Finds keyword previous s (find_top_level_keyword keyword previous s)
      (find_from-Scans keyword previous top s)

pub Never-not_found :
    (keyword : Text) (previous : Option ℕ) (s : Text)
    → is_found (find_top_level_keyword keyword previous s) ≡ false
    → Never keyword previous s
Never-not_found keyword previous s e =
    elim (Option-cases (find_top_level_keyword keyword previous s)) [
      | inl none_found ↦
          subst (Finds keyword previous s) none_found
            (find_top_level_keyword-Finds keyword previous s)
      | inr (found, some_found) ↦ absurd (ground arith)
    ]

-- None of the keywords stands anywhere in the text.
abbrev pub NoneOf : List Text → Text → Type 0
NoneOf [] s = Unit
NoneOf (keyword ∷ more) s = Never keyword none s × NoneOf more s

pub NoneOf-not_found :
    (keywords : List Text) (s : Text) → has_top_level_keyword keywords s ≡ false → NoneOf keywords s
unfolding has_top_level_keyword contains_keyword
NoneOf-not_found [] s e = tt
NoneOf-not_found (keyword ∷ more) s e =
    (Never-not_found keyword none s (ground arith), NoneOf-not_found more s (ground arith))
