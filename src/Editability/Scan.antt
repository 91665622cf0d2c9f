-- ===== src/Editability/Scan.antt =====
-- The search for a keyword finds the first place at which its own tests hold.
use dbm.Base.{
  if-cases, ℕ, ◌≡◌, ◌<◌, refl, ap, ◌∙◌, Bool, true, false, ◌&&◌, Option, none, some, [], ◌∷◌, ◌++◌,
  Text, arith, length,
}
use dbm.Editability.Keywords.{Level, step, may_begin, matches_at, find_from, push_front}

unfoldable pub level_after : Level → Text → Level
level_after l [] = l
level_after l (c ∷ s) = level_after (step l c) s

unfoldable pub last_of : Option ℕ → Text → Option ℕ
last_of previous [] = previous
last_of previous (c ∷ s) = last_of (some c) s

abbrev may_start : Level → Text → Bool
may_start l [] = false
may_start l (c ∷ s) = may_begin l c

-- After `front` a keyword begins: no quote and no parenthesis is open there, and it is a whole word.
unfoldable pub begins : Text → Option ℕ → Level → Text → Text → Bool
unfolding level_after last_of
begins keyword previous l front rest =
    may_start (level_after l front) rest && matches_at keyword (last_of previous front) rest

-- No shorter part of the text is followed by the keyword.
abbrev pub IsFirstTested : Text → Option ℕ → Level → Text → Text → Type 0
IsFirstTested keyword previous l front s =
    (earlier rest : Text)
    → earlier ++ rest ≡ s
    → length earlier < length front
    → begins keyword previous l earlier rest ≡ false

abbrev pub Skips : Text → Option ℕ → Level → Text → Type 0
Skips keyword previous l s =
    (front rest : Text) → front ++ rest ≡ s → begins keyword previous l front rest ≡ false

-- What the loop does.
abbrev pub Scans : Text → Option ℕ → Level → Text → Option (Text × Text) → Type 0
Scans keyword previous l s none = Skips keyword previous l s
Scans keyword previous l s (some (front, rest)) =
    (front ++ rest ≡ s)
    × (begins keyword previous l front rest ≡ true)
    × IsFirstTested keyword previous l front s

begins-here :
    (keyword : Text) (previous : Option ℕ) (l : Level) (c : ℕ) (s rest : Text)
    → rest ≡ c ∷ s
    → begins keyword previous l [] rest ≡ (may_begin l c && matches_at keyword previous (c ∷ s))
unfolding begins
begins-here keyword previous l c s rest e = rw e refl

-- The places of a text are its beginning and those of its rest.
begins-later :
    (keyword : Text) (previous : Option ℕ) (l : Level) (c d : ℕ) (front rest s : Text)
    → d ∷ (front ++ rest) ≡ c ∷ s
    → begins keyword previous l (d ∷ front) rest ≡ begins keyword (some c) (step l c) front rest
unfolding begins
begins-later keyword previous l c d front rest s e = let same : d ≡ c = ground arith in rw same refl

-- One more character in front, where the keyword does not begin.
Scans-later :
    (keyword : Text) (previous : Option ℕ) (l : Level) (c : ℕ) (s : Text) (o : Option (Text × Text))
    → (may_begin l c && matches_at keyword previous (c ∷ s)) ≡ false
    → Scans keyword (some c) (step l c) s o
    → Scans keyword previous l (c ∷ s) (push_front c o)
Scans-later keyword previous l c s none off h = λ front rest e. later front rest e
  where
    later : Skips keyword previous l (c ∷ s)
    later [] rest e = begins-here keyword previous l c s rest e ∙ off
    later (d ∷ front) rest e =
        begins-later keyword previous l c d front rest s e ∙ h front rest (ground arith)
Scans-later keyword previous l c s (some (front, rest)) off (whole, here, first) = (
  ap (λ t. c ∷ t) whole,
  begins-later keyword previous l c c front rest s (ap (λ t. c ∷ t) whole) ∙ here,
  λ earlier after e short. later earlier after e short,
)
  where
    later : IsFirstTested keyword previous l (c ∷ front) (c ∷ s)
    later [] after e short = begins-here keyword previous l c s after e ∙ off
    later (d ∷ earlier) after e short =
        begins-later keyword previous l c d earlier after s e
        ∙ first earlier after (ground arith) (omega arith)

pub find_from-Scans :
    (keyword : Text) (previous : Option ℕ) (l : Level) (s : Text)
    → Scans keyword previous l s (find_from keyword previous l s)
unfolding find_from
find_from-Scans keyword previous l [] = λ front rest e. nothing front rest e
  where
    nothing : Skips keyword previous l []
    nothing [] [] e = unfold begins in refl
    nothing [] (c ∷ rest) e = cc
    nothing (c ∷ front) rest e = cc
find_from-Scans keyword previous l (c ∷ s) =
    if-cases (Scans keyword previous l (c ∷ s))
      (may_begin l c && matches_at keyword previous (c ∷ s))
      (λ here. (
        refl,
        begins-here keyword previous l c s (c ∷ s) refl ∙ here,
        λ earlier rest e short. absurd (omega arith),
      ))
      (λ off.
        Scans-later keyword previous l c s (find_from keyword (some c) (step l c) s) off
          (find_from-Scans keyword (some c) (step l c) s))
