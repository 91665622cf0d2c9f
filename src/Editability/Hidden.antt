-- ===== src/Editability/Hidden.antt =====
-- What the removal of comments hides from the analysis.
use dbm.Base.{ℕ, ◌≡◌, ◌≢◌, refl, ap, ◌∙◌, [], ◌∷◌, ◌++◌, Text, arith}
use dbm.Editability.Comments.{
  outside, line, strip, strip_sql_comments, normalize_editable_sql, newline,
}
use dbm.Editability.Analyze.{analyze_editable_query_editability}

-- No character that could begin a comment; no end of the line.
abbrev pub IsPlain : Text → Type 0
IsPlain [] = Unit
IsPlain (c ∷ s) = (c ≢ b'-') × (c ≢ b'/') × IsPlain s

abbrev pub IsLine : Text → Type 0
IsLine [] = Unit
IsLine (c ∷ s) = (c ≢ newline) × IsLine s

strip-line : (s : Text) → IsLine s → strip line s ≡ []
unfolding strip
strip-line [] h = refl
strip-line (c ∷ s) h = ground (arith, strip-line s h.1)

strip-plain : (c : ℕ) (s : Text) → c ≢ b'-' → c ≢ b'/' → strip outside (c ∷ s) ≡ c ∷ strip outside s
unfolding strip
strip-plain c [] h k = refl
strip-plain c (d ∷ s) h k = ground arith

strip-comment : (a b : Text) → IsPlain a → IsLine b → strip outside (a ++ (b'-' ∷ b'-' ∷ b)) ≡ a
strip-comment [] b h k = unfold strip in strip-line b k
strip-comment (c ∷ a) b h k =
    strip-plain c (a ++ (b'-' ∷ b'-' ∷ b)) h.0 h.1 ∙ ap (λ s. c ∷ s) (strip-comment a b h.2 k)

strip_id : (a : Text) → IsPlain a → strip outside a ≡ a
strip_id [] h = unfold strip in refl
strip_id (c ∷ a) h = strip-plain c a h.0 h.1 ∙ ap (λ s. c ∷ s) (strip_id a h.2)

-- A query that has no dash and no slash in front of its first `--`, and no end of a line after it, is
-- judged by what stands in front of these dashes, whatever follows them: also where the dashes stand in a
-- string literal and a set operation or another statement follows it.
pub analyze-hidden :
    (a b : Text)
    → IsPlain a
    → IsLine b
    → analyze_editable_query_editability (a ++ (b'-' ∷ b'-' ∷ b))
      ≡ analyze_editable_query_editability a
unfolding analyze_editable_query_editability normalize_editable_sql strip_sql_comments
analyze-hidden a b h k = rw (strip-comment a b h k, strip_id a h) refl
