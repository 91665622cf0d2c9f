-- ===== src/Completion/Suppressed.antt =====
-- Whether the cursor stands in a string or a comment.
use dbm.Base.{
  ℕ, ◌≡◌, ◌≤◌, refl, Bool, true, false, ◌&&◌, List, [], ◌∷◌, Text, arith, any, ltb, leb, Bool-cases,
  inl, inr,
}
use dbm.Completion.Tokens.{TokenKind, string, comment, SemanticToken, is_suppressed_at_cursor}
use dbm.Completion.Spans.{AreSpans}

abbrev pub hides : TokenKind → Bool
hides string = true
hides comment = true
hides _ = false

-- The cursor stands inside the token, and the token is a string or a comment.
unfoldable is_hidden_by : ℕ → SemanticToken → Bool
is_hidden_by cursor token =
    ltb token.span.start cursor && ltb cursor token.span.end && hides token.kind

later-not_hidden :
    (at : ℕ) (s : Text) (tokens : List SemanticToken) (cursor : ℕ)
    → AreSpans at s tokens
    → cursor ≤ at
    → any (is_hidden_by cursor) tokens ≡ false
unfolding any AreSpans is_hidden_by
later-not_hidden at s [] cursor h k = refl
later-not_hidden at s (token ∷ tokens) cursor (gap, rest, joined, some_text, start, end, more) k =
    ground (arith, later-not_hidden token.span.end rest tokens cursor more (omega arith))

-- The loop that stops at the first token past the cursor finds whether the cursor stands inside any
-- string or comment of the tokens of a text.
is_suppressed_at_cursor-any :
    (at : ℕ) (s : Text) (tokens : List SemanticToken) (cursor : ℕ)
    → AreSpans at s tokens
    → is_suppressed_at_cursor tokens cursor ≡ any (is_hidden_by cursor) tokens
unfolding any AreSpans is_hidden_by is_suppressed_at_cursor
is_suppressed_at_cursor-any at s [] cursor h = refl
is_suppressed_at_cursor-any at s (token ∷ tokens) cursor
      (gap, rest, joined, some_text, start, end, more) =
    elim (Bool-cases (leb cursor token.span.start)) [
      | inl before ↦
          let none_later = later-not_hidden token.span.end rest tokens cursor more (grind arith) in
          ground arith
      | inr on ↦ elim (Bool-cases (leb token.span.end cursor)) [
        | inl past ↦
            let later = is_suppressed_at_cursor-any token.span.end rest tokens cursor more in
            ground arith
        | inr inside ↦
            let none_later =
              later-not_hidden token.span.end rest tokens cursor more (ground arith) in
            ground arith
      ]
    ]
