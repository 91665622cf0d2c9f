-- ===== src/Completion/Spans.antt =====
-- Where the tokens stand in the text.
use dbm.Base.{
  ℕ, zero, suc, ◌+◌, ◌≡◌, ◌≤◌, refl, ap, subst, ◌∙◌, Bool, true, not, ◌&&◌, ◌||◌, Option, none,
  some, List, [], ◌∷◌, ◌++◌, Text, arith, length, byte_len, is_ascii_digit, ltb, ◌==◌, if-cases,
  Option-cases, inl, inr,
}
use mathlib.Core.List.{append_assoc}
use dbm.Completion.Tokens.{
  is_ascii_whitespace, is_ident_start, is_ident_part, is_punctuation, string, quoted_identifier,
  number, word, TokenKind, comment, SemanticToken, push_token, span_while, read_quoted, skip_block,
  push_front, begins_with, tail, Round, taken, taken_block, next_round, with_token, tokens_from,
}

-- Two parts of a text.
abbrev Joins : Text → Text × Text → Type 0
Joins s (front, back) = front ++ back ≡ s

span_while-Joins : (p : ℕ → Bool) (s : Text) → Joins s (span_while p s)
unfolding span_while
span_while-Joins p [] = refl
span_while-Joins p (c ∷ s) =
    if-cases (Joins (c ∷ s)) (p c) (λ e. ap (λ t. c ∷ t) (span_while-Joins p s)) λ e. refl

read_quoted-Joins : (quote : ℕ) (s : Text) → Joins s (read_quoted quote s)
unfolding read_quoted
read_quoted-Joins quote [] = refl
read_quoted-Joins quote (c ∷ []) = refl
read_quoted-Joins quote (c ∷ d ∷ s) =
    if-cases (Joins (c ∷ d ∷ s)) (c == quote)
      (λ e.
        if-cases (Joins (c ∷ d ∷ s)) (d == quote)
          (λ e. ap (λ t. c ∷ d ∷ t) (read_quoted-Joins quote s)) λ e. refl)
      λ e. ap (λ t. c ∷ t) (read_quoted-Joins quote (d ∷ s))

abbrev JoinsIf : Text → Option (Text × Text) → Type 0
JoinsIf s none = Unit
JoinsIf s (some parts) = Joins s parts

push_front-JoinsIf :
    (c : ℕ) (s : Text) (o : Option (Text × Text)) → JoinsIf s o → JoinsIf (c ∷ s) (push_front c o)
push_front-JoinsIf c s none h = tt
push_front-JoinsIf c s (some parts) h = ap (λ t. c ∷ t) h

skip_block-JoinsIf : (s : Text) → JoinsIf s (skip_block s)
unfolding skip_block
skip_block-JoinsIf [] = refl
skip_block-JoinsIf (c ∷ []) = if-cases (JoinsIf (c ∷ [])) (ltb c 0x80) (λ e. refl) λ e. tt
skip_block-JoinsIf (c ∷ d ∷ s) =
    if-cases (JoinsIf (c ∷ d ∷ s)) (c == b'*' && d == b'/') (λ e. refl)
      λ e. push_front-JoinsIf c (d ∷ s) (skip_block (d ∷ s)) (skip_block-JoinsIf (d ∷ s))

-- A round takes characters from the front, at least one.
abbrev Takes : Text → Round → Type 0
Takes s r = (r.body ++ r.rest ≡ s) × (1 ≤ length r.body)

abbrev pub TakesIf : Text → Option Round → Type 0
TakesIf s none = Unit
TakesIf s (some r) = Takes s r

taken-Takes :
    (kind : Option TokenKind) (depth c : ℕ) (s : Text) (parts : Text × Text)
    → Joins s parts
    → Takes (c ∷ s) (taken kind depth c parts)
taken-Takes kind depth c s (front, back) h = (ap (λ t. c ∷ t) h, omega arith)

opened-TakesIf :
    (depth c : ℕ) (s : Text) (o : Option (Text × Text))
    → JoinsIf s o
    → TakesIf (c ∷ b'*' ∷ s) (taken_block depth c o)
opened-TakesIf depth c s none h = tt
opened-TakesIf depth c s (some (front, back)) h = (ap (λ t. c ∷ b'*' ∷ t) h, omega arith)

taken_block-TakesIf :
    (depth c : ℕ) (s : Text)
    → begins_with b'*' s ≡ true
    → TakesIf (c ∷ s) (taken_block depth c (skip_block (tail s)))
taken_block-TakesIf depth c [] h = cc
taken_block-TakesIf depth c (d ∷ s) h =
    let star : b'*' ≡ d = ground arith in
    subst (λ e. TakesIf (c ∷ e ∷ s) (taken_block depth c (skip_block s))) star
      (opened-TakesIf depth c s (skip_block s) (skip_block-JoinsIf s))

byte_len-append : (s t : Text) → byte_len (s ++ t) ≡ byte_len s + byte_len t
unfolding byte_len
byte_len-append [] t = omega arith
byte_len-append (c ∷ s) t = omega (arith, byte_len-append s t)

-- Tokens in the text `s` from its byte `at` on: each has the characters that stand at its span, at least
-- one, and begins where the one before ends, or later.
unfoldable pub AreSpans : ℕ → Text → List SemanticToken → Type 0
AreSpans at s [] = Unit
AreSpans at s (token ∷ tokens) =
    (gap : Text) × (rest : Text) × (gap ++ (token.text ++ rest) ≡ s)
    × (1 ≤ length token.text)
    × (token.span.start ≡ at + byte_len gap)
    × (token.span.end ≡ token.span.start + byte_len token.text)
    × AreSpans token.span.end rest tokens

-- Characters that belong to no token.
AreSpans-gap :
    (at : ℕ) (body rest s : Text) (tokens : List SemanticToken)
    → body ++ rest ≡ s
    → AreSpans (at + byte_len body) rest tokens
    → AreSpans at s tokens
unfolding AreSpans
AreSpans-gap at body rest s [] e h = tt
AreSpans-gap at body rest s (token ∷ tokens) e (gap, back, joined, some_text, start, end, more) = (
  body ++ gap,
  back,
  append_assoc body gap (token.text ++ back) ∙ (ap (λ t. body ++ t) joined ∙ e),
  some_text,
  omega (arith, byte_len-append body gap),
  end,
  more,
)

unfoldable pub AreSpansIf : ℕ → Text → Option (List SemanticToken) → Type 0
AreSpansIf at s none = Unit
AreSpansIf at s (some tokens) = AreSpans at s tokens

module _ (is_alphabetic is_alphanumeric : ℕ → Bool) where
  pub next_round-TakesIf :
      (depth c : ℕ) (s : Text)
      → TakesIf (c ∷ s) (next_round is_alphabetic is_alphanumeric depth c s)
  unfolding next_round
  next_round-TakesIf depth c s =
      if-cases (TakesIf (c ∷ s)) (is_ascii_whitespace c) (λ e. plain none)
        λ e.
          if-cases (TakesIf (c ∷ s)) (c == b'-' && begins_with b'-' s)
            (λ e.
              taken-Takes (some comment) depth c s (span_while (λ d. not (d == 0xa || d == 0xd)) s)
                (span_while-Joins (λ d. not (d == 0xa || d == 0xd)) s))
            λ e.
              if-cases (TakesIf (c ∷ s)) (c == b'/' && begins_with b'*' s)
                (λ e. taken_block-TakesIf depth c s (ground arith))
                λ e.
                  if-cases (TakesIf (c ∷ s)) (c == b'\'')
                    (λ e.
                      taken-Takes (some string) depth c s (read_quoted b'\'' s)
                        (read_quoted-Joins b'\'' s))
                    λ e.
                      if-cases (TakesIf (c ∷ s)) (c == b'"')
                        (λ e.
                          taken-Takes (some quoted_identifier) depth c s (read_quoted b'"' s)
                            (read_quoted-Joins b'"' s))
                        λ e.
                          if-cases (TakesIf (c ∷ s)) (is_ascii_digit c)
                            (λ e.
                              taken-Takes (some number) depth c s
                                (span_while (λ d. is_ascii_digit d || d == b'.') s)
                                (span_while-Joins (λ d. is_ascii_digit d || d == b'.') s))
                            λ e.
                              if-cases (TakesIf (c ∷ s))
                                (is_ident_start is_alphabetic is_alphanumeric c)
                                (λ e.
                                  taken-Takes (some word) depth c s
                                    (span_while (is_ident_part is_alphabetic is_alphanumeric) s)
                                    (span_while-Joins (is_ident_part is_alphabetic is_alphanumeric)
                                      s))
                                λ e.
                                  if-cases (TakesIf (c ∷ s)) (is_punctuation c)
                                    (λ e. (refl, omega arith)) λ e. plain none
    where
      plain : (k : Option TokenKind) → Takes (c ∷ s) (taken k depth c ([], s))
      plain k = (refl, omega arith)

  with_token-AreSpansIf :
      (at : ℕ) (s : Text) (r : Round) (o : Option (List SemanticToken))
      → Takes s r
      → AreSpansIf (at + byte_len r.body) r.rest o
      → AreSpansIf at s (with_token is_alphabetic is_alphanumeric at r o)
  unfolding AreSpansIf AreSpans push_token byte_len
  with_token-AreSpansIf at s r none t h = tt
  with_token-AreSpansIf at s r (some tokens) t h = spans r.kind
    where
      spans :
          (k : Option TokenKind)
          → AreSpans at s (elim k as (λ x. List SemanticToken) [
            | none ↦ tokens
            | some kind ↦ push_token kind at r.body r.depth ∷ tokens
          ])
      spans none = AreSpans-gap at r.body r.rest s tokens t.0 h
      spans (some kind) = ([], r.rest, t.0, t.1, omega arith, refl, h)

  pub tokens_from-AreSpansIf :
      (fuel at depth : ℕ) (s : Text)
      → AreSpansIf at s (tokens_from is_alphabetic is_alphanumeric fuel at depth s)
  unfolding tokens_from AreSpansIf AreSpans
  tokens_from-AreSpansIf fuel at depth [] = tt
  tokens_from-AreSpansIf zero at depth (c ∷ s) = tt
  tokens_from-AreSpansIf (suc fuel) at depth (c ∷ s) =
      elim (Option-cases (next_round is_alphabetic is_alphanumeric depth c s)) [
        | inl panics ↦ rw (panics, tokens_from) tt
        | inr (r, on) ↦
            rw (on, tokens_from)
              (with_token-AreSpansIf at (c ∷ s) r
                (tokens_from is_alphabetic is_alphanumeric fuel (at + byte_len r.body) r.depth_after
                  r.rest)
                (subst (TakesIf (c ∷ s)) on (next_round-TakesIf depth c s))
                (tokens_from-AreSpansIf fuel (at + byte_len r.body) r.depth_after r.rest))
      ]
