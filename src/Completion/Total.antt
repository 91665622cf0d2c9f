-- ===== src/Completion/Total.antt =====
-- Where the tokenizer panics, and where it does not.
use dbm.Base.{
  ℕ, zero, suc, ◌+◌, ◌≡◌, ◌≢◌, ◌≤◌, refl, ap, sym, subst, ◌∙◌, Bool, true, false, not, ◌&&◌, Option,
  none, some, List, [], ◌∷◌, ◌++◌, Text, arith, length, length-append, byte_len, ltb, ◌==◌,
  if◌then◌else◌, Bool-cases, Option-cases, inl, inr,
}
use dbm.Completion.Tokens.{
  SemanticToken, is_ascii_whitespace, skip_block, push_front, begins_with, tail, Round, taken_block,
  next_round, with_token, tokens_from, tokenize_sql,
}
use dbm.Completion.Spans.{TakesIf, next_round-TakesIf, AreSpans, AreSpansIf, tokens_from-AreSpansIf}

-- The text is empty or its last character is of one byte.
unfoldable pub last_is_ascii : Text → Bool
last_is_ascii [] = true
last_is_ascii (c ∷ []) = ltb c 0x80
last_is_ascii (c ∷ d ∷ s) = last_is_ascii (d ∷ s)

-- The end of a block comment is not in the text.
unfoldable is_unterminated : Text → Bool
is_unterminated [] = true
is_unterminated (c ∷ []) = true
is_unterminated (c ∷ d ∷ s) = not (c == b'*' && d == b'/') && is_unterminated (d ∷ s)

push_front-none :
    (c : ℕ) (o : Option (Text × Text))
    → (push_front c o ≡ none → o ≡ none) × (o ≡ none → push_front c o ≡ none)
push_front-none c none = (λ h. refl, λ h. refl)
push_front-none c (some parts) = (λ h. cc, λ h. cc)

-- A block comment panics exactly where it has no end and the text ends in a character of several bytes.
skip_block-none :
    (s : Text)
    → (skip_block s ≡ none → (is_unterminated s ≡ true) × (last_is_ascii s ≡ false))
      × (is_unterminated s ≡ true → last_is_ascii s ≡ false → skip_block s ≡ none)
unfolding skip_block last_is_ascii is_unterminated
skip_block-none [] = (λ h. cc, λ h k. cc)
skip_block-none (c ∷ []) = (λ h. ground arith, λ h k. ground arith)
skip_block-none (c ∷ d ∷ s) =
    let (panics, back) = skip_block-none (d ∷ s) in
    let (out, into) = push_front-none c (skip_block (d ∷ s)) in
    elim (Bool-cases (c == b'*' && d == b'/')) [
      | inl ends ↦ (λ h. absurd (ground arith), λ h k. absurd (ground arith))
      | inr on ↦ (
        λ h.
            let here : push_front c (skip_block (d ∷ s)) ≡ none =
              subst
                (λ b.
                  (if b then some (c ∷ d ∷ [], s) else push_front c (skip_block (d ∷ s))) ≡ none)
                on h in
            let (u, l) = panics (out here) in (rw (on, u) refl, l),
        λ h k.
            let rest : is_unterminated (d ∷ s) ≡ true =
              subst (λ b. (not b && is_unterminated (d ∷ s)) ≡ true) on h in
            rw on (into (back rest k)),
      )
    ]

last_is_ascii-append :
    (body rest : Text) → last_is_ascii (body ++ rest) ≡ true → last_is_ascii rest ≡ true
unfolding last_is_ascii
last_is_ascii-append [] rest h = h
last_is_ascii-append (c ∷ []) [] h = refl
last_is_ascii-append (c ∷ []) (d ∷ rest) h = h
last_is_ascii-append (c ∷ d ∷ body) rest h = last_is_ascii-append (d ∷ body) rest h

module _ (is_alphabetic is_alphanumeric : ℕ → Bool) where
  next_round-none :
      (depth c : ℕ) (s : Text)
      → next_round is_alphabetic is_alphanumeric depth c s ≡ none
      → (begins_with b'*' s ≡ true) × (skip_block (tail s) ≡ none)
  unfolding next_round
  next_round-none depth c s h = ground arith

  next_round-some :
      (depth c : ℕ) (s : Text)
      → last_is_ascii (c ∷ s) ≡ true
      → next_round is_alphabetic is_alphanumeric depth c s ≢ none
  next_round-some depth c s last panics =
      let (star, out) = next_round-none depth c s panics in by_tail s star out last
    where
      by_tail :
          (s : Text)
          → begins_with b'*' s ≡ true
          → skip_block (tail s) ≡ none
          → last_is_ascii (c ∷ s) ≡ true
          → ⊥
      by_tail [] star out last = absurd (ground arith)
      by_tail (d ∷ s) star out last =
          let (u, l) = (skip_block-none s).0 out in
          let kept = last_is_ascii-append (c ∷ d ∷ []) s last in cc

  with_token-none :
      (at : ℕ) (r : Round) (o : Option (List SemanticToken))
      → with_token is_alphabetic is_alphanumeric at r o ≡ none
      → o ≡ none
  with_token-none at r none h = refl
  with_token-none at r (some tokens) h = cc

  tokens_from-some :
      (fuel at depth : ℕ) (s : Text)
      → length s ≤ fuel
      → last_is_ascii s ≡ true
      → tokens_from is_alphabetic is_alphanumeric fuel at depth s ≢ none
  unfolding tokens_from
  tokens_from-some fuel at depth [] enough last out = cc
  tokens_from-some zero at depth (c ∷ s) enough last out = absurd (omega arith)
  tokens_from-some (suc fuel) at depth (c ∷ s) enough last out =
      elim (Option-cases (next_round is_alphabetic is_alphanumeric depth c s)) [
        | inl panics ↦ next_round-some depth c s last panics
        | inr (r, on) ↦
            let (joined, some_body) =
              subst (TakesIf (c ∷ s)) on
                (next_round-TakesIf is_alphabetic is_alphanumeric depth c s) in
            let size : length r.body + length r.rest ≡ suc (length s) =
              sym (length-append r.body r.rest) ∙ ap length joined in
            let rest_last =
              last_is_ascii-append r.body r.rest
                (subst (λ t. last_is_ascii t ≡ true) (sym joined) last) in
            let opened : tokens_from is_alphabetic is_alphanumeric (suc fuel) at depth (c ∷ s)
                ≡ with_token is_alphabetic is_alphanumeric at r (
                    tokens_from is_alphabetic is_alphanumeric fuel (at + byte_len r.body)
                      r.depth_after r.rest) =
              rw (on, tokens_from) refl in
            tokens_from-some fuel (at + byte_len r.body) r.depth_after r.rest (omega arith)
              rest_last
              (with_token-none at r
                (tokens_from is_alphabetic is_alphanumeric fuel (at + byte_len r.body) r.depth_after
                  r.rest)
                (sym opened ∙ out))
      ]

  -- A text whose last character is of one byte makes the tokenizer neither panic nor run out of rounds;
  -- every token has the characters that stand at its span, at least one, and begins where the one
  -- before ends, or later.
  pub tokenize_sql-AreSpans :
      (input : Text)
      → last_is_ascii input ≡ true
      → (tokens : List SemanticToken) × (tokenize_sql is_alphabetic is_alphanumeric input
          ≡ some tokens)
        × AreSpans 0 input tokens
  unfolding tokenize_sql AreSpansIf
  tokenize_sql-AreSpans input last =
      elim (Option-cases (tokens_from is_alphabetic is_alphanumeric (length input) 0 0 input)) [
        | inl panics ↦ absurd (tokens_from-some (length input) 0 0 input (omega arith) last panics)
        | inr (tokens, read) ↦ (
          tokens,
          read,
          subst (AreSpansIf 0 input) read
              (tokens_from-AreSpansIf is_alphabetic is_alphanumeric (length input) 0 0 input),
        )
      ]

  next_round-comment :
      (s : Text)
      → next_round is_alphabetic is_alphanumeric 0 b'/' (b'*' ∷ s)
        ≡ taken_block 0 b'/' (skip_block s)
  unfolding next_round is_ascii_whitespace
  next_round-comment s = refl

  -- A block comment without an end, whose last character is of several bytes, makes the tokenizer
  -- panic.
  tokenize_sql-panics :
      (s : Text)
      → is_unterminated s ≡ true
      → last_is_ascii s ≡ false
      → tokenize_sql is_alphabetic is_alphanumeric (b'/' ∷ b'*' ∷ s) ≡ none
  unfolding tokenize_sql
  tokenize_sql-panics s endless many =
      let panics : next_round is_alphabetic is_alphanumeric 0 b'/' (b'*' ∷ s) ≡ none =
        next_round-comment s ∙ ap (taken_block 0 b'/') ((skip_block-none s).1 endless many) in
      rw (panics, tokens_from) refl
