-- ===== src/Paginate/Scan.antt =====
-- The tokenizer ends and does not panic where no character has several bytes.
use dbm.Base.{
  ℕ, zero, suc, ◌+◌, ◌-◌, ◌≤◌, ◌<◌, ◌≡◌, ◌≢◌, refl, inl, inr, Bool, true, ◌&&◌, ◌||◌, Option, none,
  some, List, [], ◌∷◌, ◌++◌, Text, arith, ltb, ◌==◌, if-cases, Bool-cases, length, is_ascii_digit,
}
use dbm.Paginate.Tokens.{
  starts, drop_one, skip_line, skip_block, skip_quoted, span, push, scan, top_level_tokens, is_word,
  is_word_start,
}

-- Characters of one byte.
abbrev pub IsAscii : Text → Type 0
IsAscii [] = Unit {0}
IsAscii (c ∷ s) = (c < 0x80) × IsAscii s

-- At most n characters, each of one byte.
abbrev Within : ℕ → Text → Type 0
Within n s = (length s ≤ n) × IsAscii s

drop_one-Within : (n : ℕ) (s : Text) → Within n s → Within n (drop_one s)
drop_one-Within n [] h = h
drop_one-Within n (c ∷ s) h = (omega arith, h.1.1)

skip_block-Within : (n : ℕ) (s : Text) → Within n s → Within n (skip_block s)
unfolding skip_block
skip_block-Within n [] h = h
skip_block-Within n (c ∷ s) h =
    if-cases (Within n) (c == b'*' && starts b'/' s) (λ e. drop_one-Within n s (omega arith, h.1.1))
      (λ e. skip_block-Within n s (omega arith, h.1.1))

skip_quoted-Within : (n q : ℕ) (s : Text) → Within n s → Within n (skip_quoted q s)
unfolding skip_quoted
skip_quoted-Within n q [] h = h
skip_quoted-Within n q (c ∷ []) h = (omega arith, tt)
skip_quoted-Within n q (c ∷ d ∷ s) h =
    if-cases (Within n) (c == q)
      (λ e.
        if-cases (Within n) (d == q) (λ k. skip_quoted-Within n q s (omega arith, h.1.1.1))
          (λ k. (omega arith, h.1.1)))
      (λ e. skip_quoted-Within n q (d ∷ s) (omega arith, h.1.1))

span-Within : (n : ℕ) (p : ℕ → Bool) (s : Text) → Within n s → Within n (span p s).1
unfolding span
span-Within n p [] h = h
span-Within n p (c ∷ s) h = elim (Bool-cases (p c)) [
  | inl e ↦ rw e (span-Within n p s (omega arith, h.1.1))
  | inr e ↦ rw e h
]

skip_line-Within :
    (n : ℕ) (s : Text) → Within n s → (t : Text) × (skip_line s ≡ some t) × Within n t
unfolding skip_line
skip_line-Within n [] h = ([], refl, h)
skip_line-Within n (c ∷ s) h =
    let one_byte : ltb c 0x80 ≡ true = ground arith in
    elim (Bool-cases (c == 10)) [
      | inl e ↦ (c ∷ s, rw e refl, h)
      | inr e ↦
          let (t, eq, w) = skip_line-Within n s (omega arith, h.1.1) in (t, rw (e, one_byte) eq, w)
    ]

abbrev Ends : Option (List Text) → Type 0
Ends r = r ≢ none

push-Ends : (token : Text) (r : Option (List Text)) → Ends r → Ends (push token r)
push-Ends token none h = λ e. h e
push-Ends token (some tokens) h = λ e. cc

scan-Ends : (fuel depth : ℕ) (s : Text) → Within fuel s → Ends (scan fuel depth s)
unfolding scan
scan-Ends zero depth [] h = λ e. cc
scan-Ends (suc f) depth [] h = λ e. cc
scan-Ends zero depth (c ∷ s) h = absurd (omega arith)
scan-Ends (suc f) depth (c ∷ s) h =
    let w : Within f s = (omega arith, h.1.1) in
    let dropped = drop_one-Within f s w in
    if-cases Ends (c == b'-' && starts b'-' s)
      (λ _.
        let (t, eq, rest) = skip_line-Within f (drop_one s) dropped in
        rw eq (scan-Ends f depth t rest))
      (λ _.
        if-cases Ends (c == b'/' && starts b'*' s)
          (λ _.
            scan-Ends f depth (skip_block (drop_one s)) (skip_block-Within f (drop_one s) dropped))
          (λ _.
            if-cases Ends (c == b'\'' || c == b'"')
              (λ _. scan-Ends f depth (skip_quoted c s) (skip_quoted-Within f c s w))
              (λ _.
                if-cases Ends (c == b'(') (λ _. scan-Ends f (depth + 1) s w)
                  (λ _.
                    if-cases Ends (c == b')') (λ _. scan-Ends f (depth - 1) s w)
                      (λ _.
                        if-cases Ends (depth == 0 && is_ascii_digit c)
                          (λ _. push-Ends _ _ (
                            scan-Ends f depth (span is_ascii_digit s).1
                              (span-Within f is_ascii_digit s w)))
                          (λ _.
                            if-cases Ends (depth == 0 && is_word_start c)
                              (λ _.
                                push-Ends _ _ (
                                  scan-Ends f depth (span is_word s).1 (span-Within f is_word s w)))
                              (λ _. scan-Ends f depth s w)))))))

-- The tokenizer ends without a panic on every text of one-byte characters: a round for each character
-- is enough.
pub top_level_tokens-ne-none : (s : Text) → IsAscii s → top_level_tokens s ≢ none
unfolding top_level_tokens
top_level_tokens-ne-none s h = scan-Ends (length s) 0 s (omega arith, h)

-- One-byte characters of one line.
abbrev OneLine : Text → Type 0
OneLine [] = Unit {0}
OneLine (c ∷ s) = (c < 0x80) × (c ≢ 10) × OneLine s

skip_line-none :
    (front back : Text) (c : ℕ) → OneLine front → 0x80 ≤ c → skip_line (front ++ c ∷ back) ≡ none
unfolding skip_line
skip_line-none [] back c one wide = ground arith
skip_line-none (d ∷ front) back c one wide = ground (arith, skip_line-none front back c one.2 wide)

-- A comment to the line's end that holds a character of several bytes makes the tokenizer panic, also
-- where the rest of the text is harmless.
top_level_tokens-comment :
    (front back : Text) (c : ℕ)
    → OneLine front
    → 0x80 ≤ c
    → top_level_tokens (b'-' ∷ b'-' ∷ front ++ c ∷ back) ≡ none
unfolding top_level_tokens scan
top_level_tokens-comment front back c one wide = rw (skip_line-none front back c one wide) refl
