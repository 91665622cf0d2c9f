-- ===== src/Paginate/Tokens.antt =====
-- `top_level_tokens` and `skip_quoted`. Where the source moves an index, these return what is left of the
-- text; `none` is the panic of a slice that begins inside a character.
use dbm.Base.{
  ℕ, zero, suc, ◌+◌, ◌-◌, Bool, false, ◌&&◌, ◌||◌, Option, none, some, List, [], ◌∷◌, map, Text,
  ltb, ◌==◌, if◌then◌else◌, between, is_ascii_digit, is_ascii_alphabetic, is_ascii_alphanumeric,
  length,
}

abbrev pub starts : ℕ → Text → Bool
starts q [] = false
starts q (c ∷ s) = c == q

abbrev pub drop_one : Text → Text
drop_one [] = []
drop_one (c ∷ s) = s

-- What follows `--`, up to the line's end. The index moves by one byte, so that the slice after a
-- character of several bytes panics.
unfoldable pub skip_line : Text → Option Text
skip_line [] = some []
skip_line (c ∷ s) =
    let rest = skip_line s in if c == 10 then some (c ∷ s) else if ltb c 0x80 then rest else none

-- What follows `/*`, past the first `*/`.
unfoldable pub skip_block : Text → Text
skip_block [] = []
skip_block (c ∷ s) =
    let rest = skip_block s in if c == b'*' && starts b'/' s then drop_one s else rest

-- What follows an opening quote, past the closing one; a doubled quote does not close.
unfoldable pub skip_quoted : ℕ → Text → Text
skip_quoted q [] = []
skip_quoted q (c ∷ []) = []
skip_quoted q (c ∷ d ∷ s) =
    let past = skip_quoted q s in
    let on = skip_quoted q (d ∷ s) in if c == q then (if d == q then past else d ∷ s) else on

-- The longest beginning of characters that p accepts, and what is left.
unfoldable pub span : (ℕ → Bool) → Text → Text × Text
span p [] = ([], [])
span p (c ∷ s) =
    let rest = span p s in
    if p c then (let (front, back) = rest in (c ∷ front, back)) else ([], c ∷ s)

unfoldable pub to_ascii_upper : ℕ → ℕ
to_ascii_upper c = if between b'a' b'z' c then c - 32 else c

abbrev pub is_word_start : ℕ → Bool
is_word_start c = is_ascii_alphabetic c || c == b'_'

abbrev pub is_word : ℕ → Bool
is_word c = is_ascii_alphanumeric c || c == b'_'

abbrev pub push : Text → Option (List Text) → Option (List Text)
push token none = none
push token (some tokens) = some (token ∷ tokens)

-- The loop, with a round of fuel for each character.
unfoldable pub scan : ℕ → ℕ → Text → Option (List Text)
unfolding skip_line skip_block skip_quoted span to_ascii_upper is_ascii_digit is_ascii_alphabetic
    is_ascii_alphanumeric
scan fuel depth [] = some []
scan zero depth (c ∷ s) = none
scan (suc f) depth (c ∷ s) =
    let line = elim (skip_line (drop_one s)) as (λ _. Option (List Text)) [
      | none ↦ none
      | some t ↦ scan f depth t
    ] in
    let block = scan f depth (skip_block (drop_one s)) in
    let quoted = scan f depth (skip_quoted c s) in
    let deeper = scan f (depth + 1) s in
    let shallower = scan f (depth - 1) s in
    let number = push (c ∷ (span is_ascii_digit s).0) (scan f depth (span is_ascii_digit s).1) in
    let word =
      push (map to_ascii_upper (c ∷ (span is_word s).0)) (scan f depth (span is_word s).1) in
    let on = scan f depth s in
    if c == b'-' && starts b'-' s
    then line
    else if c == b'/' && starts b'*' s
    then block
    else if c == b'\'' || c == b'"'
    then quoted
    else if c == b'('
    then deeper
    else if c == b')'
    then shallower
    else if depth == 0 && is_ascii_digit c
    then number
    else if depth == 0 && is_word_start c
    then word
    else on

unfoldable pub top_level_tokens : Text → Option (List Text)
unfolding scan
top_level_tokens sql = scan (length sql) 0 sql
