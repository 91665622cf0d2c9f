-- ===== src/Completion/Tokens.antt =====
-- The tokenizer, sql_completion/tokens.rs, with the identifiers of ident.rs beside it. It works on what
-- is left of the text; a slice inside a character is `none`. `is_alphabetic` and `is_alphanumeric` are
-- the tests of the standard library.
use dbm.Base.{
  ℕ, zero, suc, ◌+◌, ◌-◌, Bool, true, false, not, ◌&&◌, ◌||◌, Option, none, some, List, [], ◌∷◌,
  map, Text, length, is_ascii_digit, to_ascii_lower, byte_len, ltb, leb, ◌==◌, if◌then◌else◌,
}

pub data TokenKind : Type 0 where
  word quoted_identifier string comment punctuation number : TokenKind

pub record Span : Type 0 where
  pub start : ℕ
  pub end : ℕ

pub record SemanticToken : Type 0 where
  pub kind : TokenKind
  pub text : Text
  pub normalized : Text
  pub span : Span
  pub depth : ℕ

abbrev pub is_word : TokenKind → Bool
is_word word = true
is_word _ = false

-- `push_token`: the characters `body` from the byte `start` on.
unfoldable pub push_token : TokenKind → ℕ → Text → ℕ → SemanticToken
unfolding byte_len
push_token kind start body depth = record {
  kind = kind;
  text = body;
  normalized = if is_word kind then map to_ascii_lower body else body;
  span = record { start = start; end = start + byte_len body };
  depth = depth;
}

-- The characters up to the first that fails the test, and what follows.
unfoldable pub span_while : (ℕ → Bool) → Text → Text × Text
span_while p [] = ([], [])
span_while p (c ∷ s) =
    let (front, back) = span_while p s in if p c then (c ∷ front, back) else ([], c ∷ s)

-- What `read_quoted` takes after the opening quote, the closing one included.
unfoldable pub read_quoted : ℕ → Text → Text × Text
read_quoted quote [] = ([], [])
read_quoted quote (c ∷ []) = (c ∷ [], [])
read_quoted quote (c ∷ d ∷ s) =
    let (front, back) = read_quoted quote (d ∷ s) in
    let (after, rest) = read_quoted quote s in
    if c == quote
    then (if d == quote then (c ∷ d ∷ after, rest) else (c ∷ [], d ∷ s))
    else (c ∷ front, back)

abbrev pub push_front : ℕ → Option (Text × Text) → Option (Text × Text)
push_front c none = none
push_front c (some (front, back)) = some (c ∷ front, back)

-- What a block comment takes after its opening: to its end, or else to the last byte of the text, which
-- panics where that byte is not a character of its own.
unfoldable pub skip_block : Text → Option (Text × Text)
skip_block [] = some ([], [])
skip_block (c ∷ []) = if ltb c 0x80 then some ([], c ∷ []) else none
skip_block (c ∷ d ∷ s) =
    let rest = skip_block (d ∷ s) in
    if c == b'*' && d == b'/' then some (c ∷ d ∷ [], s) else push_front c rest

unfoldable pub is_ascii_whitespace : ℕ → Bool
is_ascii_whitespace c = c == 0x20 || c == 0x9 || c == 0xa || c == 0xc || c == 0xd

abbrev is_mark : ℕ → Bool
is_mark c = c == b'_' || c == b'@' || c == b'$' || c == b'#'

abbrev opens : ℕ → Bool
opens c = c == b'(' || c == 0xff08

abbrev pub closes : ℕ → Bool
closes c = c == b')' || c == 0xff09

-- The punctuation of ASCII, and the full-width semicolon, comma and parentheses.
unfoldable pub is_punctuation : ℕ → Bool
is_punctuation c =
    opens c
    || closes c
    || c == b','
    || c == b'.'
    || c == b';'
    || c == b'*'
    || c == 0xff1b
    || c == 0xff0c

abbrev pub begins_with : ℕ → Text → Bool
begins_with d [] = false
begins_with d (c ∷ s) = c == d

-- What a round of the loop takes from the text: the token's kind, if there is one, its characters, what
-- is left, and the depth of the token and after it.
pub record Round : Type 0 where
  pub kind : Option TokenKind
  pub body : Text
  pub rest : Text
  pub depth : ℕ
  pub depth_after : ℕ

abbrev pub taken : Option TokenKind → ℕ → ℕ → Text × Text → Round
taken kind depth c (front, back) = record {
  kind = kind;
  body = c ∷ front;
  rest = back;
  depth = depth;
  depth_after = depth;
}

abbrev pub taken_block : ℕ → ℕ → Option (Text × Text) → Option Round
taken_block depth c none = none
taken_block depth c (some (front, back)) = some (taken (some comment) depth c (b'*' ∷ front, back))

abbrev pub tail : Text → Text
tail [] = []
tail (c ∷ s) = s

module _ (is_alphabetic is_alphanumeric : ℕ → Bool) where
  unfoldable pub is_ident_start : ℕ → Bool
  is_ident_start c = is_alphabetic c || is_mark c

  unfoldable pub is_ident_part : ℕ → Bool
  is_ident_part c = is_alphanumeric c || is_mark c

  abbrev is_end_of_line : ℕ → Bool
  is_end_of_line c = c == 0xa || c == 0xd

  unfoldable pub next_round : ℕ → ℕ → Text → Option Round
  unfolding is_ascii_whitespace span_while read_quoted skip_block is_ascii_digit is_ident_start
      is_ident_part is_punctuation
  next_round depth c s =
      if is_ascii_whitespace c
      then some (taken none depth c ([], s))
      else if c == b'-' && begins_with b'-' s
      then some (taken (some comment) depth c (span_while (λ d. not (is_end_of_line d)) s))
      else if c == b'/' && begins_with b'*' s
      then taken_block depth c (skip_block (tail s))
      else if c == b'\''
      then some (taken (some string) depth c (read_quoted b'\'' s))
      else if c == b'"'
      then some (taken (some quoted_identifier) depth c (read_quoted b'"' s))
      else if is_ascii_digit c
      then some (taken (some number) depth c (span_while (λ d. is_ascii_digit d || d == b'.') s))
      else if is_ident_start c
      then some (taken (some word) depth c (span_while is_ident_part s))
      else if is_punctuation c
      then some (record {
        kind = some punctuation;
        body = c ∷ [];
        rest = s;
        depth = if closes c then depth - 1 else depth;
        depth_after = if opens c then depth + 1 else if closes c then depth - 1 else depth;
      })
      else some (taken none depth c ([], s))

  abbrev pub with_token : ℕ → Round → Option (List SemanticToken) → Option (List SemanticToken)
  with_token index r none = none
  with_token index r (some tokens) =
      some
        (elim r.kind [ none ↦ tokens | some kind ↦ push_token kind index r.body r.depth ∷ tokens ])

  -- The loop, at the byte `index`, with a round for each character at most.
  unfoldable pub tokens_from : ℕ → ℕ → ℕ → Text → Option (List SemanticToken)
  unfolding next_round push_token byte_len
  tokens_from fuel index depth [] = some []
  tokens_from zero index depth (c ∷ s) = none
  tokens_from (suc fuel) index depth (c ∷ s) = elim (next_round depth c s) [
    | none ↦ none
    | some r ↦ with_token index r (tokens_from fuel (index + byte_len r.body) r.depth_after r.rest)
  ]

  unfoldable pub tokenize_sql : Text → Option (List SemanticToken)
  unfolding tokens_from
  tokenize_sql input = tokens_from (length input) 0 0 input

-- Inside a string or a comment.
unfoldable pub is_suppressed_at_cursor : List SemanticToken → ℕ → Bool
is_suppressed_at_cursor [] cursor = false
is_suppressed_at_cursor (token ∷ tokens) cursor =
    let rest = is_suppressed_at_cursor tokens cursor in
    if leb cursor token.span.start
    then false
    else if leb token.span.end cursor
    then rest
    else elim token.kind [ string ↦ true | comment ↦ true | _ ↦ false ]

unfoldable significant_tokens : List SemanticToken → List SemanticToken
significant_tokens [] = []
significant_tokens (token ∷ tokens) =
    let rest = significant_tokens tokens in elim token.kind [ comment ↦ rest | _ ↦ token ∷ rest ]
