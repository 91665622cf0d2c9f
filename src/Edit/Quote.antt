-- ===== src/Edit/Quote.antt =====
-- Quoting against a reader of quoted text, as PostgreSQL's lexer has it: a doubled quote stands for
-- one, a single quote ends the text.
use dbm.Base.{
  ℕ, ◌≡◌, refl, true, false, Option, none, some, [], ◌∷◌, ◌++◌, arith, Text, codes, ◌==◌,
  if◌then◌else◌,
}
use mathlib.Core.List.{append_assoc}
use dbm.Edit.Sql.{double_char, quote_ident, quote_literal, is_null_text}

abbrev with_char : ℕ → Option (Text × Text) → Option (Text × Text)
with_char c none = none
with_char c (some (value, rest)) = some (c ∷ value, rest)

-- What follows an opening quote: the text up to the closing quote, and the rest.
read_body : ℕ → Text → Option (Text × Text)
read_body q [] = none
read_body q (c ∷ []) = if c == q then some ([], []) else none
read_body q (c ∷ d ∷ s) =
    let two = read_body q s in
    let one = read_body q (d ∷ s) in
    if c == q then (if d == q then with_char q two else some ([], d ∷ s)) else with_char c one

pub read_quoted : ℕ → Text → Option (Text × Text)
unfolding read_body
read_quoted q [] = none
read_quoted q (c ∷ s) = if c == q then read_body q s else none

-- A text that does not go on with the quote.
abbrev Closes : ℕ → Text → Type 0
Closes q [] = Unit
Closes q (c ∷ s) = (c == q) ≡ false

read_body-other :
    (q c : ℕ) (s : Text) → (c == q) ≡ false → read_body q (c ∷ s) ≡ with_char c (read_body q s)
unfolding read_body
read_body-other q c [] h = ground arith
read_body-other q c (d ∷ s) h = ground arith

read_body-doubled : (q : ℕ) (s : Text) → read_body q (q ∷ q ∷ s) ≡ with_char q (read_body q s)
unfolding read_body
read_body-doubled q s = ground arith

read_body-double_char :
    (q : ℕ) (value rest : Text)
    → Closes q rest
    → read_body q (double_char q value ++ q ∷ rest) ≡ some (value, rest)
unfolding read_body double_char
read_body-double_char q [] [] h = ground arith
read_body-double_char q [] (c ∷ s) h = ground arith
read_body-double_char q (c ∷ value) rest h =
    let more = double_char q value ++ q ∷ rest in
    ground (
      arith,
      read_body-double_char q value rest h,
      read_body-other q c more,
      read_body-doubled q more,
    )

-- A quoted identifier, whatever its text, reads back as that text, and nothing of the statement
-- after it is taken in, so long as no quote follows.
read_quoted-quote_ident :
    (name rest : Text)
    → Closes b'"' rest
    → read_quoted b'"' (quote_ident name ++ rest) ≡ some (name, rest)
unfolding read_quoted quote_ident
read_quoted-quote_ident name rest h = rw append_assoc (read_body-double_char b'"' name rest h)

-- A quoted value other than NULL, whatever its text, reads back as that text, and nothing of the
-- statement after it is taken in; any spelling of NULL is written as the keyword.
pub read_quoted-quote_literal :
    (value rest : Text)
    → Closes b'\'' rest
    → (is_null_text value ≡ false
        → read_quoted b'\'' (quote_literal value ++ rest) ≡ some (value, rest))
      × (is_null_text value ≡ true → quote_literal value ≡ codes "NULL")
unfolding read_quoted quote_literal
read_quoted-quote_literal value rest h = (
  λ text. rw text (rw append_assoc (read_body-double_char b'\'' value rest h)),
  λ null. rw null refl,
)
