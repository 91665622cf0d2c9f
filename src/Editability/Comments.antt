-- ===== src/Editability/Comments.antt =====
-- The beginning of the analysis in crates/dbm-tui2/src/common/utils/sql_editability.rs: comments are
-- taken out, then white space and statement ends off the end.
use dbm.Base.{
  ℕ, zero, suc, Bool, false, ◌&&◌, [], ◌∷◌, Text, length, trim, trim_end, ◌==◌, if◌then◌else◌,
}

-- Where `strip_sql_comments` stands: outside of comments, in one to the end of the line, in a block
-- comment after the character `previous`.
pub data Mode : Type 0 where
  outside line : Mode
  block : ℕ → Mode

abbrev pub newline : ℕ
newline = 10

unfoldable pub strip : Mode → Text → Text
strip outside [] = []
strip outside (c ∷ []) = c ∷ []
strip outside (c ∷ d ∷ s) =
    let in_line = strip line s in
    let in_block = strip (block 0) s in
    let plain = strip outside (d ∷ s) in
    if c == b'-' && d == b'-'
    then in_line
    else if c == b'/' && d == b'*'
    then in_block
    else c ∷ plain
strip line [] = []
strip line (c ∷ s) =
    let over = strip outside s in
    let more = strip line s in if c == newline then newline ∷ over else more
strip (block previous) [] = []
strip (block previous) (c ∷ s) =
    let over = strip outside s in
    let more = strip (block c) s in if previous == b'*' && c == b'/' then over else more

unfoldable pub strip_sql_comments : Text → Text
unfolding strip
strip_sql_comments sql = strip outside sql

-- `s.ends_with(';')`, and `s` without its last character.
unfoldable ends_with_semicolon : Text → Bool
ends_with_semicolon [] = false
ends_with_semicolon (c ∷ []) = c == b';'
ends_with_semicolon (c ∷ d ∷ s) = ends_with_semicolon (d ∷ s)

unfoldable pub pop : Text → Text
pop [] = []
pop (c ∷ []) = []
pop (c ∷ d ∷ s) = c ∷ pop (d ∷ s)

-- The loop of `normalize_editable_sql`; each round takes a character.
unfoldable drop_statement_ends : ℕ → Text → Text
unfolding ends_with_semicolon pop
drop_statement_ends zero s = s
drop_statement_ends (suc fuel) s =
    let more = drop_statement_ends fuel (trim_end (pop s)) in
    if ends_with_semicolon s then more else s

unfoldable pub normalize_editable_sql : Text → Text
unfolding strip_sql_comments drop_statement_ends
normalize_editable_sql sql =
    drop_statement_ends (length (trim (strip_sql_comments sql))) (trim (strip_sql_comments sql))
