-- ===== src/Completion/Examples.antt =====
-- The tokenizer on short texts; the letters are those of ASCII.
use dbm.Base.{◌≡◌, refl, some, List, codes, is_ascii_alphabetic, is_ascii_alphanumeric}
use dbm.Completion.Tokens.{SemanticToken, tokenize_sql}
use dbm.Completion.Spans.{AreSpans}
use dbm.Completion.Total.{tokenize_sql-AreSpans, last_is_ascii}

tokenize_sql-AreSpans_example :
    (tokens : List SemanticToken) × (tokenize_sql is_ascii_alphabetic is_ascii_alphanumeric
        (codes "select 'é' -- x")
      ≡ some tokens)
    × AreSpans 0 (codes "select 'é' -- x") tokens
unfolding last_is_ascii
tokenize_sql-AreSpans_example =
    tokenize_sql-AreSpans is_ascii_alphabetic is_ascii_alphanumeric (codes "select 'é' -- x") refl
