-- ===== src/Paginate/Examples.antt =====
-- The theorems on paged queries at concrete inputs, and runs of the tokenizer.
use dbm.Base.{◌≡◌, ◌≢◌, refl, arith, true, none, some, [], ◌∷◌, Text, codes}
use dbm.Paginate.Tokens.{top_level_tokens}
use dbm.Paginate.Statement.{paginated_select_sql, user_result_row_cap, is_read_only}
use dbm.Paginate.Scan.{IsAscii, top_level_tokens-ne-none}

abbrev capped : Text
capped = codes "SELECT 'a;' /* x */ FROM (t) LIMIT 300"

capped_tokens :
    top_level_tokens capped
    ≡ some (codes "SELECT" ∷ codes "FROM" ∷ codes "LIMIT" ∷ codes "300" ∷ [])
unfolding top_level_tokens
capped_tokens = refl

cap_read : user_result_row_cap (codes " select * from users limit 300; ") ≡ some (some 300)
unfolding user_result_row_cap
cap_read = refl

cap_panics : user_result_row_cap (codes "SELECT 1 -- é") ≡ none
unfolding user_result_row_cap
cap_panics = refl

page_wrapped :
    paginated_select_sql (codes "SELECT id FROM users;") 100 200
    ≡ some (codes "SELECT * FROM (SELECT id FROM users) AS dbm_page LIMIT 100 OFFSET 200")
unfolding paginated_select_sql
page_wrapped = refl

read_only_head : is_read_only (codes "  Explain select 1") ≡ true
unfolding is_read_only
read_only_head = refl

ascii : IsAscii (codes "LIMIT 5")
ascii = ground arith

top_level_tokens-ne-none_example : top_level_tokens (codes "LIMIT 5") ≢ none
top_level_tokens-ne-none_example = top_level_tokens-ne-none (codes "LIMIT 5") ascii
