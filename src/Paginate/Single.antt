-- ===== src/Paginate/Single.antt =====
-- A wrapped query is a single statement.
use dbm.Base.{
  ℕ, ◌≡◌, ◌↔◌, refl, inl, inr, Bool, true, false, ◌||◌, Option, none, some, [], ◌∷◌, ◌++◌, Text,
  codes, arith, if◌then◌else◌, Bool-cases, Option-cases, ap, subst, map, trim, to_ascii_lower,
  is_ascii_digit,
}
use mathlib.Core.Option
use dbm.Base.Decimal.{show, Digits, show-Digits}
use dbm.Paginate.Statement.{
  has_semicolon, single_select_statement, paginated_select_sql, count_select_sql, first_word,
  one_of, trim_semicolons, page_text, count_text, single_heads,
}

has_semicolon-append : (s t : Text) → has_semicolon (s ++ t) ≡ (has_semicolon s || has_semicolon t)
unfolding has_semicolon
has_semicolon-append [] t = refl
has_semicolon-append (c ∷ s) t = ground (arith, has_semicolon-append s t)

has_semicolon-Digits : (s : Text) → Digits s → has_semicolon s ≡ false
unfolding has_semicolon is_ascii_digit
has_semicolon-Digits [] h = refl
has_semicolon-Digits (c ∷ s) h = ground (arith, has_semicolon-Digits s h.1)

none_in_append :
    (s t : Text)
    → has_semicolon s ≡ false
    → has_semicolon t ≡ false
    → has_semicolon (s ++ t) ≡ false
none_in_append s t h k = rw (has_semicolon-append s t) (rw h k)

accepted :
    (refuse : Bool) (word : Option Text) (trimmed statement : Text)
    → (if refuse then none else elim word [
      | none ↦ none
      | some w ↦ if one_of single_heads (map to_ascii_lower w) then some trimmed else none
    ])
      ≡ some statement
    → (trimmed ≡ statement) × (refuse ≡ false)
accepted true word trimmed statement h = cc
accepted false none trimmed statement h = cc
accepted false (some w) trimmed statement h =
    elim (Bool-cases (one_of single_heads (map to_ascii_lower w))) [
      | inl e ↦
          let h' : some trimmed ≡ some statement =
            subst (λ b. (if b then some trimmed else none) ≡ some statement) e h in
          (cc, refl)
      | inr e ↦
          let h' : none ≡ some statement =
            subst (λ b. (if b then some trimmed else none) ≡ some statement) e h in
          cc
    ]

single_select_statement-has_semicolon :
    (sql statement : Text)
    → single_select_statement sql ≡ some statement
    → has_semicolon statement ≡ false
unfolding single_select_statement
single_select_statement-has_semicolon sql statement h =
    let trimmed = trim (trim_semicolons (trim sql)) in
    let (same, clean) = accepted (has_semicolon trimmed) (first_word trimmed) trimmed statement h in
    subst (λ s. has_semicolon s ≡ false) same clean

none_in_page :
    (statement : Text) (limit offset : ℕ)
    → has_semicolon statement ≡ false
    → has_semicolon (page_text statement limit offset) ≡ false
unfolding page_text
none_in_page statement limit offset clean =
    let number = λ (n : ℕ). has_semicolon-Digits (show n) (show-Digits n) in
    none_in_append (codes "SELECT * FROM (") _ (unfold has_semicolon in refl) (
      none_in_append statement _ clean (
        none_in_append (codes ") AS dbm_page LIMIT ") _ (unfold has_semicolon in refl) (
          none_in_append (show limit) _ (number limit)
            (none_in_append (codes " OFFSET ") _ (unfold has_semicolon in refl) (number offset)))))

none_in_count :
    (statement : Text)
    → has_semicolon statement ≡ false
    → has_semicolon (count_text statement) ≡ false
unfolding count_text
none_in_count statement clean =
    none_in_append (codes "SELECT COUNT(*) AS dbm_total_rows FROM (") _
      (unfold has_semicolon in refl)
      (none_in_append statement (codes ") AS dbm_count") clean (unfold has_semicolon in refl))

-- A query that is wrapped, for a page or for a count, has no semicolon, and so is one statement; and a
-- query is wrapped for a page exactly where it is wrapped for a count.
wrapped_single :
    (sql t : Text) (limit offset : ℕ)
    → (paginated_select_sql sql limit offset ≡ some t → has_semicolon t ≡ false)
      × (count_select_sql sql ≡ some t → has_semicolon t ≡ false)
      × ((paginated_select_sql sql limit offset ≡ none) ↔ (count_select_sql sql ≡ none))
wrapped_single sql t limit offset = elim (Option-cases (single_select_statement sql)) [
  | inl refused ↦
      let page : paginated_select_sql sql limit offset ≡ none =
        unfold paginated_select_sql in ap (Option.map (λ s. page_text s limit offset)) refused in
      let count : count_select_sql sql ≡ none =
        unfold count_select_sql in ap (Option.map count_text) refused in
      (λ e. cc, λ e. cc, (λ e. count, λ e. page))
  | inr (statement, kept) ↦
      let clean = single_select_statement-has_semicolon sql statement kept in
      let page : paginated_select_sql sql limit offset ≡ some (page_text statement limit offset) =
        unfold paginated_select_sql in ap (Option.map (λ s. page_text s limit offset)) kept in
      let count : count_select_sql sql ≡ some (count_text statement) =
        unfold count_select_sql in ap (Option.map count_text) kept in
      let page_clean = none_in_page statement limit offset clean in
      let count_clean = none_in_count statement clean in (λ e. cc, λ e. cc, (λ e. cc, λ e. cc))
]
