-- ===== src/Page/Input.antt =====
-- What is typed into the row-limit and page-number popups: parse_row_limit_input, parse_page_input.
use dbm.Base.{
  ℕ, ◌^◌, ◌≤◌, ◌<◌, ◌≡◌, refl, ap, ◌∙◌, inl, inr, true, false, ◌&&◌, Option, none, some, [], ◌∷◌,
  Text, arith, leb, ◌==◌, if◌then◌else◌, Option-cases, trim, trim_start, trim_end, is_whitespace,
  is_ascii_digit,
}
use dbm.Base.Decimal.{show, Digits, show-Digits, parse_usize, parse_usize-show}
use dbm.Page.Math.{
  page_count, clamp_page, parse_row_limit_input, parse_page_input, max_results_row_limit,
}
use dbm.Page.Cover.{clamp_page_bounds}

digit_not_whitespace : (c : ℕ) → is_ascii_digit c ≡ true → is_whitespace c ≡ false
unfolding is_ascii_digit is_whitespace
digit_not_whitespace c h = ground arith

trim_end-Digits : (s : Text) → Digits s → trim_end s ≡ s
unfolding trim_end
trim_end-Digits [] h = refl
trim_end-Digits (c ∷ []) h = rw (digit_not_whitespace c h.0) refl
trim_end-Digits (c ∷ d ∷ s) h = rw (trim_end-Digits (d ∷ s) h.1, trim_end) refl

trim-Digits : (s : Text) → Digits s → trim s ≡ s
unfolding trim trim_start
trim-Digits [] h = refl
trim-Digits (c ∷ s) h = rw (digit_not_whitespace c h.0) (trim_end-Digits (c ∷ s) h)

-- A row limit is accepted exactly from 1 to 10,000: what is accepted is in the range, and the decimal
-- digits of a number read as it where it is in the range, and are refused otherwise.
parse_row_limit_input_lem :
    (s : Text) (n : ℕ)
    → n < 2 ^ 64
    → (parse_row_limit_input s ≡ some n → (1 ≤ n) × (n ≤ max_results_row_limit))
      × (parse_row_limit_input (show n)
          ≡ (if leb 1 n && leb n max_results_row_limit then some n else none))
unfolding parse_row_limit_input
parse_row_limit_input_lem s n h =
    let read : parse_usize (trim (show n)) ≡ some n =
      ap parse_usize (trim-Digits (show n) (show-Digits n)) ∙ parse_usize-show n h in
    (
      λ e. elim (Option-cases (parse_usize (trim s))) [
        | inl none_read ↦ ground arith
        | inr (m, read_m) ↦ ground arith
      ],
      rw (read, parse_row_limit_input) refl,
    )

parse_page_input-clamps :
    (s : Text) (p limit : ℕ) (total : Option ℕ)
    → parse_page_input s total limit ≡ some p
    → (m : ℕ) × (p ≡ clamp_page m total limit)
unfolding parse_page_input
parse_page_input-clamps s p limit total e = elim (Option-cases (parse_usize (trim s))) [
  | inl none_read ↦ ground arith
  | inr (m, read_m) ↦ (m, ground arith)
]

-- A page that is accepted is a page of the total, where that is known; the digits of a positive
-- number read as the page nearest to it, and 0 is refused.
parse_page_input_lem :
    (s : Text) (n p limit : ℕ) (total : Option ℕ)
    → n < 2 ^ 64
    → (parse_page_input s total limit ≡ some p
        → (1 ≤ p) × ((t : ℕ) → total ≡ some t → p ≤ page_count t limit))
      × (parse_page_input (show n) total limit
          ≡ (if n == 0 then none else some (clamp_page n total limit)))
unfolding parse_page_input
parse_page_input_lem s n p limit total h =
    let read : parse_usize (trim (show n)) ≡ some n =
      ap parse_usize (trim-Digits (show n) (show-Digits n)) ∙ parse_usize-show n h in
    (
      λ e.
          let (m, is_m) = parse_page_input-clamps s p limit total e in
          let b = clamp_page_bounds m limit total in rw is_m (b.0, b.1),
      rw (read, parse_page_input) refl,
    )
