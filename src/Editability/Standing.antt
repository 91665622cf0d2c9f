-- ===== src/Editability/Standing.antt =====
-- The scan's tests hold at the places where a keyword stands, and at no others.
use dbm.Base.{
  ℕ, ◌≡◌, ◌↔◌, refl, sym, ap, ◌∙◌, true, false, Option, none, some, [], ◌∷◌, ◌++◌, Text, arith,
  Bool-cases, ◌==◌, eq_ignore_ascii_case, to_ascii_lower, Option-cases, inl, inr, trim_start,
}
use dbm.Editability.Keywords.{
  Level, top, may_begin, matches_at, after_ignore_case, is_identifier_char, is_inside_word,
  continues, starts_with_keyword,
}
use dbm.Editability.Scan.{level_after, last_of, begins}
use dbm.Editability.Places.{
  IsPlain, NotInWord, first, Stands, Leads-level_after, level_after-Leads,
  IsWordChar-is_identifier_char, is_identifier_char-IsWordChar,
}

-- A prefix that is spelled like the keyword.
abbrev pub Spelled : Text → Text → Text → Type 0
Spelled keyword s after =
    (word : Text) × (s ≡ word ++ after) × (eq_ignore_ascii_case keyword word ≡ true)

after_ignore_case-Spelled :
    (keyword s after : Text) → after_ignore_case keyword s ≡ some after → Spelled keyword s after
unfolding after_ignore_case eq_ignore_ascii_case to_ascii_lower
after_ignore_case-Spelled [] s after e = ([], cc, refl)
after_ignore_case-Spelled (k ∷ keyword) [] after e = cc
after_ignore_case-Spelled (k ∷ keyword) (c ∷ s) after e =
    elim (Bool-cases (to_ascii_lower k == to_ascii_lower c)) [
      | inl same ↦
          let (word, whole, like) = after_ignore_case-Spelled keyword s after (ground arith) in
          (c ∷ word, ap (λ t. c ∷ t) whole, ground arith)
      | inr other ↦ absurd (ground arith)
    ]

after_ignore_case-word :
    (keyword word after : Text)
    → eq_ignore_ascii_case keyword word ≡ true
    → after_ignore_case keyword (word ++ after) ≡ some after
unfolding after_ignore_case eq_ignore_ascii_case
after_ignore_case-word [] [] after e = refl
after_ignore_case-word [] (c ∷ word) after e = cc
after_ignore_case-word (k ∷ keyword) [] after e = cc
after_ignore_case-word (k ∷ keyword) (c ∷ word) after e =
    let rest = after_ignore_case-word keyword word after (ground arith) in ground arith

NotInWord-iff : (o : Option ℕ) → NotInWord o ↔ (is_inside_word o ≡ false)
NotInWord-iff none = (λ h. refl, λ h. tt)
NotInWord-iff (some c) = (
  λ h. elim (Bool-cases (is_identifier_char c)) [
    | inl e ↦ absurd (h (is_identifier_char-IsWordChar c e))
    | inr e ↦ e
  ],
  λ e h. absurd (let w = IsWordChar-is_identifier_char c h in ground arith),
)

ends_iff : (after : Text) → (continues after ≡ false) ↔ (is_inside_word (first after) ≡ false)
ends_iff [] = (λ e. refl, λ e. refl)
ends_iff (d ∷ after) = (λ e. e, λ e. e)

may_begin-IsPlain : (c : ℕ) → may_begin top c ≡ true → IsPlain c
unfolding may_begin
may_begin-IsPlain c h = (
  λ x. ground arith,
  λ x. ground arith,
  λ x. ground arith,
  λ x. ground arith,
  λ x. ground arith,
  λ x. ground arith,
)

may_begin-top : (l : Level) (c : ℕ) → may_begin l c ≡ true → l ≡ top
unfolding may_begin
may_begin-top l c h = elim (Option-cases l.quote) [
  | inl e ↦ let d : l.depth ≡ 0 = ground arith in λ i. record { depth = d i; quote = e i }
  | inr (close, e) ↦ absurd (ground arith)
]

IsPlain-may_begin : (c : ℕ) → IsPlain c → may_begin top c ≡ true
unfolding may_begin
IsPlain-may_begin c (a, b, d, e, f, g) = ground arith

begins-Stands :
    (keyword : Text) (previous : Option ℕ) (front rest : Text)
    → begins keyword previous top front rest ≡ true
    → Stands keyword previous front rest
unfolding begins matches_at
begins-Stands keyword previous front [] h = absurd (ground arith)
begins-Stands keyword previous front (c ∷ rest) h =
    let may : may_begin (level_after top front) c ≡ true = ground arith in
    let here : level_after top front ≡ top = may_begin-top (level_after top front) c may in
    elim (Option-cases (after_ignore_case keyword (c ∷ rest))) [
      | inl e ↦ absurd (ground arith)
      | inr (after, e) ↦
          let (word, whole, like) = after_ignore_case-Spelled keyword (c ∷ rest) after e in
          record {
            outside = (level_after-Leads front).0 0 0 here;
            starts = may_begin-IsPlain c (ap (λ l. may_begin l c) (sym here) ∙ may);
            word = word;
            after = after;
            here = whole;
            spelled = like;
            alone_before = (NotInWord-iff (last_of previous front)).1 (ground arith);
            alone_after = (NotInWord-iff (first after)).1 ((ends_iff after).0 (ground arith));
          }
    ]

Stands-begins :
    (keyword : Text) (previous : Option ℕ) (front rest : Text)
    → Stands keyword previous front rest
    → begins keyword previous top front rest ≡ true
unfolding begins matches_at
Stands-begins keyword previous front [] h = absurd h.starts
Stands-begins keyword previous front (c ∷ rest) h =
    let level : level_after top front ≡ top = Leads-level_after h.outside in
    let may : may_begin (level_after top front) c ≡ true =
      ap (λ l. may_begin l c) level ∙ IsPlain-may_begin c h.starts in
    let found : after_ignore_case keyword (c ∷ rest) ≡ some h.after =
      ap (after_ignore_case keyword) h.here
      ∙ after_ignore_case-word keyword h.word h.after h.spelled in
    let before = (NotInWord-iff (last_of previous front)).0 h.alone_before in
    let behind = (ends_iff h.after).1 ((NotInWord-iff (first h.after)).0 h.alone_after) in
    ground arith

pub begins_iff :
    (keyword : Text) (previous : Option ℕ) (front rest : Text)
    → (begins keyword previous top front rest ≡ true) ↔ Stands keyword previous front rest
begins_iff keyword previous front rest =
    (begins-Stands keyword previous front rest, Stands-begins keyword previous front rest)

-- After white space, the text starts with the keyword, as a word of its own.
abbrev pub StartsWith : Text → Text → Type 0
StartsWith keyword s =
    (after : Text) × Spelled keyword (trim_start s) after × NotInWord (first after)

pub starts_with_keyword_iff :
    (keyword s : Text) → (starts_with_keyword keyword s ≡ true) ↔ StartsWith keyword s
unfolding starts_with_keyword
starts_with_keyword_iff keyword s = (onto, back)
  where
    onto : starts_with_keyword keyword s ≡ true → StartsWith keyword s
    onto h = elim (Option-cases (after_ignore_case keyword (trim_start s))) [
      | inl e ↦ absurd (ground arith)
      | inr (after, e) ↦ (
        after,
        after_ignore_case-Spelled keyword (trim_start s) after e,
        (NotInWord-iff (first after)).1 ((ends_iff after).0 (ground arith)),
      )
    ]

    back : StartsWith keyword s → starts_with_keyword keyword s ≡ true
    back (after, (word, whole, like), alone) =
        let found : after_ignore_case keyword (trim_start s) ≡ some after =
          ap (after_ignore_case keyword) whole ∙ after_ignore_case-word keyword word after like in
        let behind = (ends_iff after).1 ((NotInWord-iff (first after)).0 alone) in ground arith
