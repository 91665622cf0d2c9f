-- ===== src/Editability/Places.antt =====
-- The places of a query at which a keyword stands outside of quotes and parentheses, as a word of its
-- own, described without a scan; the scan's tests say the same.
use dbm.Base.{
  ℕ, zero, suc, ◌+◌, ◌-◌, ◌≤◌, ◌≡◌, ◌≢◌, ◌⊎◌, inl, inr, refl, sym, subst, ap, ◌∙◌, Bool, true,
  false, ◌&&◌, not, Option, none, some, [], ◌∷◌, ◌++◌, Text, arith, Bool-cases, ◌==◌,
  eq_ignore_ascii_case, to_ascii_lower, is_ascii_alphanumeric, Option-cases, leb,
}
use dbm.Editability.Keywords.{Level, step, is_identifier_char}
use dbm.Editability.Scan.{level_after, last_of}

-- Neither a quote nor a parenthesis; a bracket that closes is not one by itself.
abbrev pub IsPlain : ℕ → Type 0
IsPlain c = (c ≢ b'\'') × (c ≢ b'"') × (c ≢ b'`') × (c ≢ b'[') × (c ≢ b'(') × (c ≢ b')')

-- A quote ends at the character that it began with, a bracket at the one that closes it.
abbrev pub Quote : ℕ → ℕ → Type 0
Quote c close = ((c ≡ b'\'' ⊎ (c ≡ b'"' ⊎ c ≡ b'`')) × (close ≡ c)) ⊎ ((c ≡ b'[') × (close ≡ b']'))

abbrev pub Without : ℕ → Text → Type 0
Without close [] = Unit
Without close (c ∷ s) = (c ≢ close) × Without close s

-- Read from outside of quotes with `n` open parentheses, the text ends outside of quotes with `m`.
pub data Leads : ℕ → Text → ℕ → Type 0 where
  done : {n : ℕ} → Leads n [] n
  plain : {n m c : ℕ} {s : Text} → IsPlain c → Leads n s m → Leads n (c ∷ s) m
  opens : {n m c : ℕ} {s : Text} → c ≡ b'(' → Leads (n + 1) s m → Leads n (c ∷ s) m
  closes : {n m c : ℕ} {s : Text} → c ≡ b')' → Leads (n - 1) s m → Leads n (c ∷ s) m
  quoted :
      {n m c : ℕ} {s : Text} (close : ℕ) (body rest : Text)
      → Quote c close
      → Without close body
      → s ≡ body ++ (close ∷ rest)
      → Leads n rest m
      → Leads n (c ∷ s) m

abbrev at : ℕ → Level
at n = record { depth = n; quote = none }

abbrev within : ℕ → ℕ → Level
within n close = record { depth = n; quote = some close }

step-plain : (n c : ℕ) → IsPlain c → step (at n) c ≡ at n
unfolding step
step-plain n c (a, b, d, e, f, g) = ground arith

step-Quote : (n c close : ℕ) → Quote c close → step (at n) c ≡ within n close
unfolding step
step-Quote n c close (inl (inl e, f)) = ground arith
step-Quote n c close (inl (inr (inl e), f)) = ground arith
step-Quote n c close (inl (inr (inr e), f)) = ground arith
step-Quote n c close (inr (e, f)) = ground arith

level_after-body :
    (n close : ℕ) (body rest : Text)
    → Without close body
    → level_after (within n close) (body ++ (close ∷ rest)) ≡ level_after (at n) rest
unfolding level_after step
level_after-body n close [] rest h =
    ap (λ l. level_after l rest) (let e : step (within n close) close ≡ at n = ground arith in e)
level_after-body n close (c ∷ body) rest (h, k) =
    ap (λ l. level_after l (body ++ (close ∷ rest)))
      (let e : step (within n close) c ≡ within n close = ground arith in e)
    ∙ level_after-body n close body rest k

pub Leads-level_after : {n m : ℕ} {s : Text} → Leads n s m → level_after (at n) s ≡ at m
unfolding level_after step
Leads-level_after done = refl
Leads-level_after {n} (plain {c = c} {s = s} p l) =
    ap (λ x. level_after x s) (step-plain n c p) ∙ Leads-level_after l
Leads-level_after {n} (opens {c = c} {s = s} e l) =
    ap (λ x. level_after x s) (let o : step (at n) c ≡ at (n + 1) = ground arith in o)
    ∙ Leads-level_after l
Leads-level_after {n} (closes {c = c} {s = s} e l) =
    ap (λ x. level_after x s) (let o : step (at n) c ≡ at (n - 1) = ground arith in o)
    ∙ Leads-level_after l
Leads-level_after {n} (quoted {c = c} {s = s} close body rest q h e l) =
    ap (λ x. level_after x s) (step-Quote n c close q)
    ∙ ap (level_after (within n close)) e
    ∙ level_after-body n close body rest h
    ∙ Leads-level_after l

-- What is left of an open quote, and what follows it.
abbrev Closes : ℕ → ℕ → Text → ℕ → Type 0
Closes n close s m =
    (body : Text) × (rest : Text) × (s ≡ body ++ (close ∷ rest))
    × Without close body
    × Leads n rest m

abbrev LeadsBack : Text → Type 0
LeadsBack s =
    ((n m : ℕ) → level_after (at n) s ≡ at m → Leads n s m)
    × ((n m close : ℕ) → level_after (within n close) s ≡ at m → Closes n close s m)

module _ (c : ℕ) (s : Text) (later : LeadsBack s) where
  moved :
      (x l : Level) (m : ℕ)
      → step x c ≡ l
      → level_after (step x c) s ≡ at m
      → level_after l s ≡ at m
  moved x l m e h = ap (λ k. level_after k s) (sym e) ∙ h

  opening :
      (n m close : ℕ) → Quote c close → level_after (step (at n) c) s ≡ at m → Leads n (c ∷ s) m
  opening n m close q h =
      let (body, rest, e, clean, l) =
        later.1 n m close (moved (at n) (within n close) m (step-Quote n c close q) h) in
      quoted close body rest q clean e l

  outer : (n m : ℕ) → level_after (step (at n) c) s ≡ at m → Leads n (c ∷ s) m
  unfolding step
  outer n m h = elim (Bool-cases (c == b'\'')) [
    | inl a ↦ opening n m c (inl (inl (ground arith), refl)) h
    | inr a ↦ elim (Bool-cases (c == b'"')) [
      | inl b ↦ opening n m c (inl (inr (inl (ground arith)), refl)) h
      | inr b ↦ elim (Bool-cases (c == b'`')) [
        | inl d ↦ opening n m c (inl (inr (inr (ground arith)), refl)) h
        | inr d ↦ elim (Bool-cases (c == b'[')) [
          | inl e ↦ opening n m b']' (inr (ground arith, refl)) h
          | inr e ↦ elim (Bool-cases (c == b'(')) [
            | inl f ↦
                opens (ground arith)
                  (later.0 (n + 1) m (moved (at n) (at (n + 1)) m (ground arith) h))
            | inr f ↦ elim (Bool-cases (c == b')')) [
              | inl g ↦
                  closes (ground arith)
                    (later.0 (n - 1) m (moved (at n) (at (n - 1)) m (ground arith) h))
              | inr g ↦
                  let p : IsPlain c = (
                    λ x. ground arith,
                    λ x. ground arith,
                    λ x. ground arith,
                    λ x. ground arith,
                    λ x. ground arith,
                    λ x. ground arith,
                  ) in
                  plain p (later.0 n m (moved (at n) (at n) m (step-plain n c p) h))
            ]
          ]
        ]
      ]
    ]
  ]

  inner :
      (n m close : ℕ) → level_after (step (within n close) c) s ≡ at m → Closes n close (c ∷ s) m
  unfolding step
  inner n m close h = elim (Bool-cases (c == close)) [
    | inl e ↦
        let same : c ≡ close = ground arith in
        (
          [],
          s,
          ap (λ x. x ∷ s) same,
          tt,
          later.0 n m (moved (within n close) (at n) m (ground arith) h),
        )
    | inr e ↦
        let (body, rest, whole, clean, l) =
          later.1 n m close (moved (within n close) (within n close) m (ground arith) h) in
        (c ∷ body, rest, ap (λ t. c ∷ t) whole, (λ x. ground arith, clean), l)
  ]

pub level_after-Leads : (s : Text) → LeadsBack s
unfolding level_after
level_after-Leads [] = (
  λ n m e. subst (λ k. Leads n [] k) (ap (λ (l : Level). l.depth) e) done,
  λ n m close e. absurd (let o : some close ≡ none = ap (λ (l : Level). l.quote) e in cc),
)
level_after-Leads (c ∷ s) = (outer c s (level_after-Leads s), inner c s (level_after-Leads s))

-- The characters of words: the letters and digits of ASCII, the underscore and the dollar sign.
abbrev Between : ℕ → ℕ → ℕ → Type 0
Between lo hi c = (lo ≤ c) × (c ≤ hi)

abbrev pub IsWordChar : ℕ → Type 0
IsWordChar c =
    Between b'a' b'z' c ⊎ (Between b'A' b'Z' c ⊎ (Between b'0' b'9' c ⊎ (c ≡ b'_' ⊎ c ≡ b'$')))

pub IsWordChar-is_identifier_char : (c : ℕ) → IsWordChar c → is_identifier_char c ≡ true
unfolding is_identifier_char is_ascii_alphanumeric dbm.Base.is_ascii_alphabetic
    dbm.Base.is_ascii_digit
IsWordChar-is_identifier_char c (inl (a, b)) = ground arith
IsWordChar-is_identifier_char c (inr (inl (a, b))) = ground arith
IsWordChar-is_identifier_char c (inr (inr (inl (a, b)))) = ground arith
IsWordChar-is_identifier_char c (inr (inr (inr (inl e)))) = ground arith
IsWordChar-is_identifier_char c (inr (inr (inr (inr e)))) = ground arith

pub is_identifier_char-IsWordChar : (c : ℕ) → is_identifier_char c ≡ true → IsWordChar c
unfolding is_identifier_char is_ascii_alphanumeric dbm.Base.is_ascii_alphabetic
    dbm.Base.is_ascii_digit
is_identifier_char-IsWordChar c h = elim (Bool-cases (leb b'a' c && leb c b'z')) [
  | inl a ↦ inl (ground arith, ground arith)
  | inr a ↦ elim (Bool-cases (leb b'A' c && leb c b'Z')) [
    | inl b ↦ inr (inl (ground arith, ground arith))
    | inr b ↦ elim (Bool-cases (leb b'0' c && leb c b'9')) [
      | inl d ↦ inr (inr (inl (ground arith, ground arith)))
      | inr d ↦ elim (Bool-cases (c == b'_')) [
        | inl e ↦ inr (inr (inr (inl (ground arith))))
        | inr e ↦ inr (inr (inr (inr (ground arith))))
      ]
    ]
  ]
]

abbrev pub NotInWord : Option ℕ → Type 0
NotInWord none = Unit
NotInWord (some c) = ¬ IsWordChar c

abbrev pub first : Text → Option ℕ
first [] = none
first (c ∷ s) = some c

abbrev pub StartsPlain : Text → Type 0
StartsPlain [] = ⊥
StartsPlain (c ∷ s) = IsPlain c

-- Between `front` and `rest`, in a text that follows the character `previous`, the keyword stands, in
-- any case of its letters: outside of quotes and parentheses, not at one of these, and as a word of its
-- own.
pub record Stands (keyword : Text) (previous : Option ℕ) (front rest : Text) : Type 0 where
  pub outside : Leads 0 front 0
  pub starts : StartsPlain rest
  pub word : Text
  pub after : Text
  pub here : rest ≡ word ++ after
  pub spelled : eq_ignore_ascii_case keyword word ≡ true
  pub alone_before : NotInWord (last_of previous front)
  pub alone_after : NotInWord (first after)
