-- ===== src/Grid/Occurrences.antt =====
-- The matches of a search that looks at the case.
use dbm.Base.{
  ℕ, zero, suc, ◌+◌, ◌-◌, ◌≡◌, ◌≤◌, ◌<◌, refl, ap, subst, sym, ◌∙◌, true, false, none, some, List,
  [], ◌∷◌, Text, arith, length, drop, trim, if◌then◌else◌, Bool-cases, Option-cases, inl, inr,
}
use dbm.Grid.Search.{starts_with, find, occurrences, find_match_starts, is_nil}

drop-nil : (n : ℕ) → drop {A = ℕ} n [] ≡ []
drop-nil zero = refl
drop-nil (suc n) = refl

drop-drop : (m n : ℕ) (s : Text) → drop m (drop n s) ≡ drop (n + m) s
drop-drop m zero s = ap (λ k. drop k s) (omega arith)
drop-drop m (suc n) [] = drop-nil m ∙ sym (drop-nil (suc n + m))
drop-drop m (suc n) (c ∷ s) =
    let past : suc n + m ≡ suc (n + m) = omega arith in
    drop-drop m n s ∙ sym (ap (λ k. drop k (c ∷ s)) past)

length-drop : (n : ℕ) (s : Text) → length (drop n s) ≡ length s - n
length-drop zero s = omega arith
length-drop (suc n) [] = omega arith
length-drop (suc n) (c ∷ s) = omega (arith, length-drop n s)

starts_with-end : (k : ℕ) (key : Text) (j : ℕ) → starts_with (k ∷ key) (drop j []) ≡ false
starts_with-end k key zero = refl
starts_with-end k key (suc j) = refl

-- The first occurrence in a text that begins with `c`.
module _ (k : ℕ) (key : Text) (c : ℕ) (s : Text) where
  find-here : starts_with (k ∷ key) (c ∷ s) ≡ true → find (k ∷ key) (c ∷ s) ≡ some 0
  unfolding find
  find-here e = rw e refl

  find-later :
      (i : ℕ)
      → starts_with (k ∷ key) (c ∷ s) ≡ false
      → find (k ∷ key) s ≡ some i
      → find (k ∷ key) (c ∷ s) ≡ some (suc i)
  unfolding find
  find-later i e f = rw (e, f) refl

  find-never :
      starts_with (k ∷ key) (c ∷ s) ≡ false
      → find (k ∷ key) s ≡ none
      → find (k ∷ key) (c ∷ s) ≡ none
  unfolding find
  find-never e f = rw (e, f) refl

-- Past the end there is no occurrence.
starts_with-past :
    (k : ℕ) (key s : Text) (j : ℕ) → length s ≤ j → starts_with (k ∷ key) (drop j s) ≡ false
starts_with-past k key [] j h = starts_with-end k key j
starts_with-past k key (c ∷ s) zero h = absurd (omega arith)
starts_with-past k key (c ∷ s) (suc j) h = starts_with-past k key s j (omega arith)

find-none :
    (k : ℕ) (key s : Text) (j : ℕ)
    → find (k ∷ key) s ≡ none
    → starts_with (k ∷ key) (drop j s) ≡ false
find-none k key [] j h = starts_with-end k key j
find-none k key (c ∷ s) j h = elim (Bool-cases (starts_with (k ∷ key) (c ∷ s))) [
  | inl here ↦ let found = find-here k key c s here in cc
  | inr not_here ↦ elim (Option-cases (find (k ∷ key) s)) [
    | inl never ↦ elim j as (λ n. starts_with (k ∷ key) (drop n (c ∷ s)) ≡ false) [
      | zero ↦ not_here
      | suc m ↦ find-none k key s m never
    ]
    | inr (i, later) ↦ let found = find-later k key c s i not_here later in cc
  ]
]

-- A position where `key` stands, and none before it.
IsFirst : Text → Text → ℕ → Type 0
IsFirst key s i =
    (starts_with key (drop i s) ≡ true) × ((j : ℕ) → j < i → starts_with key (drop j s) ≡ false)

IsFirst-suc :
    (k : ℕ) (key : Text) (c : ℕ) (s : Text) (i : ℕ)
    → starts_with (k ∷ key) (c ∷ s) ≡ false
    → IsFirst (k ∷ key) s i
    → IsFirst (k ∷ key) (c ∷ s) (suc i)
unfolding IsFirst
IsFirst-suc k key c s i e h = (h.0, before)
  where
    before : (j : ℕ) → j < suc i → starts_with (k ∷ key) (drop j (c ∷ s)) ≡ false
    before zero below = e
    before (suc j) below = h.1 j (omega arith)

find-IsFirst : (k : ℕ) (key s : Text) (i : ℕ) → find (k ∷ key) s ≡ some i → IsFirst (k ∷ key) s i
find-IsFirst k key [] i h = unfold find in cc
find-IsFirst k key (c ∷ s) i h = elim (Bool-cases (starts_with (k ∷ key) (c ∷ s))) [
  | inl here ↦
      let found = find-here k key c s here in
      let same : 0 ≡ i = cc in
      subst (IsFirst (k ∷ key) (c ∷ s)) same
        (unfold IsFirst in (here, λ j below. absurd (omega arith)))
  | inr not_here ↦ elim (Option-cases (find (k ∷ key) s)) [
    | inl never ↦ let found = find-never k key c s not_here never in cc
    | inr (m, later) ↦
        let found = find-later k key c s m not_here later in
        let same : suc m ≡ i = cc in
        subst (IsFirst (k ∷ key) (c ∷ s)) same
          (IsFirst-suc k key c s m not_here (find-IsFirst k key s m later))
  ]
]

-- The matches of `key` in `s` from the character `from` on: each is the first one at or after the end
-- of the one before, and after the last there is none.
pub AreMatches : Text → Text → ℕ → List ℕ → Type 0
AreMatches key s from [] = (j : ℕ) → from ≤ j → starts_with key (drop j s) ≡ false
AreMatches key s from (i ∷ more) =
    (from ≤ i)
    × (starts_with key (drop i s) ≡ true)
    × ((j : ℕ) → from ≤ j → j < i → starts_with key (drop j s) ≡ false)
    × AreMatches key s (i + length key) more

no_round :
    (fuel k : ℕ) (key s : Text) (base : ℕ)
    → find (k ∷ key) s ≡ none
    → occurrences (suc fuel) (k ∷ key) base s ≡ []
unfolding occurrences
no_round fuel k key s base e = rw (e, occurrences) refl

round :
    (fuel k : ℕ) (key s : Text) (base i : ℕ)
    → find (k ∷ key) s ≡ some i
    → occurrences (suc fuel) (k ∷ key) base s
      ≡ (base + i)
        ∷ occurrences fuel (k ∷ key) (base + i + length (k ∷ key)) (drop (i + length (k ∷ key)) s)
unfolding occurrences
round fuel k key s base i e = rw (e, occurrences) refl

-- What holds of the rest of a text holds of the text.
none_past :
    (k : ℕ) (key s : Text) (base m j : ℕ)
    → ((j : ℕ) → j < m → starts_with (k ∷ key) (drop j (drop base s)) ≡ false)
    → base ≤ j
    → j < base + m
    → starts_with (k ∷ key) (drop j s) ≡ false
none_past k key s base m j none_there from below =
    let shifted : drop (j - base) (drop base s) ≡ drop j s =
      drop-drop (j - base) base s ∙ ap (λ n. drop n s) (omega arith) in
    subst (λ t. starts_with (k ∷ key) t ≡ false) shifted (none_there (j - base) (omega arith))

-- Enough rounds find all matches from `base` on.
occurrences-AreMatches :
    (fuel k : ℕ) (key s : Text) (base : ℕ)
    → length s ≤ base + fuel
    → AreMatches (k ∷ key) s base (occurrences fuel (k ∷ key) base (drop base s))
unfolding AreMatches IsFirst
occurrences-AreMatches zero k key s base h =
    unfold occurrences in λ j past. starts_with-past k key s j (omega arith)
occurrences-AreMatches (suc fuel) k key s base h =
    elim (Option-cases (find (k ∷ key) (drop base s))) [
      | inl never ↦
          subst (AreMatches (k ∷ key) s base) (sym (no_round fuel k key (drop base s) base never))
            (λ j past.
              none_past k key s base (suc j) j (λ n below. find-none k key (drop base s) n never)
                past (omega arith))
      | inr (i, found) ↦
          let (stands, before) = find-IsFirst k key (drop base s) i found in
          let on : drop (i + length (k ∷ key)) (drop base s)
              ≡ drop (base + i + length (k ∷ key)) s =
            drop-drop (i + length (k ∷ key)) base s ∙ ap (λ n. drop n s) (omega arith) in
          let rest =
            occurrences-AreMatches fuel k key s (base + i + length (k ∷ key)) (omega arith) in
          subst (AreMatches (k ∷ key) s base) (sym (round fuel k key (drop base s) base i found)) (
            omega arith,
            subst (λ t. starts_with (k ∷ key) t ≡ true) (drop-drop i base s) stands,
            λ j past below. none_past k key s base i j before past below,
            subst
                (λ t.
                  AreMatches (k ∷ key) s (base + i + length (k ∷ key))
                    (occurrences fuel (k ∷ key) (base + i + length (k ∷ key)) t))
                (sym on) rest,
          )
    ]

-- A search that looks at the case does not panic, and finds the matches from left to right: each is the
-- first one at or after the end of the one before.
pub find_match_starts-AreMatches :
    (lower : Text → Text) (haystack needle : Text)
    → is_nil (trim needle) ≡ false
    → (starts : List ℕ) × (find_match_starts lower haystack needle false ≡ some starts)
      × AreMatches (trim needle) haystack 0 starts
unfolding find_match_starts
find_match_starts-AreMatches lower haystack needle h =
    elim (trim needle)
        as (λ key.
          is_nil key ≡ false
          → (starts : List ℕ) × ((if is_nil key
                then some []
                else some (occurrences (length haystack) key 0 haystack))
              ≡ some starts)
            × AreMatches key haystack 0 starts) [
              | [] ↦ λ e. cc
              | k ∷ key ↦ λ e. (
                occurrences (length haystack) (k ∷ key) 0 haystack,
                refl,
                occurrences-AreMatches (length haystack) k key haystack 0 (omega arith),
              )
            ]
      h
