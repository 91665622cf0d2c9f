-- ===== src/Base/Decimal.antt =====
-- Decimal numbers as texts: `format!("{n}")` and `str::parse::<usize>`.
use Prim.Native.Nat.{ℕ, zero, suc, ◌+◌, ◌-◌, ◌*◌, ◌/◌, ◌%◌, ◌^◌, ◌<◌}
use mathlib.Core.Path.{◌≡◌, ap, ◌∙◌}
use mathlib.Core.Bool.{true}
use mathlib.Core.Option.{Option, none, some}
use mathlib.Core.List.{[], ◌∷◌}
use native.Mathlib.Omega.{arith}
use dbm.Base.Tests.{ltb, ◌==◌, if◌then◌else◌, Bool-cases}
use mathlib.Core.Logic.{inl, inr}
use dbm.Base.Strings.{Text, is_ascii_digit}

-- The digits of n in front of `acc`; the fuel bounds their number.
show_onto : ℕ → ℕ → Text → Text
show_onto zero n acc = acc
show_onto (suc f) n acc =
    let more = show_onto f (n / 10) ((b'0' + n % 10) ∷ acc) in
    if ltb n 10 then (b'0' + n) ∷ acc else more

-- Fuel n + 1 is enough, since each round divides by ten.
unfoldable pub show : ℕ → Text
unfolding show_onto
show n = show_onto (n + 1) n []

unfoldable parse_digits : ℕ → Text → Option ℕ
unfolding is_ascii_digit
parse_digits n [] = if ltb n (2 ^ 64) then some n else none
parse_digits n (c ∷ s) =
    let rest = parse_digits (n * 10 + (c - b'0')) s in if is_ascii_digit c then rest else none

-- The sign is optional, a digit is not, and a value past the width is an error.
unfoldable pub parse_usize : Text → Option ℕ
unfolding parse_digits
parse_usize [] = none
parse_usize (c ∷ []) = if c == b'+' then none else parse_digits 0 (c ∷ [])
parse_usize (c ∷ d ∷ s) = if c == b'+' then parse_digits 0 (d ∷ s) else parse_digits 0 (c ∷ d ∷ s)

parse_digits-lt : (n m : ℕ) (s : Text) → parse_digits n s ≡ some m → m < 2 ^ 64
unfolding parse_digits
parse_digits-lt n m [] h = ground arith
parse_digits-lt n m (c ∷ s) h = ground (arith, parse_digits-lt (n * 10 + (c - b'0')) m s)

parse_usize-lt : (m : ℕ) (s : Text) → parse_usize s ≡ some m → m < 2 ^ 64
unfolding parse_usize
parse_usize-lt m [] h = cc
parse_usize-lt m (c ∷ []) h = ground (arith, parse_digits-lt 0 m (c ∷ []))
parse_usize-lt m (c ∷ d ∷ s) h =
    ground (arith, parse_digits-lt 0 m (d ∷ s), parse_digits-lt 0 m (c ∷ d ∷ s))

parse_digits-one :
    (q d : ℕ) (acc : Text)
    → d < 10
    → parse_digits q ((b'0' + d) ∷ acc) ≡ parse_digits (q * 10 + d) acc
unfolding parse_digits
parse_digits-one q d acc h = let same : b'0' + d - b'0' ≡ d = omega arith in rw same (ground arith)

-- Reading the digits of n goes on from n.
parse_digits-show_onto :
    (f n : ℕ) (acc : Text) → n < f → parse_digits 0 (show_onto f n acc) ≡ parse_digits n acc
unfolding show_onto
parse_digits-show_onto zero n acc h = absurd (omega arith)
parse_digits-show_onto (suc f) n acc h = elim (Bool-cases (ltb n 10)) [
  | inl small ↦ rw small (unfold parse_digits in ground arith)
  | inr large ↦ rw large (
      parse_digits-show_onto f (n / 10) ((b'0' + n % 10) ∷ acc) (ground arith)
      ∙ parse_digits-one (n / 10) (n % 10) acc (omega arith)
      ∙ ap (λ m. parse_digits m acc) (omega arith))
]

abbrev StartsDigit : Text → Type 0
StartsDigit [] = ⊥
StartsDigit (c ∷ s) = is_ascii_digit c ≡ true

show_onto-StartsDigit : (f n : ℕ) (acc : Text) → n < f → StartsDigit (show_onto f n acc)
unfolding show_onto is_ascii_digit
show_onto-StartsDigit zero n acc h = absurd (omega arith)
show_onto-StartsDigit (suc f) n acc h = elim (Bool-cases (ltb n 10)) [
  | inl small ↦ rw small (ground arith)
  | inr large ↦ rw large (show_onto-StartsDigit f (n / 10) ((b'0' + n % 10) ∷ acc) (ground arith))
]

parse_usize-StartsDigit : (s : Text) → StartsDigit s → parse_usize s ≡ parse_digits 0 s
unfolding parse_usize is_ascii_digit
parse_usize-StartsDigit [] h = absurd h
parse_usize-StartsDigit (c ∷ []) h = ground arith
parse_usize-StartsDigit (c ∷ d ∷ s) h = ground arith

-- A number of the width that is printed reads back as itself.
pub parse_usize-show : (n : ℕ) → n < 2 ^ 64 → parse_usize (show n) ≡ some n
unfolding show
parse_usize-show n h =
    parse_usize-StartsDigit (show_onto (n + 1) n [])
      (show_onto-StartsDigit (n + 1) n [] (omega arith))
    ∙ parse_digits-show_onto (n + 1) n [] (omega arith)
    ∙ unfold parse_digits in ground arith

-- All characters are digits.
abbrev pub Digits : Text → Type 0
Digits [] = Unit {0}
Digits (c ∷ s) = (is_ascii_digit c ≡ true) × Digits s

show_onto-Digits : (f n : ℕ) (acc : Text) → Digits acc → Digits (show_onto f n acc)
unfolding show_onto is_ascii_digit
show_onto-Digits zero n acc h = h
show_onto-Digits (suc f) n acc h = elim (Bool-cases (ltb n 10)) [
  | inl small ↦ rw small (ground arith, h)
  | inr large ↦ rw large (show_onto-Digits f (n / 10) ((b'0' + n % 10) ∷ acc) (ground arith, h))
]

pub show-Digits : (n : ℕ) → Digits (show n)
unfolding show
show-Digits n = show_onto-Digits (n + 1) n [] tt
