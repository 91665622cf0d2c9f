-- ===== src/Base/HashSet.antt =====
-- A Rust `HashSet` as a list without repetitions, in no particular order.
use mathlib.Core.Path.{◌≡◌}
use mathlib.Core.Bool.{Bool, false, ◌||◌}
use mathlib.Core.List.{List, [], ◌∷◌}
use native.Mathlib.Omega.{arith}
use dbm.Base.Tests.{if◌then◌else◌}
use dbm.Base.Equality.{Eq, ◌=?◌, =?_iff}

module _ {ℓ} {A : Type ℓ} ⦃e : Eq A⦄ where
  unfoldable pub contains : A → List A → Bool
  contains a [] = false
  contains a (x ∷ xs) = x =? a || contains a xs

  unfoldable pub insert : A → List A → List A
  unfolding contains
  insert a xs = if contains a xs then xs else a ∷ xs

  unfoldable pub remove : A → List A → List A
  remove a [] = []
  remove a (x ∷ xs) = let rest = remove a xs in if x =? a then rest else x ∷ rest

  unfoldable pub extend : List A → List A → List A
  extend xs [] = xs
  extend xs (y ∷ ys) = extend (insert y xs) ys

  -- No element occurs twice.
  abbrev pub NoRepeats : List A → Type 0
  NoRepeats [] = Unit
  NoRepeats (x ∷ xs) = (contains x xs ≡ false) × NoRepeats xs

  pub contains-insert :
      (a b : A) (xs : List A) → contains b (insert a xs) ≡ (a =? b || contains b xs)
  unfolding contains insert
  contains-insert a b xs = ground (arith, =?_iff a b)

  pub contains-remove :
      (a b : A) (xs : List A) → contains b (remove a xs) ≡ (if a =? b then false else contains b xs)
  unfolding contains remove
  contains-remove a b [] = ground arith
  contains-remove a b (x ∷ xs) =
      ground (arith, =?_iff a b, =?_iff x a, =?_iff x b, contains-remove a b xs)

  pub contains-extend :
      (b : A) (xs ys : List A) → contains b (extend xs ys) ≡ (contains b xs || contains b ys)
  unfolding contains extend
  contains-extend b xs [] = ground arith
  contains-extend b xs (y ∷ ys) =
      ground (arith, contains-extend b (insert y xs) ys, contains-insert y b xs)

  pub insert-NoRepeats : (a : A) (xs : List A) → NoRepeats xs → NoRepeats (insert a xs)
  unfolding insert
  insert-NoRepeats a xs h = ground arith

  pub remove-NoRepeats : (a : A) (xs : List A) → NoRepeats xs → NoRepeats (remove a xs)
  unfolding contains remove
  remove-NoRepeats a [] h = tt
  remove-NoRepeats a (x ∷ xs) h = ground (arith, contains-remove a x xs, remove-NoRepeats a xs h.1)

  pub extend-NoRepeats : (xs ys : List A) → NoRepeats xs → NoRepeats (extend xs ys)
  unfolding extend
  extend-NoRepeats xs [] h = h
  extend-NoRepeats xs (y ∷ ys) h = extend-NoRepeats (insert y xs) ys (insert-NoRepeats y xs h)
