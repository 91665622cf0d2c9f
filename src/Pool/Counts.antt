-- ===== src/Pool/Counts.antt =====
-- How often an address occurs among the clones and in the map, after what the manager's operations do
-- to them.
use dbm.Base.{
  ℕ, ◌+◌, ◌≤◌, ◌<◌, ◌≡◌, refl, ◌⊎◌, inr, Bool, none, some, List, [], ◌∷◌, ◌++◌, arith,
  if◌then◌else◌, ◌==◌,
}
use dbm.Base.Assoc.{lookup, insert, remove, retain}
use dbm.Pool.Manager.{PoolKey, key_eq, count, release, addresses}

pub count-append : (a : ℕ) (xs ys : List ℕ) → count a (xs ++ ys) ≡ count a xs + count a ys
count-append a [] ys = omega arith
count-append a (x ∷ xs) ys = ground (arith, count-append a xs ys)

pub count-release_le : (a b : ℕ) (xs : List ℕ) → count a (release b xs) ≤ count a xs
count-release_le a b [] = omega arith
count-release_le a b (x ∷ xs) = ground (arith, count-release_le a b xs)

pub count-release :
    (a b : ℕ) (xs : List ℕ)
    → count a (release b xs) + (if a == b then 1 else 0) ≡ count a xs
      ⊎ (count b xs ≡ 0) × (release b xs ≡ xs)
count-release a b [] = inr (refl, refl)
count-release a b (x ∷ xs) = ground (arith, count-release a b xs)

pub addresses-append : (m n : List (PoolKey × ℕ)) → addresses (m ++ n) ≡ addresses m ++ addresses n
addresses-append [] n = refl
addresses-append ((k, a) ∷ m) n = ground (arith, addresses-append m n)

pub count-insert :
    (b : ℕ) (k : PoolKey) (a : ℕ) (m : List (PoolKey × ℕ))
    → lookup k m ≡ none
    → count b (addresses (insert k a m)) ≡ count b (addresses m) + (if a == b then 1 else 0)
unfolding lookup insert
count-insert b k a [] h = ground arith
count-insert b k a ((j, c) ∷ m) h = ground (arith, count-insert b k a m)

pub count-lookup :
    (k : PoolKey) (a : ℕ) (m : List (PoolKey × ℕ)) → lookup k m ≡ some a → 0 < count a (addresses m)
unfolding lookup
count-lookup k a [] h = cc
count-lookup k a ((j, c) ∷ m) h = ground (arith, count-lookup k a m)

pub count-remove_le :
    (b : ℕ) (k : PoolKey) (m : List (PoolKey × ℕ))
    → count b (addresses (remove k m)) ≤ count b (addresses m)
unfolding remove
count-remove_le b k [] = omega arith
count-remove_le b k ((j, c) ∷ m) = ground (arith, count-remove_le b k m)

pub count-retain_le :
    (b : ℕ) (p : PoolKey → ℕ → Bool) (m : List (PoolKey × ℕ))
    → count b (addresses (retain p m)) ≤ count b (addresses m)
unfolding retain
count-retain_le b p [] = omega arith
count-retain_le b p ((j, c) ∷ m) = ground (arith, count-retain_le b p m)
