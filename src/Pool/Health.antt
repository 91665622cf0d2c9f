-- ===== src/Pool/Health.antt =====
-- `health_check`: its effect alone, and what its last section does to a manager that has changed
-- since the copy.
use dbm.Base.{
  ℕ, ◌≡◌, refl, ◌∙◌, Bool, true, false, not, Option, none, some, List, [], ◌∷◌, ◌++◌, arith, =?_iff,
}
use dbm.Base.Assoc.{lookup, keep_if, Distinct}
use dbm.Base.HashSet.{contains}
use dbm.Pool.Manager.{
  PoolKey, key_eq, ConnectionPoolManager, addresses, drop_arc, drop_all, snapshot, fails, dead_keys,
  remove_dead, remove_pool, health_check,
}
use dbm.Pool.Sharing.{lookup-remove_dead}

abbrev verdict : {T : Type 0} → List T → (T → Bool) → Option ℕ → Bool
verdict arcs check_fn none = false
verdict arcs check_fn (some a) = fails arcs check_fn a

module _ {T : Type 0} where
  contains_missing :
      (arcs : List T) (check_fn : T → Bool) (m : List (PoolKey × ℕ)) (key : PoolKey)
      → lookup key m ≡ none
      → contains key (dead_keys arcs check_fn m) ≡ false
  unfolding lookup dead_keys contains
  contains_missing arcs check_fn [] key h = refl
  contains_missing arcs check_fn ((k, a) ∷ m) key h =
      ground (arith, contains_missing arcs check_fn m key)

  contains-dead_keys :
      (arcs : List T) (check_fn : T → Bool) (m : List (PoolKey × ℕ)) (key : PoolKey)
      → Distinct m
      → contains key (dead_keys arcs check_fn m) ≡ verdict arcs check_fn (lookup key m)
  unfolding lookup dead_keys contains
  contains-dead_keys arcs check_fn [] key d = refl
  contains-dead_keys arcs check_fn ((k, a) ∷ m) key d = ground (
    arith,
    =?_iff k key,
    contains-dead_keys arcs check_fn m key d.1,
    contains_missing arcs check_fn m key,
  )

  held-drop_all :
      (s : ConnectionPoolManager T) (xs ys : List ℕ)
      → s.held ≡ xs ++ ys
      → ((drop_all s xs).held ≡ ys)
        × ((drop_all s xs).pools ≡ s.pools)
        × ((drop_all s xs).arcs ≡ s.arcs)
  unfolding drop_all
  held-drop_all s [] ys h = (h, refl, refl)
  held-drop_all s (x ∷ xs) ys h = held-drop_all (drop_arc s x) xs ys (ground arith)

  unchanged-remove_dead :
      (s : ConnectionPoolManager T) (dead : List PoolKey)
      → ((remove_dead s dead).held ≡ s.held) × ((remove_dead s dead).arcs ≡ s.arcs)
  unfolding remove_dead
  unchanged-remove_dead s [] = (refl, refl)
  unchanged-remove_dead s (k ∷ dead) = unchanged-remove_dead (remove_pool s k) dead

  -- Alone, a health check removes exactly the entries whose pool fails the check, drops every clone
  -- that it made, and touches no pool.
  pub health_check_lem :
      (s : ConnectionPoolManager T) (check_fn : T → Bool)
      → Distinct s.pools
      → ((key : PoolKey)
          → lookup key (health_check s check_fn).pools
            ≡ keep_if (λ a. not (fails s.arcs check_fn a)) (lookup key s.pools))
        × ((health_check s check_fn).held ≡ s.held)
        × ((health_check s check_fn).arcs ≡ s.arcs)
  unfolding health_check snapshot
  health_check_lem s check_fn d =
      let dead = dead_keys s.arcs check_fn s.pools in
      let copied = record s { held = addresses s.pools ++ s.held } in
      let dropped = held-drop_all copied (addresses s.pools) s.held refl in
      let removed = unchanged-remove_dead (drop_all copied (addresses s.pools)) dead in
      (
        λ key. ground (
          arith,
          dropped,
          lookup-remove_dead (drop_all copied (addresses s.pools)) dead key,
          contains-dead_keys s.arcs check_fn s.pools key d,
        ),
        removed.0 ∙ dropped.0,
        removed.1 ∙ dropped.2,
      )

  -- The last section goes by key: whatever the manager is by then, a key whose copied pool failed
  -- is unbound, also if it was bound anew, to a pool that passes the check, since the copy.
  pub health_check_stale :
      (copied later : ConnectionPoolManager T) (check_fn : T → Bool) (key : PoolKey) (a : ℕ)
      → Distinct copied.pools
      → lookup key copied.pools ≡ some a
      → fails copied.arcs check_fn a ≡ true
      → lookup key (remove_dead later (dead_keys copied.arcs check_fn copied.pools)).pools ≡ none
  health_check_stale copied later check_fn key a d e f = ground (
    arith,
    lookup-remove_dead later (dead_keys copied.arcs check_fn copied.pools) key,
    contains-dead_keys copied.arcs check_fn copied.pools key d,
  )
