-- ===== src/Pool/Sharing.antt =====
-- What the manager promises to the tabs: one pool for each connection while anybody uses it.
use dbm.Base.{
  ℕ, suc, ◌<◌, ◌≡◌, refl, ◌∙◌, inl, inr, false, Option, none, some, List, [], ◌∷◌, ◌++◌, arith,
  length, Option-cases, =?_iff, ◌=?◌, ltb, if◌then◌else◌,
}
use dbm.Base.Assoc.{lookup, keep_if, lookup-insert, lookup-remove, lookup-retain}
use dbm.Base.HashSet.{contains}
use dbm.Pool.Manager.{
  PoolKey, key_eq, ConnectionPoolManager, Result, ok, err, count, clone_arc, drop_arc, new_arc,
  find_existing, settle, finish_create, get_or_create, remove_pool, cleanup, ref_count,
  strong_count, snapshot, remove_dead,
}
use dbm.Pool.Invariant.{
  World, Step, finds, makes, settles, clones, drops, removes, clears, cleans, snapshots,
  removes_dead, Reach, here, next, IsSound, Reach-IsSound,
}
use dbm.Pool.Counts.{count-lookup}

module _ {T : Type 0} where
  pub lookup-remove_dead :
      (s : ConnectionPoolManager T) (dead : List PoolKey) (key : PoolKey)
      → lookup key (remove_dead s dead).pools
        ≡ (if contains key dead then none else lookup key s.pools)
  unfolding remove_dead remove_pool contains
  lookup-remove_dead s [] key = refl
  lookup-remove_dead s (k ∷ dead) key =
      ground (arith, lookup-remove_dead (remove_pool s k) dead key, lookup-remove k key s.pools)

  -- The steps that leave the pool `a` of a key alone: no removal of that key, and no cleanup unless
  -- somebody holds a clone.
  abbrev Spares : {w v : World T} → PoolKey → ℕ → Step w v → Type 0
  Spares key a (removes k) = (k =? key) ≡ false
  Spares key a clears = ⊥
  Spares {w} key a cleans = 0 < count a w.manager.held
  Spares key a (removes_dead dead) = contains key dead ≡ false
  Spares key a _ = Unit

  abbrev AllSpare : {w v : World T} → PoolKey → ℕ → Reach w v → Type 0
  AllSpare key a here = Unit
  AllSpare key a (next r st) = AllSpare key a r × Spares key a st

  -- A cleanup keeps the pools of which somebody holds a clone, and only those.
  lookup-cleanup :
      (w : World T) (key : PoolKey)
      → IsSound w
      → lookup key (cleanup w.manager).pools
        ≡ keep_if (λ a. ltb 0 (count a w.manager.held)) (lookup key w.manager.pools)
  unfolding cleanup
  lookup-cleanup w key i =
      lookup-retain (λ k b. ltb 1 (strong_count w.manager b)) key w.manager.pools i.distinct
      ∙ counted (lookup key w.manager.pools) refl
    where
      counted :
          (o : Option ℕ)
          → lookup key w.manager.pools ≡ o
          → keep_if (λ b. ltb 1 (strong_count w.manager b)) o
            ≡ keep_if (λ a. ltb 0 (count a w.manager.held)) o
      counted none e = refl
      counted (some a) e = ground (arith, i.apart a, count-lookup key a w.manager.pools e)

  Step-bound :
      {w v : World T} (key : PoolKey) (a : ℕ) (st : Step w v)
      → IsSound w
      → lookup key w.manager.pools ≡ some a
      → Spares key a st
      → lookup key v.manager.pools ≡ some a
  unfolding find_existing settle snapshot new_arc remove_pool clone_arc drop_arc
  Step-bound key a (finds k) i e h = ground arith
  Step-bound key a (makes k pool) i e h = e
  Step-bound {w} key a (settles k b before later p) i e h =
      ground (arith, lookup-insert k key b w.manager.pools, =?_iff k key)
  Step-bound key a (clones b p) i e h = e
  Step-bound key a (drops b p) i e h = e
  Step-bound {w} key a (removes k) i e h = ground (arith, lookup-remove k key w.manager.pools)
  Step-bound key a clears i e h = absurd h
  Step-bound {w} key a cleans i e h = ground (arith, lookup-cleanup w key i)
  Step-bound key a snapshots i e h = e
  Step-bound {w} key a (removes_dead dead) i e h =
      ground (arith, lookup-remove_dead w.manager dead key)

  Reach-bound :
      {w v : World T} (key : PoolKey) (a : ℕ) (r : Reach w v)
      → IsSound w
      → lookup key w.manager.pools ≡ some a
      → AllSpare key a r
      → lookup key v.manager.pools ≡ some a
  Reach-bound key a here i e h = e
  Reach-bound key a (next r st) i e h =
      Step-bound key a st (Reach-IsSound i r) (Reach-bound key a r i e h.0) h.1

  -- Once a key is bound to a pool, every call of `get_or_create` for it returns that pool, at
  -- whichever of its two sections it arrives and with whatever pool it has made itself, through any
  -- interleaving that neither removes the key nor cleans up while nobody holds the pool.
  pub single_pool :
      {w v : World T} (key : PoolKey) (a : ℕ) (r : Reach w v)
      → IsSound w
      → lookup key w.manager.pools ≡ some a
      → AllSpare key a r
      → ((find_existing v.manager key).0 ≡ some a) × ((b : ℕ) → (settle v.manager key b).0 ≡ a)
  unfolding find_existing settle
  single_pool {v} key a r i e h =
      let bound = Reach-bound key a r i e h in (ground (arith, bound), λ b. ground (arith, bound))

  -- What `get_or_create` does alone: a bound key yields a clone of its pool and `create_fn` is not
  -- asked, a failure of `create_fn` is passed on and leaves the manager as it was, and a new pool is
  -- bound to the key and returned, with every other key as before.
  get_or_create_branches :
      {E : Type 0} (s : ConnectionPoolManager T) (key : PoolKey)
      → ((a : ℕ) (created : Result T E)
          → lookup key s.pools ≡ some a
          → get_or_create s key created ≡ (ok a, clone_arc s a))
        × ((e : E) → lookup key s.pools ≡ none → get_or_create s key (err e) ≡ (err e, s))
        × ((pool : T)
            → lookup key s.pools ≡ none
            → let (r, s') = get_or_create {E = E} s key (ok pool) in
              (r ≡ ok (length s.arcs))
              × (s'.arcs ≡ s.arcs ++ pool ∷ [])
              × (s'.held ≡ length s.arcs ∷ s.held)
              × ((k : PoolKey)
                  → lookup k s'.pools
                    ≡ (if key =? k then some (length s.arcs) else lookup k s.pools)))
  unfolding get_or_create find_existing finish_create settle new_arc
  get_or_create_branches s key = (
    λ a created e. ground arith,
    λ e h. ground arith,
    λ pool h. (
      ground arith,
      ground arith,
      ground arith,
      λ k. ground (arith, lookup-insert key k (length s.arcs) s.pools),
    ),
  )

  -- A key that is bound has one reference for the map and one for each clone that others hold; a key
  -- that is not bound has none.
  ref_count_lem :
      (w : World T) (key : PoolKey)
      → IsSound w
      → ref_count w.manager key
        ≡ elim (lookup key w.manager.pools) [ some a ↦ suc (count a w.manager.held) | none ↦ 0 ]
  unfolding ref_count
  ref_count_lem w key i = elim (Option-cases (lookup key w.manager.pools)) [
    | inl e ↦ ground (arith, e)
    | inr (a, e) ↦ ground (arith, e, i.apart a, count-lookup key a w.manager.pools e)
  ]
