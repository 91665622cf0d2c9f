-- ===== src/Pool/Invariant.antt =====
-- The manager under every interleaving of the sections of its methods: what calls in progress and
-- callers may do next, and the invariant that all of it keeps.
use dbm.Base.{
  ℕ, ◌+◌, ◌≤◌, ◌<◌, ◌≡◌, refl, inl, inr, List, [], ◌∷◌, ◌++◌, arith, length, length-append,
  Option-cases, if◌then◌else◌, ◌==◌,
}
use dbm.Base.Assoc.{lookup, Distinct, insert-Distinct, remove-Distinct, retain-Distinct}
use dbm.Pool.Counts.{
  count-append, count-release_le, count-release, addresses-append, count-insert, count-lookup,
  count-remove_le, count-retain_le,
}
use dbm.Pool.Manager.{
  PoolKey, key_eq, ConnectionPoolManager, count, addresses, clone_arc, drop_arc, new_arc,
  find_existing, settle, remove_pool, clear, cleanup, snapshot, remove_dead,
}

-- A manager, and the calls of `get_or_create` that have made an `Arc` and not settled it.
pub record World (T : Type 0) : Type 0 where
  pub manager : ConnectionPoolManager T
  pub creating : List (PoolKey × ℕ)

abbrev pub start : {T : Type 0} → World T
start = record { manager = record { pools = []; arcs = []; held = [] }; creating = [] }

-- One section under the lock, or one thing that a call or a caller does between sections. The keys
-- that `removes_dead` takes were computed from any earlier copy, so they are arbitrary here.
pub data Step {T : Type 0} (w : World T) : World T → Type 0 where
  finds : (key : PoolKey) → Step w (record w { manager = (find_existing w.manager key).1 })
  makes :
      (key : PoolKey) (pool : T)
      → Step w (record {
        manager = (new_arc w.manager pool).1;
        creating = (key, (new_arc w.manager pool).0) ∷ w.creating;
      })
  settles :
      (key : PoolKey) (a : ℕ) (before later : List (PoolKey × ℕ))
      → w.creating ≡ before ++ (key, a) ∷ later
      → Step w (record { manager = (settle w.manager key a).1; creating = before ++ later })
  clones :
      (a : ℕ) → 0 < count a w.manager.held → Step w (record w { manager = clone_arc w.manager a })
  drops :
      (a : ℕ)
      → count a (addresses w.creating) < count a w.manager.held
      → Step w (record w { manager = drop_arc w.manager a })
  removes : (key : PoolKey) → Step w (record w { manager = remove_pool w.manager key })
  clears : Step w (record w { manager = clear w.manager })
  cleans : Step w (record w { manager = cleanup w.manager })
  snapshots : Step w (record w { manager = (snapshot w.manager).1 })
  removes_dead : (dead : List PoolKey) → Step w (record w { manager = remove_dead w.manager dead })

pub data Reach {T : Type 0} (w : World T) : World T → Type 0 where
  here : Reach w w
  next : {u v : World T} → Reach w u → Step u v → Reach w v

-- No key is bound twice, no two entries or unsettled calls share an `Arc`, an unsettled call still
-- holds its own, and every address in use was made.
pub record IsSound {T : Type 0} (w : World T) : Type 0 where
  pub distinct : Distinct w.manager.pools
  pub apart : (a : ℕ) → count a (addresses w.manager.pools) + count a (addresses w.creating) ≤ 1
  pub kept : (a : ℕ) → count a (addresses w.creating) ≤ count a w.manager.held
  pub made :
      (a : ℕ)
      → length w.manager.arcs ≤ a
      → (count a (addresses w.manager.pools) ≡ 0) × (count a w.manager.held ≡ 0)

module _ {T : Type 0} where
  finds-IsSound :
      (w : World T) (key : PoolKey)
      → IsSound w
      → IsSound (record w { manager = (find_existing w.manager key).1 })
  unfolding find_existing
  finds-IsSound w key i = elim (Option-cases (lookup key w.manager.pools)) [
    | inl e ↦ rw (e, find_existing) i
    | inr (a, e) ↦
        rw (e, find_existing)
          (record {
            distinct = i.distinct;
            apart = i.apart;
            kept = λ b. ground (arith, i.kept b);
            made =
                λ b h. ground (arith, i.made b h, i.made a, count-lookup key a w.manager.pools e);
          })
  ]

  settles-IsSound :
      (w : World T) (key : PoolKey) (a : ℕ) (before later : List (PoolKey × ℕ))
      → w.creating ≡ before ++ (key, a) ∷ later
      → IsSound w
      → IsSound (record { manager = (settle w.manager key a).1; creating = before ++ later })
  unfolding settle
  settles-IsSound w key a before later e i = elim (Option-cases (lookup key w.manager.pools)) [
    | inl fresh ↦
        rw (fresh, settle)
          (record {
            distinct = insert-Distinct key a w.manager.pools i.distinct;
            apart =
                λ b. ground (arith, i.apart b, unsettled b, count-insert b key a w.manager.pools);
            kept = λ b. ground (arith, i.kept b, unsettled b);
            made = λ b h. ground (
              arith,
              i.made b h,
              i.kept a,
              unsettled a,
              unsettled b,
              count-insert b key a w.manager.pools,
            );
          })
    | inr (c, bound) ↦
        rw (bound, settle)
          (record {
            distinct = i.distinct;
            apart = λ b. ground (arith, i.apart b, unsettled b);
            kept = λ b.
                ground
                  (arith, i.kept b, i.apart b, unsettled b, count-release b a (c ∷ w.manager.held));
            made = λ b h. ground (
              arith,
              i.made b h,
              i.made c,
              count-lookup key c w.manager.pools bound,
              count-release_le b a (c ∷ w.manager.held),
            );
          })
  ]
    where
      unsettled :
          (b : ℕ)
          → count b (addresses w.creating)
            ≡ count b (addresses (before ++ later)) + (if a == b then 1 else 0)
      unsettled b = ground (
        arith,
        e,
        addresses-append before ((key, a) ∷ later),
        addresses-append before later,
        count-append b (addresses before) (a ∷ addresses later),
        count-append b (addresses before) (addresses later),
      )

  remove_dead-IsSound :
      (w : World T) (dead : List PoolKey)
      → IsSound w
      → IsSound (record w { manager = remove_dead w.manager dead })
  unfolding remove_dead
  remove_dead-IsSound w [] i = i
  remove_dead-IsSound w (k ∷ dead) i =
      remove_dead-IsSound (record w { manager = remove_pool w.manager k }) dead
        (record {
          distinct = remove-Distinct k w.manager.pools i.distinct;
          apart = λ b. omega (arith, i.apart b, count-remove_le b k w.manager.pools);
          kept = i.kept;
          made = λ b h. omega (arith, i.made b h, count-remove_le b k w.manager.pools);
        })

  -- Every section keeps the manager sound, whatever other calls have done in between.
  Step-IsSound : {w v : World T} → Step w v → IsSound w → IsSound v
  unfolding drop_arc new_arc cleanup snapshot clear clone_arc remove_pool remove_dead
  Step-IsSound (finds key) i = finds-IsSound _ key i
  Step-IsSound {w} (makes key pool) i = record {
    distinct = i.distinct;
    apart = λ b. ground (arith, i.apart b, i.kept b, i.made b);
    kept = λ b. ground (arith, i.kept b);
    made = λ b h. ground (arith, i.made b, length-append w.manager.arcs (pool ∷ []));
  }
  Step-IsSound (settles key a before later e) i = settles-IsSound _ key a before later e i
  Step-IsSound (clones a h) i = record {
    distinct = i.distinct;
    apart = i.apart;
    kept = λ b. ground (arith, i.kept b);
    made = λ b g. ground (arith, i.made b g);
  }
  Step-IsSound {w} (drops a h) i = record {
    distinct = i.distinct;
    apart = i.apart;
    kept = λ b. ground (arith, i.kept b, count-release b a w.manager.held);
    made = λ b g. ground (arith, i.made b g, count-release_le b a w.manager.held);
  }
  Step-IsSound (removes key) i = remove_dead-IsSound _ (key ∷ []) i
  Step-IsSound clears i = record {
    distinct = tt;
    apart = λ b. omega (arith, i.apart b);
    kept = i.kept;
    made = λ b h. (refl, (i.made b h).1);
  }
  Step-IsSound {w} cleans i = record {
    distinct = retain-Distinct _ w.manager.pools i.distinct;
    apart = λ b. omega (arith, i.apart b, count-retain_le b _ w.manager.pools);
    kept = i.kept;
    made = λ b h. omega (arith, i.made b h, count-retain_le b _ w.manager.pools);
  }
  Step-IsSound {w} snapshots i = record {
    distinct = i.distinct;
    apart = i.apart;
    kept = λ b. omega (arith, i.kept b, count-append b (addresses w.manager.pools) w.manager.held);
    made =
        λ b h. omega (arith, i.made b h, count-append b (addresses w.manager.pools) w.manager.held);
  }
  Step-IsSound (removes_dead dead) i = remove_dead-IsSound _ dead i

  start-IsSound : IsSound {T = T} start
  start-IsSound = record {
    distinct = tt;
    apart = λ a. omega arith;
    kept = λ a. omega arith;
    made = λ a h. (refl, refl);
  }

  pub Reach-IsSound : {w v : World T} → IsSound w → Reach w v → IsSound v
  Reach-IsSound i here = i
  Reach-IsSound i (next r st) = Step-IsSound st (Reach-IsSound i r)

  -- After any interleaving of calls from an empty manager, no key is bound twice, no two keys share
  -- a pool, an unsettled call holds the pool that it made, and no address is in use before its pool
  -- was made.
  pub Reach_start-IsSound : {v : World T} → Reach start v → IsSound v
  Reach_start-IsSound r = Reach-IsSound start-IsSound r
