-- ===== src/Pool/Examples.antt =====
-- The theorems on the connection pool manager at concrete inputs, and runs of its methods.
use dbm.Base.{ℕ, ◌≡◌, refl, none, [], ◌∷◌, arith, codes, leb}
use dbm.Base.Assoc.{lookup, insert}
use dbm.Pool.Manager.{
  PoolKey, key_eq, ConnectionPoolManager, ok, clone_arc, drop_arc, new_arc, find_existing, settle,
  get_or_create, finish_create, cleanup, health_check, dead_keys, remove_dead,
}
use dbm.Pool.Invariant.{
  World, start, makes, settles, drops, cleans, Reach, here, next, IsSound, Reach_start-IsSound,
}
use dbm.Pool.Sharing.{single_pool}
use dbm.Pool.Health.{health_check_lem, health_check_stale}

abbrev key1 : PoolKey
key1 = record { instance_name = codes "inst1"; connection_name = codes "conn1" }

abbrev key2 : PoolKey
key2 = record { instance_name = codes "inst1"; connection_name = codes "conn2" }

-- One pool, of value 7, bound to the first key and held by a tab.
abbrev shared : ConnectionPoolManager ℕ
shared = record { pools = (key1, 0) ∷ []; arcs = 7 ∷ []; held = 0 ∷ [] }

abbrev shared_world : World ℕ
shared_world = record { manager = shared; creating = [] }

-- The same after the tab has closed.
abbrev unused_world : World ℕ
unused_world = record shared_world { manager = record shared { held = [] } }

made : Reach start shared_world
unfolding new_arc settle lookup insert
made = next (next here (makes key1 7)) (settles key1 0 [] [] refl)

closed : Reach start unused_world
unfolding drop_arc
closed = next made (drops 0 (omega arith))

two_tabs : get_or_create {E = ℕ} shared key1 (ok 9) ≡ (ok 0, clone_arc shared 0)
unfolding get_or_create find_existing lookup
two_tabs = refl

another_key : (get_or_create {E = ℕ} shared key2 (ok 9)).0 ≡ ok 1
unfolding get_or_create find_existing lookup finish_create new_arc settle insert
another_key = refl

Reach_start-IsSound_example : IsSound shared_world
Reach_start-IsSound_example = Reach_start-IsSound made

-- Another tab has made a second pool for the key, and a cleanup has run, before it settles.
abbrev raced_world : World ℕ
raced_world = record {
  manager = cleanup (record { pools = (key1, 0) ∷ []; arcs = 7 ∷ 9 ∷ []; held = 1 ∷ 0 ∷ [] });
  creating = (key1, 1) ∷ [];
}

raced : Reach shared_world raced_world
unfolding new_arc
raced = next (next here (makes key1 9)) cleans

single_pool_example : (settle raced_world.manager key1 1).0 ≡ 0
unfolding raced lookup
single_pool_example =
    (single_pool {w = shared_world} {v = raced_world} key1 0 raced (Reach_start-IsSound made) refl
        ((tt, tt), omega arith)).1
      1

health_check_lem_example : lookup key1 (health_check shared (λ n. leb n 5)).pools ≡ none
unfolding lookup
health_check_lem_example = (health_check_lem shared (λ n. leb n 5) (refl, tt)).0 key1

abbrev rebound : ConnectionPoolManager ℕ
rebound = record { pools = (key1, 1) ∷ []; arcs = 7 ∷ 4 ∷ []; held = 1 ∷ [] }

health_check_stale_example :
    lookup key1 (remove_dead rebound (dead_keys shared.arcs (λ n. leb n 5) shared.pools)).pools
    ≡ none
unfolding lookup
health_check_stale_example =
    health_check_stale shared rebound (λ n. leb n 5) key1 0 (refl, tt) refl refl
