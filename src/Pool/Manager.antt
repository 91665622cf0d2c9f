-- ===== src/Pool/Manager.antt =====
-- The operations of `ConnectionPoolManager`, one function for each section under its lock, and the
-- whole methods as compositions of the sections.

use dbm.Base.{
  ℕ, suc, ◌+◌, Bool, true, false, not, ◌&&◌, Option, none, some, List, [], ◌∷◌, ◌++◌, ◌≡◌, ◌↔◌,
  arith, length, get_elem?, Text, Eq, list_eq, nat_eq, ◌=?◌, =?_iff, ltb, ◌==◌, if◌then◌else◌,
}
use dbm.Base.Assoc.{lookup, insert, remove, retain}

pub record PoolKey : Type 0 where
  pub instance_name : Text
  pub connection_name : Text

abbrev key_beq : PoolKey → PoolKey → Bool
key_beq k j = k.instance_name =? j.instance_name && k.connection_name =? j.connection_name

pub key_beq_iff : (k j : PoolKey) → (key_beq k j ≡ true) ↔ (k ≡ j)
key_beq_iff k j =
    ground
      (arith, =?_iff k.instance_name j.instance_name, =?_iff k.connection_name j.connection_name)

instance abbrev pub key_eq : Eq PoolKey
key_eq = record { beq = key_beq; beq_iff = key_beq_iff }

-- The manager, the `Arc`s that were ever made, and the clones of them that others hold.
pub record ConnectionPoolManager (T : Type 0) : Type 0 where
  pub pools : List (PoolKey × ℕ)
  pub arcs : List T
  pub held : List ℕ

pub data Result (A E : Type 0) : Type 0 where
  ok : A → Result A E
  err : E → Result A E

abbrev pub count : ℕ → List ℕ → ℕ
count a [] = 0
count a (x ∷ xs) = let rest = count a xs in if x == a then suc rest else rest

-- Dropping one clone of an address.
abbrev pub release : ℕ → List ℕ → List ℕ
release a [] = []
release a (x ∷ xs) = if x == a then xs else x ∷ release a xs

abbrev pub addresses : List (PoolKey × ℕ) → List ℕ
addresses [] = []
addresses ((k, a) ∷ m) = a ∷ addresses m

module _ {T : Type 0} where
  unfoldable pub new : ConnectionPoolManager T
  new = record { pools = []; arcs = []; held = [] }

  unfoldable pub strong_count : ConnectionPoolManager T → ℕ → ℕ
  strong_count s a = count a (addresses s.pools) + count a s.held

  -- `pool.clone()`, handed to a caller.
  unfoldable pub clone_arc : ConnectionPoolManager T → ℕ → ConnectionPoolManager T
  clone_arc s a = record s { held = a ∷ s.held }

  -- A caller drops a clone.
  unfoldable pub drop_arc : ConnectionPoolManager T → ℕ → ConnectionPoolManager T
  drop_arc s a = record s { held = release a s.held }

  -- `Arc::new(pool)`, held by the call that made it; its address is the result.
  unfoldable pub new_arc : ConnectionPoolManager T → T → ℕ × ConnectionPoolManager T
  new_arc s pool =
      let a = length s.arcs in (a, record s { arcs = s.arcs ++ pool ∷ []; held = a ∷ s.held })

  -- The first section of `get_or_create`: an existing pool is cloned.
  unfoldable pub find_existing :
      ConnectionPoolManager T → PoolKey → Option ℕ × ConnectionPoolManager T
  unfolding clone_arc
  find_existing s key = elim (lookup key s.pools) [
    | some a ↦ (some a, clone_arc s a)
    | none ↦ (none, s)
  ]

  -- The last section of `get_or_create`, for the `Arc` that the call has made: the pool of another
  -- call that was faster is cloned and the call's own is dropped; else the call's own goes into the
  -- map, as a second clone.
  unfoldable pub settle : ConnectionPoolManager T → PoolKey → ℕ → ℕ × ConnectionPoolManager T
  unfolding clone_arc drop_arc
  settle s key a = elim (lookup key s.pools) [
    | some b ↦ (b, drop_arc (clone_arc s b) a)
    | none ↦ (a, record s { pools = insert key a s.pools })
  ]

  -- `create_fn` has returned: on success the pool becomes an `Arc` and is settled.
  unfoldable pub finish_create :
      {E : Type 0}
      → ConnectionPoolManager T
      → PoolKey
      → Result T E
      → Result ℕ E × ConnectionPoolManager T
  finish_create s key (err e) = (err e, s)
  finish_create s key (ok pool) =
      let (a, s') = new_arc s pool in let (b, s'') = settle s' key a in (ok b, s'')

  -- `get_or_create` with nothing between its sections; `created` is what `create_fn` returns.
  unfoldable pub get_or_create :
      {E : Type 0}
      → ConnectionPoolManager T
      → PoolKey
      → Result T E
      → Result ℕ E × ConnectionPoolManager T
  get_or_create s key created =
      let (found, s') = find_existing s key in
      elim found [ some a ↦ (ok a, s') | none ↦ finish_create s' key created ]

  unfoldable pub remove_pool : ConnectionPoolManager T → PoolKey → ConnectionPoolManager T
  remove_pool s key = record s { pools = remove key s.pools }

  unfoldable pub clear : ConnectionPoolManager T → ConnectionPoolManager T
  clear s = record s { pools = [] }

  -- `pools.retain(|_, pool| Arc::strong_count(pool) > 1)`. The predicate sees the counts of its own
  -- entry, which is in the map while it is asked; entries that it dropped before have other keys
  -- and, since no two entries share an `Arc`, other addresses.
  unfoldable pub cleanup : ConnectionPoolManager T → ConnectionPoolManager T
  unfolding strong_count
  cleanup s = record s { pools = retain (λ k a. ltb 1 (strong_count s a)) s.pools }

  unfoldable pool_count : ConnectionPoolManager T → ℕ
  pool_count s = length s.pools

  unfoldable pub ref_count : ConnectionPoolManager T → PoolKey → ℕ
  unfolding strong_count
  ref_count s key = elim (lookup key s.pools) [ some a ↦ strong_count s a | none ↦ 0 ]

  -- The first section of `health_check`: every entry is copied, and its `Arc` cloned.
  unfoldable pub snapshot : ConnectionPoolManager T → List (PoolKey × ℕ) × ConnectionPoolManager T
  snapshot s = (s.pools, record s { held = addresses s.pools ++ s.held })

  -- The checks between the sections, on the pools behind the copied entries; an address without
  -- a pool does not occur.
  abbrev pub fails : List T → (T → Bool) → ℕ → Bool
  fails arcs check_fn a = elim (get_elem? arcs a) [ some pool ↦ not (check_fn pool) | none ↦ false ]

  unfoldable pub dead_keys : List T → (T → Bool) → List (PoolKey × ℕ) → List PoolKey
  dead_keys arcs check_fn [] = []
  dead_keys arcs check_fn ((k, a) ∷ rest) =
      let dead = dead_keys arcs check_fn rest in if fails arcs check_fn a then k ∷ dead else dead

  -- The copies are consumed by the checks.
  unfoldable pub drop_all : ConnectionPoolManager T → List ℕ → ConnectionPoolManager T
  unfolding drop_arc
  drop_all s [] = s
  drop_all s (a ∷ more) = drop_all (drop_arc s a) more

  -- The last section of `health_check`.
  unfoldable pub remove_dead : ConnectionPoolManager T → List PoolKey → ConnectionPoolManager T
  unfolding remove_pool
  remove_dead s [] = s
  remove_dead s (k ∷ dead) = remove_dead (remove_pool s k) dead

  -- `health_check` with nothing between its sections.
  unfoldable pub health_check : ConnectionPoolManager T → (T → Bool) → ConnectionPoolManager T
  health_check s check_fn =
      let (copies, s') = snapshot s in
      remove_dead (drop_all s' (addresses copies)) (dead_keys s'.arcs check_fn copies)
