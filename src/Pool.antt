-- ===== src/Pool.antt =====
-- pkg/ippool/ippool_client.go, the pools of each Subnet as the agent keeps them: the event handlers
-- of SetupClient and next. The mutex that guards the map makes each of them one step.
pub mod Allocate
pub mod Rotation
pub mod Handlers
pub mod Conservation
pub mod Retries
pub mod Reaching
use virtnet.Prelude.{
  ℕ, zero, suc, ◌+◌, ◌%◌, Bool, true, false, List, [], ◌∷◌, ◌++◌, Option, none, some, if◌then◌else◌,
  leb, Text, text_eq, lookup, insert, length, get_elem?, Outcome, ok, err, panic, other, ◌>>=◌,
}
use virtnet.Api.{IpPool}
use virtnet.Cluster.{owner_of}

-- subnetPools: the pool names, and the index of the one to use next.
pub record SubnetPools : Type 0 where
  pub pools : List Text
  pub index : ℕ

-- The map of IPPoolClient, from a Subnet's name to its pools.
abbrev pub PoolMap : Type 0
PoolMap = List (Text × SubnetPools)

add_to : Option SubnetPools → Text → SubnetPools
add_to none name = record { pools = name ∷ []; index = 0 }
add_to (some s) name = record s { pools = s.pools ++ name ∷ [] }

add_owned : PoolMap → Text → Text → PoolMap
unfolding add_to insert lookup
add_owned m [] name = m
add_owned m (c ∷ owner) name = insert (c ∷ owner) (add_to (lookup (c ∷ owner) m) name) m

-- AddFunc: a pool without an owner label is skipped.
unfoldable pub on_add : PoolMap → IpPool → PoolMap
unfolding add_owned owner_of
on_add m p = add_owned m (owner_of p) p.meta.name

unfoldable pub without : Text → List Text → List Text
without name [] = []
without name (p ∷ ps) = if text_eq p name then without name ps else p ∷ without name ps

unfoldable pub remove_from : SubnetPools → Text → SubnetPools
unfolding without
remove_from s name =
    let rest = without name s.pools in
    record { pools = rest; index = if leb (length rest) s.index then 0 else s.index }

delete_owned : PoolMap → Text → Text → PoolMap
unfolding remove_from insert lookup
delete_owned m [] name = m
delete_owned m (c ∷ owner) name = elim (lookup (c ∷ owner) m) [
  | none ↦ m
  | some s ↦ insert (c ∷ owner) (remove_from s name) m
]

-- DeleteFunc
unfoldable pub on_delete : PoolMap → IpPool → PoolMap
unfolding delete_owned owner_of
on_delete m p = delete_owned m (owner_of p) p.meta.name

-- The body of next for one Subnet: the pool at the index, which then moves on and wraps around.
-- An index out of range panics in Go.
unfoldable pub rotate : SubnetPools → Outcome (Text × SubnetPools)
rotate s =
    let i = if leb (length s.pools) s.index then 0 else s.index in
    elim (get_elem? s.pools i) [
      | none ↦ panic
      | some pool ↦ ok (pool, record s { index = (i + 1) % length s.pools })
    ]

unfoldable pub next_of : Option SubnetPools → Outcome (Text × SubnetPools)
unfolding rotate
next_of none = err other
next_of (some s) = elim s.pools [ [] ↦ err other | _ ∷ _ ↦ rotate s ]

-- next: the error stands for `false`, which the caller turns into an error.
unfoldable pub next : PoolMap → Text → Outcome (Text × PoolMap)
unfolding next_of lookup insert
next m subnet = do (pool, s) ← next_of (lookup subnet m); ok (pool, insert subnet s m)
