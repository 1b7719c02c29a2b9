-- ===== src/Cluster.antt =====
-- The API server as the code sees it through controller-runtime's client: the stored resources, and
-- one answer for each call, by which the server may refuse it. Every call returns the new state
-- beside its outcome, so that what was written before a failure stays written.
pub mod Laws
pub mod Owned
pub mod Triples
pub mod Refusals
use virtnet.Prelude.{
  ℕ, ◌≡◌, Bool, true, false, ◌&&◌, List, [], ◌∷◌, ◌++◌, Option, none, some, if◌then◌else◌, Text,
  text_eq, lookup, Error, not_found, other, Outcome, ok, err, panic, out_of_fuel,
}
use virtnet.Api.{IpPool, IpPoolStatus, Subnet, Endpoint, owner_label}

pub record Cluster : Type 0 where
  pub pools : List IpPool
  pub subnets : List Subnet
  pub endpoints : List Endpoint
  -- An error with which the server refuses the call, for each call to come; `none` lets it through.
  pub answers : List (Option Error)
  -- The names that the server will give to objects created by `GenerateName`.
  pub names : List Text

abbrev pub Call {ℓ} : Type ℓ → Type ℓ
Call A = Cluster → Outcome A × Cluster

-- Goes on with the value of a call, or stops with its failure.
abbrev pub and_then {ℓ κ} :
    {A : Type ℓ} {B : Type κ} → Outcome A × Cluster → (A → Call B) → Outcome B × Cluster
and_then (ok a, c) f = f a c
and_then (err e, c) f = (err e, c)
and_then (panic, c) f = (panic, c)
and_then (out_of_fuel, c) f = (out_of_fuel, c)

infixl 5 ◌>>=◌ ◌>>◌
abbrev pub ◌>>=◌ {ℓ κ} : {A : Type ℓ} {B : Type κ} → Call A → (A → Call B) → Call B
◌>>=◌ m f c = and_then (m c) f

abbrev pub ◌>>◌ {ℓ} : {B : Type ℓ} → Call (Unit {0}) → Call B → Call B
m >> k = m >>= λ _. k

-- A computation without calls.
abbrev pub pure {ℓ} : {A : Type ℓ} → Outcome A → Call A
pure r c = (r, c)

-- Takes the server's next answer, and runs the call if it lets it through.
unfoldable pub answered {ℓ} : {A : Type ℓ} → Call A → Call A
answered f c = elim c.answers [
  | [] ↦ f c
  | none ∷ rest ↦ f (record c { answers = rest })
  | some e ∷ rest ↦ (err e, record c { answers = rest })
]

unfoldable pub find_pool : Text → List IpPool → Option IpPool
find_pool name [] = none
find_pool name (p ∷ ps) = if text_eq p.meta.name name then some p else find_pool name ps

-- Writes the status of the pool of that name.
unfoldable pub set_status : Text → IpPoolStatus → List IpPool → List IpPool
set_status name status [] = []
set_status name status (p ∷ ps) =
    if text_eq p.meta.name name
    then record p { status = status } ∷ set_status name status ps
    else p ∷ set_status name status ps

abbrev pub or_not_found {ℓ} : {A : Type ℓ} → Option A → Outcome A
or_not_found none = err not_found
or_not_found (some a) = ok a

-- Client.Get and Cache.Get of an IPPool. The server refuses the update of a pool that has changed
-- since it was read, so a read before an update that is let through has given the stored pool.
unfoldable pub get_pool : Text → Call IpPool
unfolding answered find_pool
get_pool name = answered (λ c. (or_not_found (find_pool name c.pools), c))

-- Client.Status().Update of an IPPool
unfoldable pub update_pool_status : IpPool → Call (Unit {0})
unfolding answered find_pool set_status
update_pool_status p = answered (λ c. elim (find_pool p.meta.name c.pools) [
  | none ↦ (err not_found, c)
  | some _ ↦ (ok tt, record c { pools = set_status p.meta.name p.status c.pools })
])

-- The value of the owner label; the empty string if there is none.
unfoldable pub owner_of : IpPool → Text
unfolding lookup
owner_of p = elim (lookup owner_label p.meta.labels) [ none ↦ [] | some owner ↦ owner ]

unfoldable pub owned_by : Text → List IpPool → List IpPool
unfolding owner_of
owned_by owner [] = []
owned_by owner (p ∷ ps) =
    if text_eq (owner_of p) owner then p ∷ owned_by owner ps else owned_by owner ps

-- What the cache of controller-runtime's client shows of the stored pools, which it may lag behind.
abbrev pub PoolCache : Type 0
PoolCache = Cluster → List IpPool

-- The cache shows every write that was made.
abbrev pub IsCurrent : PoolCache → Type 0
IsCurrent cache = (c : Cluster) → cache c ≡ c.pools

-- The cache that shows the pools as they are.
abbrev pub stored_pools : PoolCache
stored_pools c = c.pools

-- Client.List of the IPPools with an owner label, which the cache answers
unfoldable pub list_pools : PoolCache → Text → Call (List IpPool)
unfolding answered owned_by
list_pools cache owner = answered (λ c. (ok (owned_by owner (cache c)), c))

unfoldable pub find_subnet : Text → List Subnet → Option Subnet
find_subnet name [] = none
find_subnet name (s ∷ ss) = if text_eq s.meta.name name then some s else find_subnet name ss

unfoldable pub set_total : Text → Option ℕ → List Subnet → List Subnet
set_total name total [] = []
set_total name total (s ∷ ss) =
    if text_eq s.meta.name name
    then record s { total_ip_count = total } ∷ set_total name total ss
    else s ∷ set_total name total ss

-- Client.Get of a Subnet
unfoldable pub get_subnet : Text → Call Subnet
unfolding answered find_subnet
get_subnet name = answered (λ c. (or_not_found (find_subnet name c.subnets), c))

-- Client.Status().Update of a Subnet
unfoldable pub update_subnet_status : Subnet → Call (Unit {0})
unfolding answered find_subnet set_total
update_subnet_status s = answered (λ c. elim (find_subnet s.meta.name c.subnets) [
  | none ↦ (err not_found, c)
  | some _ ↦ (ok tt, record c { subnets = set_total s.meta.name s.total_ip_count c.subnets })
])

-- Client.Create of an IPPool with `GenerateName`: the server appends a suffix of its own.
unfoldable pub create_pool : IpPool → Call (Unit {0})
unfolding answered
create_pool p = answered (λ c. elim c.names [
  | [] ↦ (err other, c)
  | suffix ∷ names ↦ (
    ok tt,
    record c {
      pools = c.pools ++ record p { meta = record p.meta { name = p.meta.name ++ suffix } } ∷ [];
      names = names;
    },
  )
])

unfoldable pub remove_pool : Text → List IpPool → List IpPool
remove_pool name [] = []
remove_pool name (p ∷ ps) =
    if text_eq p.meta.name name then remove_pool name ps else p ∷ remove_pool name ps

-- Client.Delete of an IPPool
unfoldable pub delete_pool : IpPool → Call (Unit {0})
unfolding answered find_pool remove_pool
delete_pool p = answered (λ c. elim (find_pool p.meta.name c.pools) [
  | none ↦ (err not_found, c)
  | some _ ↦ (ok tt, record c { pools = remove_pool p.meta.name c.pools })
])

unfoldable pub find_endpoint : Text → Text → List Endpoint → Option Endpoint
find_endpoint namespace name [] = none
find_endpoint namespace name (e ∷ es) =
    if text_eq e.meta.namespace namespace && text_eq e.meta.name name
    then some e
    else find_endpoint namespace name es

unfoldable pub replace_endpoint : Endpoint → List Endpoint → List Endpoint
replace_endpoint e [] = []
replace_endpoint e (f ∷ es) =
    if text_eq f.meta.namespace e.meta.namespace && text_eq f.meta.name e.meta.name
    then e ∷ replace_endpoint e es
    else f ∷ replace_endpoint e es

-- What a cache shows of the stored Endpoints, which it may lag behind.
abbrev pub EndpointCache : Type 0
EndpointCache = Cluster → List Endpoint

-- The cache shows every write that was made.
abbrev pub IsUpToDate : EndpointCache → Type 0
IsUpToDate cache = (c : Cluster) → cache c ≡ c.endpoints

abbrev pub stored_endpoints : EndpointCache
stored_endpoints c = c.endpoints

-- Client.Get and Cache.Get of an Endpoint, which the cache answers
unfoldable pub get_endpoint : EndpointCache → Text → Text → Call Endpoint
unfolding answered find_endpoint
get_endpoint cache namespace name =
    answered (λ c. (or_not_found (find_endpoint namespace name (cache c)), c))

-- Client.Update of an Endpoint
unfoldable pub update_endpoint : Endpoint → Call (Unit {0})
unfolding answered find_endpoint replace_endpoint
update_endpoint e = answered (λ c. elim (find_endpoint e.meta.namespace e.meta.name c.endpoints) [
  | none ↦ (err not_found, c)
  | some _ ↦ (ok tt, record c { endpoints = replace_endpoint e c.endpoints })
])

-- Client.Create of an Endpoint; a name that is taken is an error.
unfoldable pub create_endpoint : Endpoint → Call (Unit {0})
unfolding answered find_endpoint
create_endpoint e = answered (λ c. elim (find_endpoint e.meta.namespace e.meta.name c.endpoints) [
  | none ↦ (ok tt, record c { endpoints = c.endpoints ++ e ∷ [] })
  | some _ ↦ (err other, c)
])

-- Client.List of all Subnets
unfoldable pub list_subnets : Call (List Subnet)
unfolding answered
list_subnets = answered (λ c. (ok c.subnets, c))
