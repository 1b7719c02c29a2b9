-- ===== src/Tests/Runs.antt =====
-- The theorems on whole runs of Reconcile and of the agents at a concrete input.
use virtnet.Prelude.{
  Outcome, ◌+◌, ◌≤◌, Option, none, Error, conflict, ◌≡◌, refl, List, [], ◌∷◌, ◌++◌, map, arith,
  some, Text, text_eq, bytes,
}
use virtnet.Ip.{Ip}
use virtnet.Ip.Walk.{addresses_from}
use virtnet.Api.{IpPool}
use virtnet.Cluster.{Cluster, PoolCache, stored_pools, stored_endpoints, owned_by, find_subnet}
use virtnet.Cluster.Owned.{AreNamed, IsView}
use virtnet.Endpoints
use virtnet.Reconciler.{reconcile}
use virtnet.Reconciler.Resized.{created, new_names}
use virtnet.Inventory.{count, all_addresses}
use virtnet.Inventory.Unique.{count-no_doubles}
use virtnet.Pool.{PoolMap}
use virtnet.Pool.Allocate.{Progress, allocate_ip}
use virtnet.Reconciler.Safe.{IsSafe}
use virtnet.System.Runs.{
  Runs, at_rest, then_run, controller_reconciles, agent_allocates, endpoint_goes, Runs-IsSafe,
}
use virtnet.Tests.{dotted, plain, plain-Lawful}
use virtnet.Tests.Pools.{web_1, web_2, pool_with, web_1-Holds, cluster_with, pod}
use virtnet.Tests.Subnets.{web, web_lists}
use virtnet.Tests.Inventories.{ps, ss, ss-IsUnique, listed_once_run}

-- The Subnet asks for two pools and has one.
abbrev c : Cluster
c = record (cluster_with ps []) { subnets = web ∷ []; names = bytes "x7" ∷ [] }

c-IsView : IsView (bytes "web") c ps
unfolding owned_by text_eq
c-IsView = record { quiet = refl; listed = refl; named = (tt, tt) }

web_found : find_subnet (bytes "web") c.subnets ≡ some web
unfolding find_subnet text_eq
web_found = refl

names_differ : AreNamed (ps ++ created web (new_names web ps c))
unfolding created text_eq
names_differ = ((refl, tt), (tt, tt))

-- The server refuses the list behind the creation of the pool.
abbrev refusing : List (Option Error)
refusing = none ∷ none ∷ none ∷ none ∷ some conflict ∷ []

-- The controller is stopped, an agent allocates, and an Endpoint that is not stored goes.
abbrev reconciled : Cluster
reconciled =
    (reconcile stored_pools dotted plain 4 (bytes "web") (record c { answers = refusing })).1

abbrev agent_map : PoolMap
agent_map = (bytes "web", record { pools = bytes "web-1" ∷ []; index = 0 }) ∷ []

abbrev progressed : Outcome (IpPool × Ip) × Progress
progressed =
    allocate_ip dotted plain agent_map (record reconciled { answers = [] }) (bytes "web") pod

abbrev ended : Cluster
ended =
    (Endpoints.reconcile stored_endpoints dotted plain (bytes "shop") (bytes "cart")
      (record (progressed.1.cluster) { answers = [] })).1

runs : Runs stored_pools dotted plain 4 web c ended
runs =
    then_run
      (then_run
        (then_run at_rest (controller_reconciles c refusing (bytes "web") (some 3) web_found))
        (agent_allocates reconciled [] agent_map (bytes "web") pod))
      (endpoint_goes progressed.1.cluster [] stored_endpoints (bytes "shop") (bytes "cart"))

c_room : (x : Text) → count x [] + count x (all_addresses ss) ≤ 1
unfolding count
c_room x = omega (arith, ss-IsUnique x)

c-IsSafe : IsSafe plain web c
c-IsSafe = (
  ps,
  record {
    listed = c-IsView.listed;
    named = names_differ;
    shelves = ss;
    represent = (web_1-Holds, tt);
    room = c_room;
  },
)

Runs-IsSafe_example : IsSafe plain web ended
Runs-IsSafe_example =
    Runs-IsSafe stored_pools dotted plain 4 web (λ _. refl) plain-Lawful
      (addresses_from 0xa000007 3) web_lists
      (count-no_doubles (map dotted.ip_string (addresses_from 0xa000007 3)) listed_once_run) c ended
      runs c-IsSafe

-- The cache misses that the second pool has free addresses.
abbrev behind : PoolCache
behind _ = web_2 ∷ pool_with (bytes "web-1") [] ∷ []

abbrev two_pools : Cluster
two_pools =
    record (cluster_with (web_2 ∷ web_1 ∷ [])
      (none ∷ none ∷ none ∷ none ∷ none ∷ none ∷ some conflict ∷ [])) { subnets = web ∷ [] }

-- The first pool gets the address 10.0.0.8 that the second one has, whose own update is refused.
given_twice :
    map
      (λ (p : IpPool). p.status.unallocated_ips)
      (reconcile behind dotted plain 4 (bytes "web") two_pools).1.pools
    ≡ plain.marshal_unallocated (bytes "10.0.0.8" ∷ []) ∷ web_1.status.unallocated_ips ∷ []
unfolding reconcile dotted plain text_eq
given_twice = refl
