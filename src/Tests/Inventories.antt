-- ===== src/Tests/Inventories.antt =====
-- The theorems on the rounds of AllocateIP and on sequences of writes at concrete inputs.
use virtnet.Prelude.{
  ◌+◌, ◌<◌, ◌≡◌, refl, inl, inr, List, [], ◌∷◌, ◌++◌, map, arith, none, some, ok, err, timeout,
  bytes, subst, Text, text_eq, lookup, contains, All, true, ◌>>=◌,
}
use virtnet.Ip.{Ip, v4}
use virtnet.Ip.Walk.{addresses_from}
use virtnet.Api.{IpPool}
use virtnet.Convert.{unmarshal_unallocated_ips}
use virtnet.Cluster.{Cluster, find_pool}
use virtnet.Pool.{PoolMap, SubnetPools}
use virtnet.Pool.Rotation.{rotate_times}
use virtnet.Pool.Allocate.{allocate_from, allocate_ip, allocation_of}
use virtnet.Pool.Retries.{IsExhausted}
use virtnet.Pool.Reaching.{HasFree, allocate_ip-reaches, allocate_ip-starved}
use virtnet.Reconciler.Replicate.{new_pool}
use virtnet.Reconciler.Gather.{
  ippools_unallocated_ips, ippools_allocated_ips, remaining_unallocated_ips,
}
use virtnet.Inventory.{Shelf, shelf, count, all_addresses, IsUnique, IsFresh, ◌⟶*◌}
use virtnet.Inventory.Unique.{no_doubles, count-no_doubles}
use virtnet.Inventory.Refines.{AllRepresent, Write, allocates, creates, FreesNone}
use virtnet.Inventory.Writes.{LeadsTo, Write-LeadsTo, Writes, none_more, first, Writes-IsUnique}
use virtnet.Inventory.Once.{PrintsFirst, Keeps, allocate_from-once}
use virtnet.Inventory.Fresh.{remaining-IsFresh}
use virtnet.Tests.{dotted, plain, plain-Lawful}
use virtnet.Tests.Pools.{
  records, pool_with, two_ips, web_1, web_2, web_1-Holds, web_2-Holds, cluster_with, pod,
  eight_is_new,
}
use virtnet.Tests.Subnets.{web, web_lists}

abbrev both : Cluster
both = cluster_with (web_1 ∷ web_2 ∷ []) []

-- The pool without a free address is asked first.
abbrev two_pools : SubnetPools
two_pools = record { pools = bytes "web-1" ∷ bytes "web-2" ∷ []; index = 1 }

abbrev map_of : SubnetPools → PoolMap
map_of s = (bytes "web", s) ∷ []

found : (s : SubnetPools) → lookup (bytes "web") (map_of s) ≡ some s
unfolding lookup text_eq
found s = refl

web_1_stored : find_pool (bytes "web-1") both.pools ≡ some web_1
unfolding find_pool text_eq
web_1_stored = refl

web_2_stored : find_pool (bytes "web-2") both.pools ≡ some web_2
unfolding find_pool text_eq
web_2_stored = refl

web_1-HasFree : HasFree dotted plain plain-Lawful (bytes "web") pod both (bytes "web-1")
web_1-HasFree = (
  web_1,
  records,
  bytes "10.0.0.8",
  bytes "10.0.0.9" ∷ [],
  web_1_stored,
  refl,
  web_1-Holds,
  eight_is_new,
)

web_2-IsExhausted : IsExhausted dotted plain (bytes "web") pod both (bytes "web-2")
web_2-IsExhausted = (web_2, records, web_2_stored, web_2-Holds)

allocate_ip-reaches_example :
    (pool' : IpPool) × (ip : Ip) × ((allocate_ip dotted plain
        (map_of two_pools)
        both
        (bytes "web")
        pod).0
      ≡ ok (pool', ip))
allocate_ip-reaches_example =
    allocate_ip-reaches dotted plain plain-Lawful (bytes "web") pod (map_of two_pools) both
      two_pools refl (found two_pools) (omega arith) (omega arith)
      (inl web_1-HasFree, (inr web_2-IsExhausted, tt)) (inl web_1-HasFree)

abbrev full : Text → IpPool
full name = pool_with name []

-- Five pools are used up, and only the sixth has a free address.
abbrev six_names : List Text
six_names = bytes "a" ∷ bytes "b" ∷ bytes "c" ∷ bytes "d" ∷ bytes "e" ∷ bytes "web-1" ∷ []

abbrev six_pools : SubnetPools
six_pools = record { pools = six_names; index = 0 }

abbrev six : Cluster
six =
    cluster_with
      (full (bytes "a")
        ∷ full (bytes "b")
        ∷ full (bytes "c")
        ∷ full (bytes "d")
        ∷ full (bytes "e")
        ∷ web_1
        ∷ [])
      []

five_calls :
    rotate_times 5 six_pools
    ≡ ok (
      bytes "a" ∷ bytes "b" ∷ bytes "c" ∷ bytes "d" ∷ bytes "e" ∷ [],
      record { pools = six_names; index = 5 },
    )
unfolding rotate_times
five_calls = refl

five_IsExhausted :
    All
      (IsExhausted dotted plain (bytes "web") pod six)
      (bytes "a" ∷ bytes "b" ∷ bytes "c" ∷ bytes "d" ∷ bytes "e" ∷ [])
unfolding find_pool text_eq
five_IsExhausted = (
  (full (bytes "a"), records, refl, web_2-Holds),
  (
    (full (bytes "b"), records, refl, web_2-Holds),
    (
      (full (bytes "c"), records, refl, web_2-Holds),
      (
        (full (bytes "d"), records, refl, web_2-Holds),
        ((full (bytes "e"), records, refl, web_2-Holds), tt),
      ),
    ),
  ),
)

allocate_ip-starved_example :
    let result = allocate_ip dotted plain (map_of six_pools) six (bytes "web") pod in
    (result.0 ≡ err timeout) × (result.1.cluster ≡ six)
allocate_ip-starved_example =
    allocate_ip-starved dotted plain plain-Lawful (bytes "web") pod (map_of six_pools) six six_pools
      (record { pools = six_names; index = 5 })
      (bytes "a" ∷ bytes "b" ∷ bytes "c" ∷ bytes "d" ∷ bytes "e" ∷ []) refl (found six_pools)
      five_calls five_IsExhausted

-- One pool, with its shelf.
abbrev pub ps : List IpPool
ps = web_1 ∷ []

abbrev pub ss : List Shelf
ss = shelf records two_ips ∷ []

ps-AllRepresent : AllRepresent plain ps ss
ps-AllRepresent = (web_1-Holds, tt)

doubles_run : no_doubles (all_addresses ss) ≡ true
unfolding no_doubles all_addresses text_eq
doubles_run = refl

pub ss-IsUnique : IsUnique ss
ss-IsUnique = count-no_doubles (all_addresses ss) doubles_run

abbrev web_1_after : IpPool
web_1_after = record web_1 {
  status = record {
    allocated_ips = plain.marshal_allocated (records ++ (bytes "10.0.0.8", allocation_of pod) ∷ []);
    unallocated_ips = plain.marshal_unallocated (bytes "10.0.0.9" ∷ []);
    allocated_ip_count = some 2;
    unallocated_ip_count = some 1;
    total_ip_count = some 3;
  };
}

allocate_run : allocate_from dotted plain web_1 pod ≡ ok (v4 0xa000008, web_1_after)
unfolding allocate_from dotted plain text_eq
allocate_run = refl

abbrev write : Write dotted plain ps (web_1_after ∷ [])
write = allocates [] [] web_1 web_1_after pod (v4 0xa000008) allocate_run

Write-LeadsTo_example : LeadsTo dotted plain FreesNone (web_1_after ∷ []) ss
Write-LeadsTo_example =
    Write-LeadsTo dotted plain plain-Lawful ps (web_1_after ∷ []) ss write ps-AllRepresent
      ss-IsUnique

Writes-IsUnique_example :
    (ts : List Shelf) × AllRepresent plain (web_1_after ∷ []) ts × (ss ⟶* ts) × IsUnique ts
Writes-IsUnique_example =
    Writes-IsUnique dotted plain plain-Lawful ps (web_1_after ∷ []) ss (first write none_more)
      ps-AllRepresent ss-IsUnique

-- Then the controller creates another pool, and the next address is taken from the first one.
abbrev others :
    Writes dotted plain plain-Lawful (web_1_after ∷ []) (web_1_after ∷ new_pool web ∷ [])
others = first (creates (web_1_after ∷ []) web) none_more

others-Keeps : Keeps dotted plain plain-Lawful (dotted.ip_string (v4 0xa000008)) others
unfolding count
others-Keeps = (λ ks e. rw e refl, tt)

abbrev web_1_last : IpPool
web_1_last = record web_1 {
  status = record {
    allocated_ips = plain.marshal_allocated (
        records
        ++ (bytes "10.0.0.8", allocation_of pod) ∷ (bytes "10.0.0.9", allocation_of pod) ∷ []);
    unallocated_ips = none;
    allocated_ip_count = some 3;
    unallocated_ip_count = some 0;
    total_ip_count = some 3;
  };
}

allocate_run_again : allocate_from dotted plain web_1_after pod ≡ ok (v4 0xa000009, web_1_last)
unfolding allocate_from dotted plain text_eq
allocate_run_again = refl

first_reads :
    (p : IpPool) (y : Text) (ys : List Text)
    → unmarshal_unallocated_ips plain p.status.unallocated_ips ≡ ok (y ∷ ys)
    → dotted.ip_string (dotted.parse_ip y) ≡ y
    → PrintsFirst dotted plain p
first_reads p y ys reads printed used x rest r =
    let same : y ≡ x = let h = r.reads_unallocated in cc in
    subst (λ (t : Text). dotted.ip_string (dotted.parse_ip t) ≡ t) same printed

web_1-PrintsFirst : PrintsFirst dotted plain web_1
unfolding dotted plain text_eq unmarshal_unallocated_ips
web_1-PrintsFirst = first_reads web_1 (bytes "10.0.0.8") (bytes "10.0.0.9" ∷ []) refl refl

web_1_after-PrintsFirst : PrintsFirst dotted plain web_1_after
unfolding dotted plain text_eq unmarshal_unallocated_ips
web_1_after-PrintsFirst = first_reads web_1_after (bytes "10.0.0.9") [] refl refl

allocate_from-once_example : ¬ (v4 0xa000009 ≡ v4 0xa000008)
allocate_from-once_example =
    allocate_from-once dotted plain plain-Lawful [] [] [] (new_pool web ∷ []) web_1 web_1_after
      web_1_after web_1_last pod pod (v4 0xa000008) (v4 0xa000009) ss ps-AllRepresent ss-IsUnique
      web_1-PrintsFirst web_1_after-PrintsFirst allocate_run others others-Keeps allocate_run_again

pub listed_once_run : no_doubles (map dotted.ip_string (addresses_from 0xa000007 3)) ≡ true
unfolding no_doubles dotted addresses_from text_eq
listed_once_run = refl

remaining-IsFresh_example :
    (remaining : List Text) × ((do
      unallocation ← ippools_unallocated_ips plain ps
      allocations ← ippools_allocated_ips plain ps
      remaining_unallocated_ips dotted 4 web unallocation allocations)
      ≡ ok remaining)
    × IsFresh remaining ss
    × ((x : Text)
        → contains x (map dotted.ip_string (addresses_from 0xa000007 3)) ≡ true
        → 0 < count x remaining + count x (all_addresses ss))
remaining-IsFresh_example =
    remaining-IsFresh dotted plain 4 web ps ss (addresses_from 0xa000007 3) (tt, tt) ps-AllRepresent
      ss-IsUnique web_lists
      (count-no_doubles (map dotted.ip_string (addresses_from 0xa000007 3)) listed_once_run)
