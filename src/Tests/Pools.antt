-- ===== src/Tests/Pools.antt =====
-- The theorems on the pools, their rotation and AllocateIP at concrete inputs.
use virtnet.Prelude.{
  ◌+◌, ◌≡◌, refl, inl, false, List, [], ◌∷◌, ◌++◌, arith, Option, none, some, ok, err, panic, Error,
  conflict, timeout, bytes, Text, lookup, length, text_eq,
}
use virtnet.Api.{ObjectMeta, IpPool, Pod, PoolIpAllocation, owner_label}
use virtnet.Convert.{unmarshal_allocated_ips, unmarshal_unallocated_ips}
use virtnet.Cluster.{Cluster, find_pool, set_status}
use virtnet.Pool.{PoolMap, SubnetPools, next, on_add, on_delete}
use virtnet.Pool.Allocate.{allocate_from, allocate_ip, allocation_of}
use virtnet.Pool.Rotation.{rotate_times, rotate_times_round}
use virtnet.Pool.Handlers.{AllInRange, handlers-AllInRange}
use virtnet.Pool.Conservation.{Holds, Counts, allocate_from-Holds}
use virtnet.Pool.Retries.{allocate_ip_exhausted, allocate_ip_success, allocate_ip_conflict}
use virtnet.Tests.{dotted, plain, plain-Lawful}

abbrev pub named : Text → ObjectMeta
named name = record {
  name = name;
  namespace = bytes "shop";
  uid = bytes "u1";
  labels = (owner_label, bytes "web") ∷ [];
  annotations = [];
  finalizers = [];
  owner_references = [];
  is_deleted = false;
}

-- 10.0.0.7 is allocated to another pod.
abbrev pub records : List (Text × PoolIpAllocation)
records =
    (bytes "10.0.0.7", record { namespaced_name = bytes "shop/old"; pod_uid = bytes "u0" }) ∷ []

abbrev pub pool_with : Text → List Text → IpPool
pool_with name ips = record {
  meta = named name;
  spec = record { subnet = bytes "10.0.0.0/24"; gateway = none; ips = []; exclude_ips = [] };
  status = record {
    allocated_ips = plain.marshal_allocated records;
    unallocated_ips = plain.marshal_unallocated ips;
    allocated_ip_count = some 1;
    unallocated_ip_count = some (length ips);
    total_ip_count = some (length ips + 1);
  };
}

abbrev pub two_ips : List Text
two_ips = bytes "10.0.0.8" ∷ bytes "10.0.0.9" ∷ []

abbrev pub web_1 : IpPool
web_1 = pool_with (bytes "web-1") two_ips

abbrev pub web_2 : IpPool
web_2 = pool_with (bytes "web-2") []

abbrev pub pod : Pod
pod = record {
  type_meta = record { api_version = bytes "v1"; kind = bytes "Pod" };
  meta = named (bytes "cart");
  node_name = bytes "n1";
}

abbrev pub cluster_with : List IpPool → List (Option Error) → Cluster
cluster_with ps answers = record {
  pools = ps;
  subnets = [];
  endpoints = [];
  answers = answers;
  names = [];
}

pub web_1-Holds : Holds plain web_1.status records two_ips
unfolding plain unmarshal_allocated_ips unmarshal_unallocated_ips
web_1-Holds = record { reads_allocated = refl; reads_unallocated = refl }

pub web_2-Holds : Holds plain web_2.status records []
unfolding plain unmarshal_allocated_ips unmarshal_unallocated_ips
web_2-Holds = record { reads_allocated = refl; reads_unallocated = refl }

abbrev pools_of_web : List Text → SubnetPools
pools_of_web names = record { pools = names; index = 0 }

abbrev map_of : List Text → PoolMap
map_of names = (bytes "web", pools_of_web names) ∷ []

pub eight_is_new : lookup (bytes "10.0.0.8") records ≡ none
unfolding lookup text_eq
eight_is_new = refl

abbrev three : SubnetPools
three = record { pools = bytes "a" ∷ bytes "b" ∷ bytes "c" ∷ []; index = 1 }

rotate_times_round_example :
    rotate_times 3 three ≡ ok (bytes "b" ∷ bytes "c" ∷ bytes "a" ∷ [], three)
rotate_times_round_example = rotate_times_round three (omega arith)

handlers-AllInRange_example :
    AllInRange (on_add (map_of (bytes "web-1" ∷ [])) web_2)
    × AllInRange (on_delete (map_of (bytes "web-1" ∷ [])) web_2)
handlers-AllInRange_example =
    handlers-AllInRange (map_of (bytes "web-1" ∷ [])) web_2 (inl (omega arith), tt)

web_found :
    lookup (bytes "web") (map_of (bytes "web-1" ∷ [])) ≡ some (pools_of_web (bytes "web-1" ∷ []))
unfolding lookup text_eq
web_found = refl

web_2_found :
    lookup (bytes "web") (map_of (bytes "web-2" ∷ [])) ≡ some (pools_of_web (bytes "web-2" ∷ []))
unfolding lookup text_eq
web_2_found = refl

allocate_from-Holds_example :
    (pool' : IpPool) × (allocate_from dotted plain web_1 pod
      ≡ ok (dotted.parse_ip (bytes "10.0.0.8"), pool'))
    × Holds plain pool'.status
        (records ++ (bytes "10.0.0.8", allocation_of pod) ∷ [])
        (bytes "10.0.0.9" ∷ [])
    × Counts pool'.status 2 1
    × (pool'.meta ≡ web_1.meta)
    × (pool'.spec ≡ web_1.spec)
allocate_from-Holds_example =
    allocate_from-Holds dotted plain plain-Lawful web_1 pod records (bytes "10.0.0.8")
      (bytes "10.0.0.9" ∷ []) web_1-Holds eight_is_new

found_web_1 :
    (answers : List (Option Error))
    → find_pool (bytes "web-1") (cluster_with (web_1 ∷ []) answers).pools ≡ some web_1
unfolding find_pool text_eq
found_web_1 answers = refl

found_web_2 : find_pool (bytes "web-2") (cluster_with (web_2 ∷ []) []).pools ≡ some web_2
unfolding find_pool text_eq
found_web_2 = refl

allocate_ip_exhausted_example :
    let result =
      allocate_ip dotted plain
        (map_of (bytes "web-2" ∷ []))
        (cluster_with (web_2 ∷ []) [])
        (bytes "web")
        pod in
    (result.0 ≡ err timeout) × (result.1.cluster ≡ cluster_with (web_2 ∷ []) [])
allocate_ip_exhausted_example =
    allocate_ip_exhausted dotted plain (bytes "web") pod (map_of (bytes "web-2" ∷ []))
      (cluster_with (web_2 ∷ []) []) (pools_of_web (bytes "web-2" ∷ [])) refl web_2_found
      (omega arith) ((web_2, records, found_web_2, web_2-Holds), tt)

chosen_web_1 :
    next (map_of (bytes "web-1" ∷ [])) (bytes "web")
    ≡ ok (bytes "web-1", map_of (bytes "web-1" ∷ []))
unfolding next text_eq
chosen_web_1 = refl

allocate_ip_success_example :
    let c = cluster_with (web_1 ∷ []) [] in
    let result = allocate_ip dotted plain (map_of (bytes "web-1" ∷ [])) c (bytes "web") pod in
    (pool' : IpPool) × (result.0 ≡ ok (pool', dotted.parse_ip (bytes "10.0.0.8")))
    × (result.1.cluster.pools ≡ set_status (bytes "web-1") pool'.status c.pools)
    × Holds plain pool'.status
        (records ++ (bytes "10.0.0.8", allocation_of pod) ∷ [])
        (bytes "10.0.0.9" ∷ [])
allocate_ip_success_example =
    allocate_ip_success dotted plain plain-Lawful (bytes "web") pod (map_of (bytes "web-1" ∷ []))
      (map_of (bytes "web-1" ∷ [])) (cluster_with (web_1 ∷ []) []) (bytes "web-1") web_1 records
      (bytes "10.0.0.8") (bytes "10.0.0.9" ∷ []) chosen_web_1 (found_web_1 []) refl web_1-Holds
      eight_is_new refl

allocate_ip_conflict_example :
    (allocate_ip dotted plain
      (map_of (bytes "web-1" ∷ []))
      (cluster_with (web_1 ∷ []) (none ∷ some conflict ∷ []))
      (bytes "web")
      pod).0
    ≡ panic
allocate_ip_conflict_example =
    allocate_ip_conflict dotted plain plain-Lawful (bytes "web") pod (map_of (bytes "web-1" ∷ []))
      (map_of (bytes "web-1" ∷ [])) (cluster_with (web_1 ∷ []) (none ∷ some conflict ∷ []))
      (bytes "web-1") web_1 records (bytes "10.0.0.8") (bytes "10.0.0.9" ∷ []) chosen_web_1
      (found_web_1 (none ∷ some conflict ∷ [])) refl web_1-Holds eight_is_new [] refl
