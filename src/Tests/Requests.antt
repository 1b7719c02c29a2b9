-- ===== src/Tests/Requests.antt =====
-- The theorems on the agent's requests and on the admission of a Subnet at concrete inputs.
use virtnet.Prelude.{
  ◌≡◌, refl, ◌⊎◌, ◌↔◌, List, [], ◌∷◌, ◌++◌, map, Option, none, some, ok, err, other, bytes, Text,
  contains, text_eq, true, false,
}
use virtnet.Ip.{v4, ipv4}
use virtnet.Ip.Cidr.{is_cidr}
use virtnet.Ip.Walk.{addresses_from}
use virtnet.Ip.Sets.{assemble_total_ips}
use virtnet.Api.{IpPool, Subnet, Endpoint, OwnerReference, IpAllocationDetail, IpamAnnoSubnet}
use virtnet.Cluster.{Cluster, stored_endpoints, owned_by, find_endpoint}
use virtnet.Pool.{PoolMap}
use virtnet.Pool.Allocate.{Progress, allocate_ip, allocation_of}
use virtnet.Webhook.{FieldError, internal_error, subnet_field}
use virtnet.Webhook.Validate.{validate_subnet_cidr, allocated_keys, validate_subnet_ip_in_use}
use virtnet.Webhook.Overlap.{AllApart, validate_no_overlap-AllApart}
use virtnet.Webhook.Validate.{validate_no_overlap}
use virtnet.Webhook.Laws.{validate_subnet_cidr-stored, validate_subnet_ip_in_use-all}
use virtnet.Ipam.{
  Reader, AllocateRequest, Agent, default_owner_ref, get_subnet_candidates, owner_refs, detail_of,
  configs_of, generate_endpoint, allocate,
}
use virtnet.Ipam.{allocate_new}
use virtnet.Prelude.{timeout}
use virtnet.Ipam.Idempotence.{allocate_again}
use virtnet.Ipam.Behind.{allocate-unseen}
use virtnet.Ipam.Leaks.{allocate_new-refused}
use virtnet.Tests.{dotted, plain}
use virtnet.Tests.Pools.{named, records, web_1, pod, cluster_with}
use virtnet.Tests.Subnets.{web}

abbrev pub reader : Reader
reader = record {
  get_pod = λ namespace name. ok pod;
  get_replica_set = λ namespace name. err other;
  get_vmi = λ namespace name. err other;
  endpoint_cache = stored_endpoints;
}

abbrev request : AllocateRequest
request = record {
  default_subnet = bytes "web";
  pod_namespace = bytes "shop";
  pod_name = bytes "cart";
}

abbrev pub candidate : IpamAnnoSubnet
candidate = record { nic = bytes "eth0"; ipv4_subnet = bytes "web"; address = [] }

abbrev pool_map : PoolMap
pool_map = (bytes "web", record { pools = bytes "web-1" ∷ []; index = 0 }) ∷ []

abbrev pub agent : Agent
agent = record { pool_map = pool_map; cluster = cluster_with (web_1 ∷ []) [] }

abbrev pub web_1_after : IpPool
web_1_after = record web_1 {
  status = record {
    allocated_ips = plain.marshal_allocated (records ++ (bytes "10.0.0.8", allocation_of pod) ∷ []);
    unallocated_ips = plain.marshal_unallocated (bytes "10.0.0.9" ∷ []);
    allocated_ip_count = some 2;
    unallocated_ip_count = some 1;
    total_ip_count = some 3;
  };
}

abbrev progress : Progress
progress = record {
  pool_map = pool_map;
  no_unallocated = false;
  cluster = cluster_with (web_1_after ∷ []) [];
}

abbrev pub own : OwnerReference
own = default_owner_ref pod.type_meta pod.meta

abbrev pub detail : IpAllocationDetail
detail = record {
  nic = bytes "eth0";
  ipv4 = some (bytes "10.0.0.8/24");
  ipv4_pool = some (bytes "web-1");
  ipv4_gateway = none;
}

missing_run : find_endpoint (bytes "shop") (bytes "cart") agent.cluster.endpoints ≡ none
unfolding find_endpoint
missing_run = refl

candidate_run : get_subnet_candidates dotted plain (bytes "web") pod ≡ ok candidate
unfolding get_subnet_candidates
candidate_run = refl

allocate_ip_run :
    allocate_ip dotted plain pool_map agent.cluster (bytes "web") pod
    ≡ (ok (web_1_after, v4 0xa000008), progress)
unfolding allocate_ip dotted plain text_eq
allocate_ip_run = refl

detail_of_run : detail_of dotted candidate (web_1_after, v4 0xa000008) ≡ ok detail
unfolding detail_of dotted
detail_of_run = refl

owner_refs_run : owner_refs reader pod ≡ ok (own, own, own)
unfolding owner_refs
owner_refs_run = refl

allocate_again_example :
    (a' : Agent) × (allocate dotted plain reader request agent
      ≡ (ok (configs_of (detail ∷ [])), a'))
    × (a'.cluster.endpoints
        ≡ agent.cluster.endpoints ++ generate_endpoint pod (detail ∷ []) (own, own, own) ∷ [])
    × (allocate dotted plain reader request a' ≡ (ok (configs_of (detail ∷ [])), a'))
allocate_again_example =
    allocate_again dotted plain reader request agent pod candidate web_1_after (v4 0xa000008)
      progress detail (own, own, own) (λ _. refl) refl missing_run refl refl refl candidate_run
      allocate_ip_run refl refl detail_of_run owner_refs_run

-- The pod has an Endpoint that the cache does not show.
abbrev unseen_reader : Reader
unseen_reader = record reader { endpoint_cache = λ _. [] }

abbrev old : Endpoint
old = generate_endpoint pod [] (own, own, own)

abbrev behind : Agent
behind = record agent { cluster = record agent.cluster { endpoints = old ∷ [] } }

abbrev behind_progress : Progress
behind_progress = record progress { cluster = record progress.cluster { endpoints = old ∷ [] } }

unseen_run : find_endpoint (bytes "shop") (bytes "cart") [] ≡ none
unfolding find_endpoint
unseen_run = refl

old_run : find_endpoint (bytes "shop") (bytes "cart") behind.cluster.endpoints ≡ some old
unfolding find_endpoint generate_endpoint text_eq
old_run = refl

behind_run :
    allocate_ip dotted plain pool_map behind.cluster (bytes "web") pod
    ≡ (ok (web_1_after, v4 0xa000008), behind_progress)
unfolding allocate_ip dotted plain text_eq
behind_run = refl

unseen_owners_run : owner_refs unseen_reader pod ≡ ok (own, own, own)
unfolding owner_refs
unseen_owners_run = refl

allocate-unseen_example :
    (a' : Agent) × (allocate dotted plain unseen_reader request behind ≡ (err other, a'))
    × (a'.cluster.pools ≡ web_1_after ∷ [])
    × (a'.cluster.endpoints ≡ old ∷ [])
allocate-unseen_example =
    allocate-unseen dotted plain unseen_reader request behind pod candidate web_1_after
      (v4 0xa000008) behind_progress detail (own, own, own) old refl unseen_run old_run refl refl
      refl candidate_run behind_run refl refl detail_of_run unseen_owners_run

-- The server has one other Subnet.
abbrev stored : Cluster
stored = record (cluster_with (web_1 ∷ []) []) { subnets = web ∷ [] }

valid_run : is_cidr dotted ipv4 web.spec.subnet ≡ ok tt
unfolding is_cidr dotted
valid_run = refl

validate_subnet_cidr-stored_example :
    (validate_subnet_cidr dotted web stored ≡ (ok none, stored)) × (stored.subnets ≡ [])
    ⊎ ((other_subnet : Subnet) × (rest : List Subnet) × (stored.subnets ≡ other_subnet ∷ rest)
        × (validate_subnet_cidr dotted web stored
            ≡ (ok (some (internal_error subnet_field)), stored)))
validate_subnet_cidr-stored_example = validate_subnet_cidr-stored dotted web stored refl valid_run

allocated_run :
    allocated_keys plain (owned_by web.meta.name stored.pools) ≡ ok (bytes "10.0.0.7" ∷ [])
unfolding allocated_keys owned_by plain text_eq
allocated_run = refl

listed_run :
    assemble_total_ips dotted 4 ipv4 web.spec.ips web.spec.exclude_ips
    ≡ ok (addresses_from 0xa000007 2)
unfolding assemble_total_ips dotted addresses_from text_eq
listed_run = refl

validate_subnet_ip_in_use-all_example :
    (answer : Option FieldError) × (validate_subnet_ip_in_use dotted plain 4 web stored
      ≡ (ok answer, stored))
    × ((answer ≡ none) ↔ (
        (ip : Text)
        → contains ip (bytes "10.0.0.7" ∷ []) ≡ true
        → contains ip (map dotted.ip_string (addresses_from 0xa000007 2)) ≡ true))
validate_subnet_ip_in_use-all_example =
    validate_subnet_ip_in_use-all dotted plain 4 web stored (bytes "10.0.0.7" ∷ [])
      (addresses_from 0xa000007 2) refl allocated_run listed_run

-- A Subnet of another name with the address 10.0.0.9 alone.
abbrev other_web : Subnet
other_web = record web {
  meta = named (bytes "other");
  spec = record web.spec { ips = bytes "10.0.0.9" ∷ []; exclude_ips = [] };
}

other_run :
    assemble_total_ips dotted 4 ipv4 other_web.spec.ips other_web.spec.exclude_ips
    ≡ ok (v4 0xa000009 ∷ [])
unfolding assemble_total_ips dotted text_eq
other_run = refl

validate_no_overlap-AllApart_example :
    (answer : Option FieldError) × (validate_no_overlap dotted 4
        (bytes "web")
        (addresses_from 0xa000007 2)
        (web ∷ other_web ∷ [])
        stored
      ≡ (ok answer, stored))
    × ((answer ≡ none)
        ↔ AllApart dotted 4
            (bytes "web")
            (addresses_from 0xa000007 2)
            (web ∷ other_web ∷ [])
            (addresses_from 0xa000007 2 ∷ (v4 0xa000009 ∷ []) ∷ []))
validate_no_overlap-AllApart_example =
    validate_no_overlap-AllApart dotted 4 (bytes "web") (addresses_from 0xa000007 2)
      (web ∷ other_web ∷ []) (addresses_from 0xa000007 2 ∷ (v4 0xa000009 ∷ []) ∷ []) stored
      (listed_run, (other_run, tt))

-- The server lets the look-up and the update of the pool pass, and refuses what follows.
abbrev refusing : Agent
refusing = record {
  pool_map = pool_map;
  cluster = cluster_with (web_1 ∷ []) (none ∷ none ∷ some timeout ∷ []);
}

abbrev refused_progress : Progress
refused_progress = record progress { cluster = cluster_with (web_1_after ∷ []) (some timeout ∷ []) }

refused_run :
    allocate_ip dotted plain pool_map refusing.cluster (bytes "web") pod
    ≡ (ok (web_1_after, v4 0xa000008), refused_progress)
unfolding allocate_ip dotted plain text_eq
refused_run = refl

allocate_new-refused_example :
    (a' : Agent) × (allocate_new dotted plain reader request refusing ≡ (err other, a'))
    × (a'.cluster.pools ≡ web_1_after ∷ [])
    × (a'.cluster.endpoints ≡ [])
allocate_new-refused_example =
    allocate_new-refused dotted plain reader request refusing pod candidate web_1_after
      (v4 0xa000008) refused_progress detail (own, own, own) timeout [] refl candidate_run
      refused_run detail_of_run owner_refs_run refl
