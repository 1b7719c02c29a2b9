-- ===== src/Ipam/Idempotence.antt =====
-- A request for an address that is made again (pkg/ipam/ipam.go, Allocate).
use virtnet.Prelude.{
  ◌≡◌, refl, ap, ◌∙◌, List, [], ◌∷◌, ◌++◌, arith, none, some, Text, text_eq_refl, ok,
}
use virtnet.Ip.{Ip, Net}
use virtnet.Api.{IpPool, IpAllocationDetail, Endpoint, Pod, IpamAnnoSubnet}
use virtnet.Convert.{Json}
use virtnet.Cluster.{
  Cluster, IsUpToDate, or_not_found, answered, find_endpoint, get_endpoint, create_endpoint,
}
use virtnet.Cluster.Laws.{answered-quiet}
use virtnet.Pool.Allocate.{Progress, allocate_ip}
use virtnet.Ipam.Taken.{allocate_new-store_endpoint}
use virtnet.Ipam.{
  Reader, Owners, AllocateRequest, Agent, owner_refs, generate_endpoint, get_subnet_candidates,
  configs_of, detail_of, store_endpoint, allocate_new, allocate,
}

find_endpoint-append :
    (namespace name : Text) (es : List Endpoint) (e : Endpoint)
    → find_endpoint namespace name es ≡ none
    → e.meta.namespace ≡ namespace
    → e.meta.name ≡ name
    → find_endpoint namespace name (es ++ e ∷ []) ≡ some e
unfolding find_endpoint
find_endpoint-append namespace name [] e h n m =
    rw (n, m, text_eq_refl namespace, text_eq_refl name) refl
find_endpoint-append namespace name (f ∷ es) e h n m =
    ground (arith, find_endpoint-append namespace name es e)

create_endpoint-quiet :
    (c : Cluster) (e : Endpoint)
    → c.answers ≡ []
    → find_endpoint e.meta.namespace e.meta.name c.endpoints ≡ none
    → create_endpoint e c ≡ (ok tt, record c { endpoints = c.endpoints ++ e ∷ [] })
unfolding create_endpoint answered
create_endpoint-quiet c e quiet missing = ground arith

module _ (net : Net) (json : Json) (reader : Reader) (request : AllocateRequest) where
  get_endpoint-quiet :
      (namespace name : Text) (c : Cluster)
      → IsUpToDate reader.endpoint_cache
      → c.answers ≡ []
      → get_endpoint reader.endpoint_cache namespace name c
        ≡ (or_not_found (find_endpoint namespace name c.endpoints), c)
  unfolding get_endpoint
  get_endpoint-quiet namespace name c current quiet =
      answered-quiet
        (λ c1. (or_not_found (find_endpoint namespace name (reader.endpoint_cache c1)), c1)) c quiet
      ∙ ap (λ es. (or_not_found (find_endpoint namespace name es), c)) (current c)

  -- A pod that has an Endpoint gets the addresses of that Endpoint, and nothing changes.
  allocate-known :
      (a : Agent) (e : Endpoint)
      → IsUpToDate reader.endpoint_cache
      → a.cluster.answers ≡ []
      → find_endpoint request.pod_namespace request.pod_name a.cluster.endpoints ≡ some e
      → allocate net json reader request a ≡ (ok (configs_of e.current.ips), a)
  unfolding allocate
  allocate-known a e current quiet found =
      rw (get_endpoint-quiet request.pod_namespace request.pod_name a.cluster current quiet, found)
        refl

  allocate-unknown :
      (a : Agent)
      → IsUpToDate reader.endpoint_cache
      → a.cluster.answers ≡ []
      → find_endpoint request.pod_namespace request.pod_name a.cluster.endpoints ≡ none
      → allocate net json reader request a ≡ allocate_new net json reader request a
  unfolding allocate
  allocate-unknown a current quiet missing =
      rw
        (get_endpoint-quiet request.pod_namespace request.pod_name a.cluster current quiet, missing)
        refl

  module _ (a : Agent) (pod : Pod) (subnet : IpamAnnoSubnet) (pool : IpPool) (ip : Ip)
      (p : Progress) (detail : IpAllocationDetail) (owners : Owners)
      (current : IsUpToDate reader.endpoint_cache) (quiet : a.cluster.answers ≡ [])
      (missing : find_endpoint request.pod_namespace request.pod_name a.cluster.endpoints ≡ none)
      (pod_read : reader.get_pod request.pod_namespace request.pod_name ≡ ok pod)
      (in_namespace : pod.meta.namespace ≡ request.pod_namespace)
      (of_name : pod.meta.name ≡ request.pod_name)
      (candidate : get_subnet_candidates net json request.default_subnet pod ≡ ok subnet)
      (taken : allocate_ip net json a.pool_map a.cluster subnet.ipv4_subnet pod
        ≡ (ok (pool, ip), p))
      (still_quiet : p.cluster.answers ≡ [])
      (same_endpoints : p.cluster.endpoints ≡ a.cluster.endpoints)
      (described : detail_of net subnet (pool, ip) ≡ ok detail)
      (owned : owner_refs reader pod ≡ ok owners) where
    stored : Endpoint
    stored = generate_endpoint pod (detail ∷ []) owners

    after : Agent
    after = record {
      pool_map = p.pool_map;
      cluster = record p.cluster { endpoints = p.cluster.endpoints ++ stored ∷ [] };
    }

    missing_after : find_endpoint stored.meta.namespace stored.meta.name p.cluster.endpoints ≡ none
    unfolding stored generate_endpoint
    missing_after = rw (same_endpoints, in_namespace, of_name) missing

    store_endpoint-stores :
        store_endpoint net reader subnet pod
          (ok (pool, ip))
          (record { pool_map = p.pool_map; cluster = p.cluster })
        ≡ (ok (configs_of (detail ∷ [])), after)
    unfolding store_endpoint after stored
    store_endpoint-stores =
        rw
          (
            store_endpoint,
            described,
            owned,
            create_endpoint-quiet p.cluster stored still_quiet missing_after,
          )
          refl

    allocate_new-stores :
        allocate_new net json reader request a ≡ (ok (configs_of (detail ∷ [])), after)
    allocate_new-stores =
        allocate_new-store_endpoint net json reader request a pod subnet pod_read candidate pool ip
          p (ok (configs_of (detail ∷ [])), after) taken store_endpoint-stores

    -- When Allocate takes an address for a pod without an Endpoint, on a server that refuses nothing
    -- before and after, and with a cache that shows the stored Endpoints, its answer is that address
    -- and an Endpoint with it is stored; asked again for the pod, Allocate gives the same answer
    -- from that Endpoint and takes no further address. The reads of the pod, its owners and the
    -- description of the address succeed, and AllocateIP writes no Endpoint.
    pub allocate_again :
        (a' : Agent) × (allocate net json reader request a ≡ (ok (configs_of (detail ∷ [])), a'))
        × (a'.cluster.endpoints
            ≡ a.cluster.endpoints ++ generate_endpoint pod (detail ∷ []) owners ∷ [])
        × (allocate net json reader request a' ≡ (ok (configs_of (detail ∷ [])), a'))
    unfolding after stored generate_endpoint
    allocate_again = (
      after,
      allocate-unknown a current quiet missing ∙ allocate_new-stores,
      ap (λ es. es ++ stored ∷ []) same_endpoints,
      allocate-known after stored current still_quiet (
          find_endpoint-append request.pod_namespace request.pod_name p.cluster.endpoints stored
            (rw same_endpoints missing) in_namespace of_name),
    )
