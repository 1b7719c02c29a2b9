-- ===== src/Ipam/Behind.antt =====
-- A request for an address that is made again before the cache shows the Endpoint of the pod
-- (Allocate of pkg/ipam/ipam.go, GetEndpointFromCache of pkg/endpoint/endpoint_client.go).
use virtnet.Prelude.{◌≡◌, refl, ap, ◌∙◌, [], ◌∷◌, arith, none, some, other, ok, err}
use virtnet.Ip.{Ip, Net}
use virtnet.Api.{IpPool, IpAllocationDetail, Endpoint, Pod, IpamAnnoSubnet}
use virtnet.Convert.{Json}
use virtnet.Cluster.{Cluster, answered, or_not_found, find_endpoint, get_endpoint, create_endpoint}
use virtnet.Cluster.Laws.{answered-quiet}
use virtnet.Pool.Allocate.{Progress, allocate_ip}
use virtnet.Ipam.Taken.{allocate_new-store_endpoint}
use virtnet.Ipam.{
  Reader, Owners, AllocateRequest, Agent, owner_refs, generate_endpoint, get_subnet_candidates,
  detail_of, store_endpoint, allocate_new, allocate,
}

create_endpoint-taken :
    (c : Cluster) (e old : Endpoint)
    → c.answers ≡ []
    → find_endpoint e.meta.namespace e.meta.name c.endpoints ≡ some old
    → create_endpoint e c ≡ (err other, c)
unfolding create_endpoint answered
create_endpoint-taken c e old quiet there = ground arith

module _ (net : Net) (json : Json) (reader : Reader) (request : AllocateRequest) (a : Agent)
    (pod : Pod) (subnet : IpamAnnoSubnet) (pool : IpPool) (ip : Ip) (p : Progress)
    (detail : IpAllocationDetail) (owners : Owners) (old : Endpoint)
    (quiet : a.cluster.answers ≡ [])
    (unseen : find_endpoint request.pod_namespace request.pod_name (reader.endpoint_cache a.cluster)
      ≡ none)
    (there : find_endpoint request.pod_namespace request.pod_name a.cluster.endpoints ≡ some old)
    (pod_read : reader.get_pod request.pod_namespace request.pod_name ≡ ok pod)
    (in_namespace : pod.meta.namespace ≡ request.pod_namespace)
    (of_name : pod.meta.name ≡ request.pod_name)
    (candidate : get_subnet_candidates net json request.default_subnet pod ≡ ok subnet)
    (taken : allocate_ip net json a.pool_map a.cluster subnet.ipv4_subnet pod ≡ (ok (pool, ip), p))
    (still_quiet : p.cluster.answers ≡ [])
    (same_endpoints : p.cluster.endpoints ≡ a.cluster.endpoints)
    (described : detail_of net subnet (pool, ip) ≡ ok detail)
    (owned : owner_refs reader pod ≡ ok owners) where
  after : Agent
  after = record { pool_map = p.pool_map; cluster = p.cluster }

  abbrev new : Endpoint
  new = generate_endpoint pod (detail ∷ []) owners

  taken_name : find_endpoint new.meta.namespace new.meta.name p.cluster.endpoints ≡ some old
  unfolding generate_endpoint
  taken_name = rw (same_endpoints, in_namespace, of_name) there

  not_seen :
      get_endpoint reader.endpoint_cache request.pod_namespace request.pod_name a.cluster
      ≡ (or_not_found none, a.cluster)
  unfolding get_endpoint
  not_seen =
      answered-quiet
        (λ c. (
          or_not_found
              (find_endpoint request.pod_namespace request.pod_name (reader.endpoint_cache c)),
          c,
        ))
        a.cluster quiet
      ∙ ap (λ found. (or_not_found found, a.cluster)) unseen

  allocate-allocate_new :
      allocate net json reader request a ≡ allocate_new net json reader request a
  unfolding allocate
  allocate-allocate_new = rw not_seen refl

  store_endpoint-taken :
      store_endpoint net reader subnet pod
        (ok (pool, ip))
        (record { pool_map = p.pool_map; cluster = p.cluster })
      ≡ (err other, after)
  unfolding store_endpoint after
  store_endpoint-taken =
      rw
        (
          store_endpoint,
          described,
          owned,
          create_endpoint-taken p.cluster new old still_quiet taken_name,
        )
        refl

  -- If the Endpoint of a pod is stored but the cache does not show it yet, and AllocateIP has a free
  -- address, Allocate takes that address too, on a server that refuses nothing: it reports an error,
  -- leaves the pools as AllocateIP has left them, and the stored Endpoints as they were. The reads
  -- of the pod, its owners and the description of the address succeed, and AllocateIP writes no
  -- Endpoint.
  pub allocate-unseen :
      (a' : Agent) × (allocate net json reader request a ≡ (err other, a'))
      × (a'.cluster.pools ≡ p.cluster.pools)
      × (a'.cluster.endpoints ≡ a.cluster.endpoints)
  unfolding after
  allocate-unseen = (
    after,
    allocate-allocate_new
        ∙ allocate_new-store_endpoint net json reader request a pod subnet pod_read candidate pool
            ip p (err other, after) taken store_endpoint-taken,
    refl,
    same_endpoints,
  )
