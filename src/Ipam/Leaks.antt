-- ===== src/Ipam/Leaks.antt =====
-- A request for an address of which the last step fails (pkg/ipam/ipam.go, Allocate).
use virtnet.Prelude.{◌≡◌, refl, List, [], ◌∷◌, arith, Option, some, Error, other, ok, err}
use virtnet.Ip.{Ip, Net}
use virtnet.Api.{IpPool, IpAllocationDetail, Endpoint, Pod, IpamAnnoSubnet}
use virtnet.Convert.{Json}
use virtnet.Cluster.{Cluster, answered, create_endpoint}
use virtnet.Pool.Allocate.{Progress, allocate_ip}
use virtnet.Ipam.Taken.{allocate_new-store_endpoint}
use virtnet.Ipam.{
  Reader, Owners, AllocateRequest, Agent, owner_refs, generate_endpoint, get_subnet_candidates,
  detail_of, store_endpoint, allocate_new,
}

create_endpoint-refused :
    (c : Cluster) (x : Endpoint) (e : Error) (rest : List (Option Error))
    → c.answers ≡ some e ∷ rest
    → create_endpoint x c ≡ (err e, record c { answers = rest })
unfolding create_endpoint answered
create_endpoint-refused c x e rest h = ground arith

module _ (net : Net) (json : Json) (reader : Reader) (request : AllocateRequest) (a : Agent)
    (pod : Pod) (subnet : IpamAnnoSubnet) (pool : IpPool) (ip : Ip) (p : Progress)
    (detail : IpAllocationDetail) (owners : Owners) (e : Error) (rest : List (Option Error))
    (pod_read : reader.get_pod request.pod_namespace request.pod_name ≡ ok pod)
    (candidate : get_subnet_candidates net json request.default_subnet pod ≡ ok subnet)
    (taken : allocate_ip net json a.pool_map a.cluster subnet.ipv4_subnet pod ≡ (ok (pool, ip), p))
    (described : detail_of net subnet (pool, ip) ≡ ok detail)
    (owned : owner_refs reader pod ≡ ok owners) (refused : p.cluster.answers ≡ some e ∷ rest) where
  after_refusal : Agent
  after_refusal = record { pool_map = p.pool_map; cluster = record p.cluster { answers = rest } }

  store_endpoint-refused :
      store_endpoint net reader subnet pod
        (ok (pool, ip))
        (record { pool_map = p.pool_map; cluster = p.cluster })
      ≡ (err other, after_refusal)
  unfolding store_endpoint after_refusal
  store_endpoint-refused =
      rw
        (
          store_endpoint,
          described,
          owned,
          create_endpoint-refused p.cluster (generate_endpoint pod (detail ∷ []) owners) e rest
              refused,
        )
        refl

  -- When an address has been taken and the server then refuses the Endpoint, Allocate reports an
  -- error and leaves the pools as they are with the address taken, while no Endpoint is added that
  -- would give it back.
  pub allocate_new-refused :
      (a' : Agent) × (allocate_new net json reader request a ≡ (err other, a'))
      × (a'.cluster.pools ≡ p.cluster.pools)
      × (a'.cluster.endpoints ≡ p.cluster.endpoints)
  unfolding after_refusal
  allocate_new-refused = (
    after_refusal,
    allocate_new-store_endpoint net json reader request a pod subnet pod_read candidate pool ip p
        (err other, after_refusal) taken store_endpoint-refused,
    refl,
    refl,
  )
