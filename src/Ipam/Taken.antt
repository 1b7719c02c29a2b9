-- ===== src/Ipam/Taken.antt =====
-- Allocate of pkg/ipam/ipam.go for a pod without an Endpoint, when AllocateIP has an address.
use virtnet.Prelude.{◌≡◌, refl, ap, ◌∙◌, List, Outcome, ok}
use virtnet.Ip.{Ip, Net}
use virtnet.Api.{IpPool, Pod, IpamAnnoSubnet}
use virtnet.Convert.{Json}
use virtnet.Pool.Allocate.{Progress, allocate_ip}
use virtnet.Ipam.{
  Reader, AllocateRequest, Agent, IpConfig, get_subnet_candidates, store_endpoint, allocate_new,
}

module _ (net : Net) (json : Json) (reader : Reader) (request : AllocateRequest) (a : Agent)
    (pod : Pod) (subnet : IpamAnnoSubnet)
    (pod_read : reader.get_pod request.pod_namespace request.pod_name ≡ ok pod)
    (candidate : get_subnet_candidates net json request.default_subnet pod ≡ ok subnet) where
  abbrev store : Outcome (IpPool × Ip) × Progress → Outcome (List IpConfig) × Agent
  store (r, p) =
      store_endpoint net reader subnet pod r (record { pool_map = p.pool_map; cluster = p.cluster })

  allocate_new-by_ip :
      allocate_new net json reader request a
      ≡ store (allocate_ip net json a.pool_map a.cluster subnet.ipv4_subnet pod)
  unfolding allocate_new
  allocate_new-by_ip = rw (allocate_new, pod_read, candidate) refl

  -- What becomes of the address is what becomes of the request.
  pub allocate_new-store_endpoint :
      (pool : IpPool) (ip : Ip) (p : Progress) (r : Outcome (List IpConfig) × Agent)
      → allocate_ip net json a.pool_map a.cluster subnet.ipv4_subnet pod ≡ (ok (pool, ip), p)
      → store_endpoint net reader subnet pod
          (ok (pool, ip))
          (record { pool_map = p.pool_map; cluster = p.cluster })
        ≡ r
      → allocate_new net json reader request a ≡ r
  allocate_new-store_endpoint pool ip p r taken stored =
      allocate_new-by_ip ∙ ap store taken ∙ stored
