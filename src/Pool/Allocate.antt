-- ===== src/Pool/Allocate.antt =====
-- pkg/ippool/ippool_client.go, AllocateIP and allocateIP: one address from the next pool that has
-- one. The pool's own mutex makes an attempt one step of this agent; a write by another process
-- shows as a conflict.
use virtnet.Prelude.{
  Bool, true, false, List, [], ◌∷◌, ◌++◌, Option, none, some, Text, insert, Error, conflict,
  no_unallocated_ips, other, Outcome, ok, err, panic, out_of_fuel, length, ◌>>=◌,
}
use virtnet.Ip.{Ip, Net}
use virtnet.Api.{IpPool, Pod, PoolIpAllocation, PoolIpAllocations, PoolIpUnallocation}
use virtnet.Convert.{
  Json, unmarshal_allocated_ips, marshal_allocated_ips, unmarshal_unallocated_ips,
  marshal_unallocated_ips,
}
use virtnet.Cluster.{Cluster, get_pool, update_pool_status}
use virtnet.Retry.{retry_on_conflict, default_steps}
use virtnet.Pool.{PoolMap, next}

-- NamespacedName.String and the pod's UID
abbrev pub allocation_of : Pod → PoolIpAllocation
allocation_of pod = record {
  namespaced_name = pod.meta.namespace ++ b'/' ∷ pod.meta.name;
  pod_uid = pod.meta.uid;
}

-- `len(ptr.OrEmpty(raw)) == 0` is stored as nil.
abbrev pub nil_if_empty : Option Text → Option Text
nil_if_empty none = none
nil_if_empty (some []) = none
nil_if_empty (some (c ∷ s)) = some (c ∷ s)

-- A write to a map, which panics at a nil map.
abbrev pub put :
    Text → PoolIpAllocation → PoolIpAllocations → Outcome (List (Text × PoolIpAllocation))
put ip a none = panic
put ip a (some m) = ok (insert ip a m)

-- `unallocatedIPs[0]` and `unallocatedIPs[1:]`, or errNoUnallocatedIPs.
abbrev pub select_ip : PoolIpUnallocation → Outcome (Text × PoolIpUnallocation)
select_ip [] = err no_unallocated_ips
select_ip (ip ∷ ips) = ok (ip, ips)

-- allocateIP on the pool that was read.
unfoldable pub allocate_from : Net → Json → IpPool → Pod → Outcome (Ip × IpPool)
unfolding unmarshal_allocated_ips marshal_allocated_ips unmarshal_unallocated_ips
    marshal_unallocated_ips insert
allocate_from net json pool pod = do
  unallocated ← unmarshal_unallocated_ips json pool.status.unallocated_ips
  (ip, rest) ← select_ip unallocated
  records ← unmarshal_allocated_ips json pool.status.allocated_ips
  allocated ← put ip (allocation_of pod) records
  raw_unallocated ← marshal_unallocated_ips json rest
  raw_allocated ← marshal_allocated_ips json allocated
  ok (
    net.parse_ip ip,
    record pool {
      status = record pool.status {
        unallocated_ips = nil_if_empty raw_unallocated;
        allocated_ips = nil_if_empty raw_allocated;
        unallocated_ip_count = some (length rest);
        allocated_ip_count = some (length allocated);
      };
    },
  )

-- What the closure of AllocateIP keeps between two rounds, and the server.
pub record Progress : Type 0 where
  pub pool_map : PoolMap
  pub no_unallocated : Bool
  pub cluster : Cluster

-- The outcome of allocateIP, and of the update that follows it.
unfoldable pub finish : Progress → Outcome (Ip × IpPool) → Outcome (IpPool × Ip) × Progress
unfolding update_pool_status
finish s (ok (ip, pool)) =
    let (r, c) = update_pool_status pool s.cluster in
    ((do _ ← r; ok (pool, ip)), record s { cluster = c })
finish s (err Error.no_unallocated_ips) = (err conflict, record s { no_unallocated = true })
finish s (err e) = (err e, s)
finish s panic = (panic, s)
finish s out_of_fuel = (out_of_fuel, s)

-- A round with the pool of that name.
unfoldable pub try_pool : Net → Json → Pod → Text → Progress → Outcome (IpPool × Ip) × Progress
unfolding get_pool allocate_from finish
try_pool net json pod name s =
    let (r, c) = get_pool name s.cluster in
    finish (record s { cluster = c }) (do pool ← r; allocate_from net json pool pod)

-- The result of `ic.next`, where it is asked for: the pool is a variable of the closure, so it is
-- nil in a round that does not ask, and locking its mutex panics.
unfoldable pub with_next :
    Net → Json → Pod → Progress → Outcome (Text × PoolMap) → Outcome (IpPool × Ip) × Progress
unfolding try_pool
with_next net json pod s (ok (name, m)) =
    try_pool net json pod name (record s { pool_map = m; no_unallocated = false })
with_next net json pod s (err e) = (err other, s)
with_next net json pod s panic = (panic, s)
with_next net json pod s out_of_fuel = (out_of_fuel, s)

-- One round of the closure.
unfoldable pub attempt : Net → Json → Text → Pod → Progress → Outcome (IpPool × Ip) × Progress
unfolding with_next next
attempt net json subnet pod s = elim s.no_unallocated [
  | true ↦ with_next net json pod s (next s.pool_map subnet)
  | false ↦ (panic, s)
]

-- AllocateIP
unfoldable pub allocate_ip :
    Net → Json → PoolMap → Cluster → Text → Pod → Outcome (IpPool × Ip) × Progress
unfolding retry_on_conflict attempt
allocate_ip net json m c subnet pod =
    retry_on_conflict default_steps (attempt net json subnet pod)
      (record { pool_map = m; no_unallocated = true; cluster = c })
