-- ===== src/Pool/Conservation.antt =====
-- What allocateIP (pkg/ippool/ippool_client.go) does to the addresses of a pool.
use virtnet.Prelude.{
  ℕ, ◌+◌, ◌≡◌, refl, ◌∙◌, List, [], ◌∷◌, ◌++◌, Option, none, some, Text, lookup, insert_absent, ok,
  err, panic, no_unallocated_ips, length, length-append,
}
use virtnet.Ip.{Net}
use virtnet.Api.{IpPool, IpPoolStatus, Pod, PoolIpAllocation}
use virtnet.Convert.{Json, unmarshal_allocated_ips, unmarshal_unallocated_ips}
use virtnet.Convert.Laws.{
  Lawful, unmarshal-marshal_allocated_ips, unmarshal-marshal_unallocated_ips,
}
use virtnet.Pool.Allocate.{allocation_of, nil_if_empty, allocate_from}

-- The status of a pool stands for these allocations and these free addresses.
pub record Holds (json : Json) (status : IpPoolStatus) (allocated : List (Text × PoolIpAllocation))
    (unallocated : List Text) : Type 0 where
  pub reads_allocated : unmarshal_allocated_ips json status.allocated_ips ≡ ok (some allocated)
  pub reads_unallocated : unmarshal_unallocated_ips json status.unallocated_ips ≡ ok unallocated

-- The counts in the status are those of the two lists.
pub record Counts (status : IpPoolStatus) (allocated unallocated : ℕ) : Type 0 where
  pub allocated_count : status.allocated_ip_count ≡ some allocated
  pub unallocated_count : status.unallocated_ip_count ≡ some unallocated

unmarshal_allocated-nil_if_empty :
    (json : Json) (text : Option Text)
    → unmarshal_allocated_ips json (nil_if_empty text) ≡ unmarshal_allocated_ips json text
unfolding unmarshal_allocated_ips
unmarshal_allocated-nil_if_empty json none = refl
unmarshal_allocated-nil_if_empty json (some []) = refl
unmarshal_allocated-nil_if_empty json (some (c ∷ s)) = refl

unmarshal_unallocated-nil_if_empty :
    (json : Json) (text : Option Text)
    → unmarshal_unallocated_ips json (nil_if_empty text) ≡ unmarshal_unallocated_ips json text
unfolding unmarshal_unallocated_ips
unmarshal_unallocated-nil_if_empty json none = refl
unmarshal_unallocated-nil_if_empty json (some []) = refl
unmarshal_unallocated-nil_if_empty json (some (c ∷ s)) = refl

module _ (net : Net) (json : Json) (pool : IpPool) (pod : Pod) where
  -- A pool with no free address is reported as such, whatever it has allocated.
  pub allocate_from-empty :
      (allocated : List (Text × PoolIpAllocation))
      → Holds json pool.status allocated []
      → allocate_from net json pool pod ≡ err no_unallocated_ips
  unfolding allocate_from
  allocate_from-empty allocated h = rw (h.reads_unallocated) refl

  -- A status whose allocations are the JSON text `null` makes allocateIP panic.
  allocate_from-null :
      (ip : Text) (rest : List Text)
      → unmarshal_unallocated_ips json pool.status.unallocated_ips ≡ ok (ip ∷ rest)
      → unmarshal_allocated_ips json pool.status.allocated_ips ≡ ok none
      → allocate_from net json pool pod ≡ panic
  unfolding allocate_from
  allocate_from-null ip rest h k = rw (h, k) refl

module _ (net : Net) (json : Json) (lawful : Lawful json) (pool : IpPool) (pod : Pod) where
  -- From a pool with a free address, allocateIP takes the first one: it is recorded for the pod and
  -- no longer free, the other records and free addresses stay, and the counts are right.
  pub allocate_from-Holds :
      (allocated : List (Text × PoolIpAllocation)) (ip : Text) (rest : List Text)
      → Holds json pool.status allocated (ip ∷ rest)
      → lookup ip allocated ≡ none
      → (pool' : IpPool) × (allocate_from net json pool pod ≡ ok (net.parse_ip ip, pool'))
        × Holds json pool'.status (allocated ++ (ip, allocation_of pod) ∷ []) rest
        × Counts pool'.status (length allocated + 1) (length rest)
        × (pool'.meta ≡ pool.meta)
        × (pool'.spec ≡ pool.spec)
  unfolding allocate_from
  allocate_from-Holds allocated ip rest h new =
      let (raw_un, written_un, read_un) = unmarshal-marshal_unallocated_ips json lawful rest in
      let (raw_al, written_al, read_al) =
        unmarshal-marshal_allocated_ips json lawful (allocated ++ (ip, allocation_of pod) ∷ []) in
      (
        record pool {
          status = record pool.status {
            unallocated_ips = nil_if_empty raw_un;
            allocated_ips = nil_if_empty raw_al;
            unallocated_ip_count = some (length rest);
            allocated_ip_count = some (length allocated + 1);
          };
        },
        rw
            (
              h.reads_unallocated,
              h.reads_allocated,
              insert_absent ip (allocation_of pod) allocated new,
              written_un,
              written_al,
              length-append allocated ((ip, allocation_of pod) ∷ []),
            )
            refl,
        record {
          reads_allocated = unmarshal_allocated-nil_if_empty json raw_al ∙ read_al;
          reads_unallocated = unmarshal_unallocated-nil_if_empty json raw_un ∙ read_un;
        },
        record { allocated_count = refl; unallocated_count = refl },
        refl,
        refl,
      )
