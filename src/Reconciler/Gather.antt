-- ===== src/Reconciler/Gather.antt =====
-- pkg/subnet/subnet_reconciler.go: what the pools of a Subnet hold, what is still to be handed out,
-- and which pools are to get it.
use virtnet.Prelude.{
  ℕ, ◌+◌, ◌/◌, Bool, true, false, List, [], ◌∷◌, ◌++◌, if◌then◌else◌, ltb, ◌&&◌, Text, contains,
  insert, keys, length, Outcome, ok, ◌>>=◌,
}
use virtnet.Ip.{Ip, Net, ipv4}
use virtnet.Ip.Range.{parse_ip_ranges}
use virtnet.Api.{IpPool, Subnet, PoolIpUnallocation, PoolIpAllocations}
use virtnet.Convert.{
  Json, unmarshal_unallocated_ips, unmarshal_allocated_ips, entries, count_or_zero,
}

unfoldable pub unallocated_into :
    Json
    → List (Text × PoolIpUnallocation)
    → List IpPool
    → Outcome (List (Text × PoolIpUnallocation))
unfolding unmarshal_unallocated_ips insert
unallocated_into json m [] = ok m
unallocated_into json m (p ∷ ps) = do
  result ← unmarshal_unallocated_ips json p.status.unallocated_ips
  unallocated_into json (insert p.meta.name result m) ps

-- ippoolsUnallocatedIPs
unfoldable pub ippools_unallocated_ips :
    Json → List IpPool → Outcome (List (Text × PoolIpUnallocation))
unfolding unallocated_into
ippools_unallocated_ips json ps = unallocated_into json [] ps

unfoldable pub allocated_into :
    Json → List (Text × PoolIpAllocations) → List IpPool → Outcome (List (Text × PoolIpAllocations))
unfolding unmarshal_allocated_ips insert
allocated_into json m [] = ok m
allocated_into json m (p ∷ ps) = do
  result ← unmarshal_allocated_ips json p.status.allocated_ips
  allocated_into json (insert p.meta.name result m) ps

-- ippoolsAllocatedIPs
unfoldable pub ippools_allocated_ips :
    Json → List IpPool → Outcome (List (Text × PoolIpAllocations))
unfolding allocated_into
ippools_allocated_ips json ps = allocated_into json [] ps

-- All the addresses of the lists in a map, one list after the other.
unfoldable pub all_unallocated : List (Text × PoolIpUnallocation) → List Text
all_unallocated [] = []
all_unallocated ((_, ips) ∷ m) = ips ++ all_unallocated m

unfoldable pub all_allocated : List (Text × PoolIpAllocations) → List Text
all_allocated [] = []
all_allocated ((_, records) ∷ m) = keys (entries records) ++ all_allocated m

-- The strings of the addresses that are not in the index.
unfoldable pub not_in : Net → List Text → List Ip → List Text
unfolding contains
not_in net index [] = []
not_in net index (ip ∷ ips) =
    if contains (net.ip_string ip) index
    then not_in net index ips
    else net.ip_string ip ∷ not_in net index ips

-- remainingUnallocatedIPs
unfoldable pub remaining_unallocated_ips :
    Net
    → ℕ
    → Subnet
    → List (Text × PoolIpUnallocation)
    → List (Text × PoolIpAllocations)
    → Outcome (List Text)
unfolding parse_ip_ranges all_unallocated all_allocated not_in
remaining_unallocated_ips net fuel owner unallocation allocations = do
  all_ips ← parse_ip_ranges net fuel ipv4 owner.spec.ips
  ok (not_in net (all_unallocated unallocation ++ all_allocated allocations) all_ips)

-- The pools with fewer free addresses than the share.
unfoldable pub below_share : ℕ → List IpPool → List IpPool
below_share share [] = []
below_share share (p ∷ ps) =
    if ltb (count_or_zero p.status.unallocated_ip_count) share
    then p ∷ below_share share ps
    else below_share share ps

abbrev pub is_empty {ℓ} : {A : Type ℓ} → List A → Bool
is_empty [] = true
is_empty (x ∷ xs) = false

-- ippoolNeedsExpansion: the share is computed inside the loop, so not for an empty list of pools.
unfoldable pub ippool_needs_expansion :
    List IpPool → List (Text × PoolIpUnallocation) → List Text → List IpPool
unfolding all_unallocated below_share
ippool_needs_expansion ps unallocation remaining =
    let total = length (all_unallocated unallocation) + length remaining in
    let needs = below_share (total / length ps) ps in
    if is_empty needs && ltb 0 (length remaining) then ps else needs
