-- ===== src/Reconciler/GatherLaws.antt =====
-- Which addresses remainingUnallocatedIPs (pkg/subnet/subnet_reconciler.go) hands out.
use virtnet.Prelude.{
  ℕ, ◌≡◌, refl, not, ◌&&◌, ◌||◌, List, [], ◌∷◌, ◌++◌, map, arith, Text, text_eq_iff, contains,
  contains-append, ok,
}
use virtnet.Ip.{Ip, Net, ipv4}
use virtnet.Ip.Range.{parse_ip_ranges}
use virtnet.Api.{Subnet, PoolIpUnallocation, PoolIpAllocations}
use virtnet.Reconciler.Gather.{not_in, all_unallocated, all_allocated, remaining_unallocated_ips}

contains-not_in :
    (net : Net) (index : List Text) (ips : List Ip) (s : Text)
    → contains s (not_in net index ips)
      ≡ (contains s (map net.ip_string ips) && not (contains s index))
unfolding contains not_in
contains-not_in net index [] s = refl
contains-not_in net index (ip ∷ ips) s =
    ground (arith, contains-not_in net index ips s, text_eq_iff (net.ip_string ip) s)

-- What remains is exactly what the ranges of the Subnet list and no pool holds, free or allocated.
-- The addresses that the Subnet excludes play no part in it.
pub contains-remaining :
    (net : Net) (fuel : ℕ) (owner : Subnet) (unallocation : List (Text × PoolIpUnallocation))
    (allocations : List (Text × PoolIpAllocations)) (ips : List Ip)
    → parse_ip_ranges net fuel ipv4 owner.spec.ips ≡ ok ips
    → (remaining : List Text) × (remaining_unallocated_ips net fuel owner unallocation allocations
        ≡ ok remaining)
      × ((s : Text)
          → contains s remaining ≡ (
              contains s (map net.ip_string ips)
              && not (
                  contains s (all_unallocated unallocation)
                  || contains s (all_allocated allocations))))
unfolding remaining_unallocated_ips
contains-remaining net fuel owner unallocation allocations ips h =
    let index : List Text = all_unallocated unallocation ++ all_allocated allocations in
    (
      not_in net index ips,
      rw h refl,
      λ s. ground (
        arith,
        contains-not_in net index ips s,
        contains-append s (all_unallocated unallocation) (all_allocated allocations),
      ),
    )
