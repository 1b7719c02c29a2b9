-- ===== src/Tests/Subnets.antt =====
-- The theorems on a Subnet's pools and on the release of an Endpoint's addresses at concrete inputs.
use virtnet.Prelude.{
  ◌+◌, ◌-◌, ◌/◌, ◌≤◌, ◌≡◌, refl, ◌⊎◌, not, ◌&&◌, ◌||◌, List, [], ◌∷◌, ◌++◌, map, none, some, ok,
  bytes, Text, length, contains, text_eq, All,
}
use virtnet.Ip.{ipv4}
use virtnet.Ip.Cidr.{parse_ip}
use virtnet.Ip.Range.{parse_ip_ranges, walk}
use virtnet.Ip.Walk.{addresses_from}
use virtnet.Api.{IpPool, Subnet, IpAllocationDetail}
use virtnet.Cluster.{Cluster, find_pool}
use virtnet.Pool.Conservation.{Holds, Counts}
use virtnet.Reconciler.Split.{split_unallocated_ips}
use virtnet.Reconciler.SplitLaws.{joined, IsPart, split_unallocated_ips_lem}
use virtnet.Reconciler.Gather.{remaining_unallocated_ips, all_unallocated, all_allocated}
use virtnet.Reconciler.GatherLaws.{contains-remaining}
use virtnet.Reconciler.Expand.{ippool_expansion}
use virtnet.Reconciler.ExpandLaws.{
  PoolView, pools_of, IsDistinct, IsNew, HaveShares, ippool_expansion-shares,
}
use virtnet.Endpoints.{key_of, release_from}
use virtnet.Endpoints.Freed.{free, release_from_lem}
use virtnet.Endpoints.RoundTrip.{release_from-allocate_from}
use virtnet.Pool.Allocate.{allocate_from}
use virtnet.Tests.{dotted, plain, plain-Lawful}
use virtnet.Tests.Pools.{
  named, records, two_ips, web_1, web_2, web_1-Holds, web_2-Holds, cluster_with, pod, eight_is_new,
}

abbrev pub web : Subnet
web = record {
  meta = named (bytes "web");
  spec = record {
    replicas = 2;
    subnet = bytes "10.0.0.0/24";
    gateway = none;
    ips = bytes "10.0.0.7-10.0.0.9" ∷ [];
    exclude_ips = bytes "10.0.0.9" ∷ [];
  };
  total_ip_count = some 3;
}

pub web_lists : parse_ip_ranges dotted 4 ipv4 web.spec.ips ≡ ok (addresses_from 0xa000007 3)
unfolding parse_ip_ranges dotted addresses_from walk
web_lists = refl

split_unallocated_ips_example :
    (joined (split_unallocated_ips two_ips 3) ≡ two_ips)
    × (length (split_unallocated_ips two_ips 3) ≤ 3)
    × All (IsPart ((length two_ips + 3 - 1) / 3)) (split_unallocated_ips two_ips 3)
split_unallocated_ips_example = split_unallocated_ips_lem two_ips 2

contains-remaining_example :
    (remaining : List Text) × (remaining_unallocated_ips dotted 4 web
        ((bytes "web-1", two_ips) ∷ [])
        ((bytes "web-1", some records) ∷ [])
      ≡ ok remaining)
    × ((s : Text)
        → contains s remaining ≡ (
            contains s (map dotted.ip_string (addresses_from 0xa000007 3))
            && not (
                contains s (all_unallocated ((bytes "web-1", two_ips) ∷ []))
                || contains s (all_allocated ((bytes "web-1", some records) ∷ [])))))
contains-remaining_example =
    contains-remaining dotted 4 web ((bytes "web-1", two_ips) ∷ [])
      ((bytes "web-1", some records) ∷ []) (addresses_from 0xa000007 3) web_lists

abbrev view_1 : PoolView
view_1 = record { pool = web_1; allocated = records; unallocated = two_ips }

abbrev view_2 : PoolView
view_2 = record { pool = web_2; allocated = records; unallocated = [] }

abbrev both : Cluster
both = cluster_with (web_1 ∷ web_2 ∷ []) []

stored_1 : find_pool (bytes "web-1") both.pools ≡ some web_1
unfolding find_pool text_eq
stored_1 = refl

stored_2 : find_pool (bytes "web-2") both.pools ≡ some web_2
unfolding find_pool text_eq
stored_2 = refl

apart : IsDistinct (view_1 ∷ view_2 ∷ [])
unfolding text_eq
apart = (((refl, refl), tt), (tt, tt))

ippool_expansion-shares_example :
    (c' : Cluster) × (shares : List (List Text)) × (ippool_expansion plain
        (pools_of (view_1 ∷ view_2 ∷ []))
        (bytes "10.0.0.12" ∷ bytes "10.0.0.13" ∷ [])
        both
      ≡ (ok tt, c'))
    × (joined shares ≡ bytes "10.0.0.12" ∷ bytes "10.0.0.13" ∷ [])
    × (length shares ≤ 2)
    × HaveShares plain c' (view_1 ∷ view_2 ∷ []) shares
    × ((name : Text)
        → IsNew name (view_1 ∷ view_2 ∷ [])
        → find_pool name c'.pools ≡ find_pool name both.pools)
ippool_expansion-shares_example =
    ippool_expansion-shares plain plain-Lawful view_1 (view_2 ∷ [])
      (bytes "10.0.0.12" ∷ bytes "10.0.0.13" ∷ []) both refl
      ((stored_1, web_1-Holds), ((stored_2, web_2-Holds), tt)) apart

abbrev pub detail : IpAllocationDetail
detail = record {
  nic = bytes "eth0";
  ipv4 = some (bytes "10.0.0.7/24");
  ipv4_pool = some (bytes "web-1");
  ipv4_gateway = none;
}

pub detail_reads : key_of dotted detail ≡ ok (bytes "10.0.0.7")
unfolding key_of dotted parse_ip
detail_reads = refl

release_from_example :
    ((free (bytes "10.0.0.7" ∷ []) records).0 ≡ [])
      × (release_from dotted plain (detail ∷ []) web_1 ≡ ok none)
    ⊎ ((p' : IpPool) × (release_from dotted plain (detail ∷ []) web_1 ≡ ok (some p'))
        × Holds plain p'.status
            (free (bytes "10.0.0.7" ∷ []) records).1
            (two_ips ++ (free (bytes "10.0.0.7" ∷ []) records).0)
        × Counts p'.status
            (length (free (bytes "10.0.0.7" ∷ []) records).1)
            (length (two_ips ++ (free (bytes "10.0.0.7" ∷ []) records).0))
        × (p'.meta ≡ web_1.meta))
release_from_example =
    release_from_lem dotted plain plain-Lawful web_1 records two_ips web_1-Holds (detail ∷ [])
      (bytes "10.0.0.7" ∷ []) (detail_reads, tt)

abbrev next_detail : IpAllocationDetail
next_detail = record detail { ipv4 = some (bytes "10.0.0.8/24") }

next_detail_reads : key_of dotted next_detail ≡ ok (bytes "10.0.0.8")
unfolding key_of dotted parse_ip
next_detail_reads = refl

release_from-allocate_from_example :
    (pool' pool'' : IpPool) × (allocate_from dotted plain web_1 pod
      ≡ ok (dotted.parse_ip (bytes "10.0.0.8"), pool'))
    × (release_from dotted plain (next_detail ∷ []) pool' ≡ ok (some pool''))
    × Holds plain pool''.status records (bytes "10.0.0.9" ∷ bytes "10.0.0.8" ∷ [])
    × Counts pool''.status 1 2
    × (pool''.meta ≡ web_1.meta)
release_from-allocate_from_example =
    release_from-allocate_from dotted plain plain-Lawful web_1 pod records (bytes "10.0.0.8")
      (bytes "10.0.0.9" ∷ []) web_1-Holds eight_is_new next_detail next_detail_reads
