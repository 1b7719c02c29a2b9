-- ===== src/Tests/Releases.antt =====
-- The theorem on a whole release of an Endpoint at a concrete input: two pools have a record for the
-- address.
use virtnet.Prelude.{◌≡◌, refl, true, some, text_eq, List, [], ◌∷◌, ok, bytes, All, Text}
use virtnet.Ip.Merge.{dedup}
use virtnet.Api.{Endpoint}
use virtnet.Cluster.{Cluster, find_pool}
use virtnet.Reconciler.{done}
use virtnet.Endpoints.{
  ippool_finalizer, pool_names, get_pools, release, release_pools, release_from, key_of,
}
use virtnet.Endpoints.Freed.{Reads}
use virtnet.Endpoints.Cleared.{AsRead, IsApart, Cleared, release-Cleared}
use virtnet.Tests.{dotted, plain, plain-Lawful}
use virtnet.Tests.Pools.{
  named, records, two_ips, web_1, web_2, web_1-Holds, web_2-Holds, cluster_with,
}
use virtnet.Tests.Subnets.{detail, detail_reads}

abbrev gone : Endpoint
gone = record {
  meta = record (named (bytes "cart")) { finalizers = ippool_finalizer ∷ []; is_deleted = true };
  current = record {
    uid = bytes "u1";
    node = bytes "n1";
    ips = detail ∷ record detail { ipv4_pool = some (bytes "web-2") } ∷ [];
  };
  owner_controller_type = [];
  owner_controller_name = [];
}

abbrev start : Cluster
start = record (cluster_with (web_1 ∷ web_2 ∷ []) []) { endpoints = gone ∷ [] }

abbrev keys : List Text
keys = bytes "10.0.0.7" ∷ bytes "10.0.0.7" ∷ []

reads : Reads dotted gone.current.ips keys
unfolding key_of
reads = (detail_reads, (detail_reads, tt))

get_pools_run :
    get_pools (dedup (pool_names gone.current.ips)) [] start ≡ (ok (web_1 ∷ web_2 ∷ []), start)
unfolding get_pools dedup pool_names text_eq
get_pools_run = refl

stored_pools :
    All (AsRead dotted plain plain-Lawful gone.current.ips keys reads start) (web_1 ∷ web_2 ∷ [])
unfolding AsRead find_pool text_eq
stored_pools = ((records, two_ips, refl, web_1-Holds), ((records, [], refl, web_2-Holds), tt))

different_names : IsApart dotted plain plain-Lawful gone.current.ips keys reads (web_1 ∷ web_2 ∷ [])
unfolding IsApart text_eq
different_names = (((refl, refl), tt), (tt, tt))

release_run : release dotted plain gone start ≡ (ok done, (release dotted plain gone start).1)
unfolding release release_pools release_from plain dotted text_eq
release_run = refl

release-Cleared_example :
    All
      (λ p.
        Cleared dotted plain plain-Lawful gone.current.ips keys reads
          (release dotted plain gone start).1
          p.meta.name)
      (web_1 ∷ web_2 ∷ [])
release-Cleared_example =
    release-Cleared dotted plain plain-Lawful gone keys reads start start
      (release dotted plain gone start).1 (web_1 ∷ web_2 ∷ []) refl get_pools_run stored_pools
      different_names release_run
