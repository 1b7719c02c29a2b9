-- ===== src/Endpoints.antt =====
-- pkg/endpoint/endpoint_reconciler.go: an Endpoint that is being deleted gives its addresses back to
-- their pools.
pub mod Freed
pub mod RoundTrip
pub mod Cleared
use virtnet.Prelude.{
  ℕ, ◌+◌, Bool, true, false, List, [], ◌∷◌, ◌++◌, Option, none, some, if◌then◌else◌, ◌==◌, Text,
  bytes, text_eq, lookup, delete, length, Error, Outcome, ok, err, panic, out_of_fuel,
}
use virtnet.Prelude
use virtnet.Ip.{Net, ipv4}
use virtnet.Ip.Cidr.{parse_ip}
use virtnet.Ip.Merge.{dedup}
use virtnet.Api.{IpPool, Endpoint, IpAllocationDetail, PoolIpAllocation}
use virtnet.Convert.{
  Json, unmarshal_allocated_ips, marshal_allocated_ips, unmarshal_unallocated_ips,
  marshal_unallocated_ips, text_or_empty, entries,
}
use virtnet.Cluster.{
  Cluster, EndpointCache, Call, and_then, pure, ◌>>=◌, ◌>>◌, get_pool, update_pool_status,
  get_endpoint, update_endpoint,
}
use virtnet.Reconciler.{Result, done, requeue, requeue_on_conflict, done_on_not_found}

-- The names in poolNameIndex.
unfoldable pub pool_names : List IpAllocationDetail → List Text
pool_names [] = []
pool_names (d ∷ ds) = text_or_empty d.ipv4_pool ∷ pool_names ds

-- A pool that is not found is skipped.
unfoldable pub keep_found : Outcome IpPool × Cluster → List IpPool → Outcome (List IpPool) × Cluster
keep_found (ok p, c) ps = (ok (ps ++ p ∷ []), c)
keep_found (err Error.not_found, c) ps = (ok ps, c)
keep_found (err e, c) ps = (err e, c)
keep_found (panic, c) ps = (panic, c)
keep_found (out_of_fuel, c) ps = (out_of_fuel, c)

unfoldable pub get_pools : List Text → List IpPool → Call (List IpPool)
unfolding get_pool keep_found
get_pools [] ps c = (ok ps, c)
get_pools (name ∷ names) ps c = and_then (keep_found (get_pool name c) ps) (get_pools names)

-- `ipNet.IP.String()` of `cniip.ParseIP(constant.IPv4, ptr.OrEmpty(ip.IPv4), true)`
unfoldable pub key_of : Net → IpAllocationDetail → Outcome Text
unfolding parse_ip
key_of net d =
    Prelude.◌>>=◌ (parse_ip net ipv4 (text_or_empty d.ipv4) true)
      λ ip_net. ok (net.ip_string ip_net.ip)

-- The loop over the addresses of the Endpoint: those allocated are released and deleted.
unfoldable pub release_loop :
    Net
    → List IpAllocationDetail
    → List (Text × PoolIpAllocation)
    → Outcome (List IpAllocationDetail × List (Text × PoolIpAllocation))
unfolding key_of lookup delete
release_loop net [] allocated = ok ([], allocated)
release_loop net (d ∷ ds) allocated = Prelude.◌>>=◌ (key_of net d) λ key.
    elim (lookup key allocated) [
      | none ↦ release_loop net ds allocated
      | some _ ↦ Prelude.◌>>=◌ (release_loop net ds (delete key allocated)) λ r. ok (d ∷ r.0, r.1)
    ]

-- The loop that appends the released addresses to the free ones.
unfoldable pub append_released : Net → List IpAllocationDetail → List Text → Outcome (List Text)
unfolding key_of
append_released net [] unallocated = ok unallocated
append_released net (d ∷ ds) unallocated =
    Prelude.◌>>=◌ (key_of net d) λ key. append_released net ds (unallocated ++ key ∷ [])

-- The new status of one pool; `none` where no allocation changes.
unfoldable pub release_from :
    Net → Json → List IpAllocationDetail → IpPool → Outcome (Option IpPool)
unfolding unmarshal_allocated_ips marshal_allocated_ips unmarshal_unallocated_ips
    marshal_unallocated_ips release_loop append_released
release_from net json details p =
    Prelude.◌>>=◌ (unmarshal_allocated_ips json p.status.allocated_ips) λ records.
      Prelude.◌>>=◌ (release_loop net details (entries records)) λ r.
        if length r.1 == length (entries records)
        then ok none
        else (Prelude.◌>>=◌ (marshal_allocated_ips json r.1) λ raw_allocated.
            Prelude.◌>>=◌ (unmarshal_unallocated_ips json p.status.unallocated_ips) λ unallocated.
              Prelude.◌>>=◌ (append_released net r.0 unallocated) λ unallocated'.
                Prelude.◌>>=◌ (marshal_unallocated_ips json unallocated') λ raw_unallocated. ok (
                  some (record p {
                    status = record p.status {
                      allocated_ips = raw_allocated;
                      unallocated_ips = raw_unallocated;
                      allocated_ip_count = some (length r.1);
                      unallocated_ip_count = some (length unallocated');
                    };
                  })))

-- The loop over the pools, with what Reconcile does behind it.
unfoldable pub release_pools :
    Net → Json → List IpAllocationDetail → Call Result → List IpPool → Call Result
unfolding release_from update_pool_status
release_pools net json details behind [] c = behind c
release_pools net json details behind (p ∷ ps) c =
    and_then (release_from net json details p, c)
      λ changed c'. elim changed [
        | none ↦ release_pools net json details behind ps c'
        | some p' ↦
            requeue_on_conflict (update_pool_status p' c')
              λ _. release_pools net json details behind ps
      ]

-- v1alpha1.IPPoolFinalizer
abbrev pub ippool_finalizer : Text
ippool_finalizer = bytes "ippools.virtnet.io"

unfoldable pub remove_text : Text → List Text → List Text
remove_text t [] = []
remove_text t (s ∷ ss) = if text_eq s t then remove_text t ss else s ∷ remove_text t ss

-- RemoveFinalizer, and the update of the Endpoint.
unfoldable pub remove_finalizer : Endpoint → Call Result
unfolding remove_text update_endpoint
remove_finalizer e c =
    requeue_on_conflict
      (update_endpoint
        (record e {
          meta = record e.meta { finalizers = remove_text ippool_finalizer e.meta.finalizers };
        })
        c)
      (λ _. pure (ok done))

-- Reconcile of an Endpoint that was read.
unfoldable pub release : Net → Json → Endpoint → Call Result
unfolding pool_names dedup get_pools release_pools remove_finalizer
release net json e c =
    if e.meta.is_deleted
    then and_then (get_pools (dedup (pool_names e.current.ips)) [] c)
        (release_pools net json e.current.ips (remove_finalizer e))
    else (ok done, c)

-- Reconcile
unfoldable pub reconcile : EndpointCache → Net → Json → Text → Text → Call Result
unfolding get_endpoint release
reconcile cache net json namespace name c =
    done_on_not_found (get_endpoint cache namespace name c) (release net json)
