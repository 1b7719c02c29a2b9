-- ===== src/Reconciler.antt =====
-- pkg/subnet/subnet_reconciler.go: the Subnet controller, with splitUnallocatedIPs of
-- pkg/subnet/utils.go. Go's maps from a pool's name are association lists.
pub mod Split
pub mod Gather
pub mod Release
pub mod Expand
pub mod Replicate
pub mod SplitLaws
pub mod GatherLaws
pub mod ShareLaws
pub mod ExpandLaws
pub mod NeedLaws
pub mod ReplicateLaws
pub mod Stands
pub mod TrimLaws
pub mod GrowLaws
pub mod Distributed
pub mod Resized
pub mod Whole
pub mod Safe
pub mod SafeLoops
pub mod SafeReplicas
pub mod SafeRun
use virtnet.Prelude.{
  ℕ, ◌≡◌, refl, Bool, true, false, List, [], ◌∷◌, some, Text, Error, Outcome, ok, err, panic,
  out_of_fuel, length,
}
use virtnet.Ip.{Net, ipv4}
use virtnet.Ip.Range.{parse_ip_ranges}
use virtnet.Api.{Subnet}
use virtnet.Convert.{Json}
use virtnet.Cluster.{
  Cluster, PoolCache, Call, and_then, pure, ◌>>=◌, ◌>>◌, get_subnet, update_subnet_status,
  list_pools,
}
use virtnet.Reconciler.Gather.{
  ippools_unallocated_ips, ippools_allocated_ips, remaining_unallocated_ips, ippool_needs_expansion,
}
use virtnet.Reconciler.Release.{release_ippool_unallocated_ips}
use virtnet.Reconciler.Expand.{ippool_expansion}
use virtnet.Reconciler.Replicate.{replicate}

-- ctrl.Result of Reconcile
pub data Result : Type 0 where
  done requeue : Result

-- A conflict asks for another run; any other failure is the result.
abbrev pub requeue_on_conflict {ℓ} :
    {A : Type ℓ} → Outcome A × Cluster → (A → Call Result) → Outcome Result × Cluster
requeue_on_conflict (ok a, c) f = f a c
requeue_on_conflict (err Error.conflict, c) f = (ok requeue, c)
requeue_on_conflict (err e, c) f = (err e, c)
requeue_on_conflict (panic, c) f = (panic, c)
requeue_on_conflict (out_of_fuel, c) f = (out_of_fuel, c)

abbrev pub done_on_not_found {ℓ} :
    {A : Type ℓ} → Outcome A × Cluster → (A → Call Result) → Outcome Result × Cluster
done_on_not_found (ok a, c) f = f a c
done_on_not_found (err Error.not_found, c) f = (ok done, c)
done_on_not_found (err e, c) f = (err e, c)
done_on_not_found (panic, c) f = (panic, c)
done_on_not_found (out_of_fuel, c) f = (out_of_fuel, c)

-- updateOwnerTotalIPCount
unfoldable pub update_owner_total_ip_count : Net → ℕ → Subnet → Call (Unit {0})
unfolding parse_ip_ranges update_subnet_status
update_owner_total_ip_count net fuel owner = do
  total_ips ← pure (parse_ip_ranges net fuel ipv4 owner.spec.ips)
  update_subnet_status (record owner { total_ip_count = some (length total_ips) })

-- The part of Reconcile behind the release of addresses.
unfoldable pub distribute : PoolCache → Net → Json → ℕ → Subnet → Call Result
unfolding list_pools ippools_unallocated_ips ippools_allocated_ips remaining_unallocated_ips
    ippool_needs_expansion ippool_expansion
distribute cache net json fuel owner = do
  ps ← list_pools cache owner.meta.name
  unallocation ← pure (ippools_unallocated_ips json ps)
  allocations ← pure (ippools_allocated_ips json ps)
  remaining ← pure (remaining_unallocated_ips net fuel owner unallocation allocations)
  let needs = ippool_needs_expansion ps unallocation remaining
  λ c. requeue_on_conflict (ippool_expansion json needs remaining c) (λ _. pure (ok done))

-- Reconcile
unfoldable pub reconcile : PoolCache → Net → Json → ℕ → Text → Call Result
unfolding get_subnet update_owner_total_ip_count replicate release_ippool_unallocated_ips distribute
reconcile cache net json fuel name c = done_on_not_found (get_subnet name c) λ owner c1.
    requeue_on_conflict (update_owner_total_ip_count net fuel owner c1) λ _ c2.
      and_then (replicate cache owner c2) λ _ c3.
        requeue_on_conflict (release_ippool_unallocated_ips cache json owner c3)
          λ _. distribute cache net json fuel owner

-- A run that needs no other run and did not fail had its write taken.
pub requeue_on_conflict-done :
    (r : Outcome (Unit {0}) × Cluster) (f : Unit {0} → Call Result) (c2 : Cluster)
    → requeue_on_conflict r f ≡ (ok done, c2)
    → (c1 : Cluster) × (r ≡ (ok tt, c1)) × (f tt c1 ≡ (ok done, c2))
requeue_on_conflict-done (ok tt, c) f c2 h = (c, refl, h)
requeue_on_conflict-done (err Error.conflict, c) f c2 h = cc
requeue_on_conflict-done (err Error.not_found, c) f c2 h = cc
requeue_on_conflict-done (err Error.exists, c) f c2 h = cc
requeue_on_conflict-done (err Error.no_unallocated_ips, c) f c2 h = cc
requeue_on_conflict-done (err Error.timeout, c) f c2 h = cc
requeue_on_conflict-done (err Error.other, c) f c2 h = cc
requeue_on_conflict-done (panic, c) f c2 h = cc
requeue_on_conflict-done (out_of_fuel, c) f c2 h = cc
