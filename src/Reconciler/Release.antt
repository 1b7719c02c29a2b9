-- ===== src/Reconciler/Release.antt =====
-- pkg/subnet/subnet_reconciler.go, releaseIPPoolUnallocatedIPs: pools with more free addresses than
-- the average give up the rest.
use virtnet.Prelude.{
  ℕ, zero, suc, ◌+◌, ◌/◌, Bool, true, false, List, [], ◌∷◌, ◌++◌, Option, none, some, if◌then◌else◌,
  ltb, leb, Text, length, take, Outcome, ok, err, panic,
}
use virtnet.Prelude
use virtnet.Api.{IpPool, Subnet}
use virtnet.Convert.{
  Json, unmarshal_unallocated_ips, unmarshal_allocated_ips, marshal_unallocated_ips, entries,
  count_or_zero,
}
use virtnet.Cluster.{PoolCache, Call, pure, ◌>>=◌, ◌>>◌, list_pools, update_pool_status}
use virtnet.Retry.{retry_on_conflict, default_steps}
use virtnet.Reconciler.Gather.{ippools_unallocated_ips, all_unallocated}

-- `ips[:avg]`: beyond the capacity Go panics; the capacity is taken to be the length.
unfoldable pub slice_to : ℕ → List Text → Outcome (List Text)
slice_to n ips = if leb n (length ips) then ok (take n ips) else panic

-- The pool cut down to `avg` free addresses.
unfoldable pub trim : Json → ℕ → IpPool → Outcome IpPool
unfolding unmarshal_unallocated_ips unmarshal_allocated_ips marshal_unallocated_ips slice_to
trim json avg p = Prelude.◌>>=◌ (unmarshal_unallocated_ips json p.status.unallocated_ips) λ ips.
    Prelude.◌>>=◌ (slice_to avg ips) λ new_ips.
      Prelude.◌>>=◌ (marshal_unallocated_ips json new_ips) λ raw.
        Prelude.◌>>=◌ (unmarshal_allocated_ips json p.status.allocated_ips) λ allocated.
          ok (record p {
            status = record p.status {
              unallocated_ips = raw;
              unallocated_ip_count = some (length new_ips);
              total_ip_count = some (length (entries allocated) + length new_ips);
            };
          })

-- The loop over the pools.
unfoldable pub release_loop : Json → ℕ → List IpPool → Call (Unit {0})
unfolding trim update_pool_status retry_on_conflict
release_loop json avg [] = pure (ok tt)
release_loop json avg (p ∷ ps) =
    let rest = release_loop json avg ps in
    if ltb avg (count_or_zero p.status.unallocated_ip_count)
    then (do
      p' ← pure (trim json avg p)
      retry_on_conflict default_steps (update_pool_status p')
      rest)
    else rest

-- releaseIPPoolUnallocatedIPs
unfoldable pub release_ippool_unallocated_ips : PoolCache → Json → Subnet → Call (Unit {0})
unfolding list_pools ippools_unallocated_ips all_unallocated release_loop
release_ippool_unallocated_ips cache json owner = do
  ps ← list_pools cache owner.meta.name
  unallocation ← pure (ippools_unallocated_ips json ps)
  release_loop json (length (all_unallocated unallocation) / length ps) ps
