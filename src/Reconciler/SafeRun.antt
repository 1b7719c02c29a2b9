-- ===== src/Reconciler/SafeRun.antt =====
-- A run of Reconcile (pkg/subnet/subnet_reconciler.go), whatever calls the server refuses.
use virtnet.Prelude.{
  ℕ, suc, ◌/◌, ◌≤◌, ◌≡◌, sym, subst, List, [], ◌∷◌, map, arith, some, Text, Error, Outcome, ok, err,
  panic, out_of_fuel, length, bind_ok,
}
use virtnet.Ip.{Ip, Net, ipv4}
use virtnet.Ip.Range.{parse_ip_ranges}
use virtnet.Api.{IpPool, Subnet}
use virtnet.Convert.{Json}
use virtnet.Convert.Laws.{Lawful}
use virtnet.Cluster.{
  Cluster, PoolCache, IsCurrent, Call, and_then, list_pools, get_subnet, find_subnet,
  update_subnet_status,
}
use virtnet.Cluster.Triples.{Post, Post-weaken, and_then-Post, pure-Post, Post-any}
use virtnet.Cluster.Refusals.{SamePools, get_subnet-Post, update_subnet_status-Post}
use virtnet.Reconciler.{
  Result, requeue_on_conflict, done_on_not_found, update_owner_total_ip_count, distribute,
  reconcile,
}
use virtnet.Reconciler.Gather.{
  all_unallocated, ippools_unallocated_ips, ippools_allocated_ips, ippool_needs_expansion,
}
use virtnet.Reconciler.Replicate.{replicate}
use virtnet.Reconciler.Release.{release_ippool_unallocated_ips}
use virtnet.Reconciler.Expand.{ippool_expansion}
use virtnet.Reconciler.Split.{split_unallocated_ips}
use virtnet.Reconciler.SplitLaws.{split_unallocated_ips_lem}
use virtnet.Reconciler.GrowLaws.{Picks}
use virtnet.Reconciler.Distributed.{needs-Picks}
use virtnet.Reconciler.Safe.{At, IsSafe, IsSafe-same, At-IsSafe, At-named}
use virtnet.Reconciler.SafeLoops.{release_loop-Safely, expand_loop-Safely}
use virtnet.Reconciler.SafeReplicas.{Safely, list_pools-At, replicate-Safely}
use virtnet.Inventory.{count}
use virtnet.Inventory.Fresh.{remaining-IsFresh}

module _ (json : Json) (s : Subnet) where
  abbrev pub EndsSafely : Outcome Result × Cluster → Type 0
  EndsSafely = Post (λ _. IsSafe json s) (IsSafe json s)

  pub requeue_on_conflict-Safely :
      (Q : Cluster → Type 0) (r : Outcome (Unit {0}) × Cluster) (f : Unit {0} → Call Result)
      → Post (λ _. Q) (IsSafe json s) r
      → ((c : Cluster) → Q c → EndsSafely (f tt c))
      → EndsSafely (requeue_on_conflict r f)
  requeue_on_conflict-Safely Q (ok tt, c) f h rest = rest c h
  requeue_on_conflict-Safely Q (err Error.conflict, c) f h rest = h
  requeue_on_conflict-Safely Q (err Error.not_found, c) f h rest = h
  requeue_on_conflict-Safely Q (err Error.exists, c) f h rest = h
  requeue_on_conflict-Safely Q (err Error.no_unallocated_ips, c) f h rest = h
  requeue_on_conflict-Safely Q (err Error.timeout, c) f h rest = h
  requeue_on_conflict-Safely Q (err Error.other, c) f h rest = h
  requeue_on_conflict-Safely Q (panic, c) f h rest = h
  requeue_on_conflict-Safely Q (out_of_fuel, c) f h rest = h

  pub done_on_not_found-Safely :
      {A : Type 0} (found : A → Type 0) (r : Outcome A × Cluster) (f : A → Call Result)
      → Post (λ o c. IsSafe json s c × found o) (IsSafe json s) r
      → ((o : A) (c : Cluster) → IsSafe json s c → found o → EndsSafely (f o c))
      → EndsSafely (done_on_not_found r f)
  done_on_not_found-Safely found (ok o, c) f h rest = rest o c h.0 h.1
  done_on_not_found-Safely found (err Error.conflict, c) f h rest = h
  done_on_not_found-Safely found (err Error.not_found, c) f h rest = h
  done_on_not_found-Safely found (err Error.exists, c) f h rest = h
  done_on_not_found-Safely found (err Error.no_unallocated_ips, c) f h rest = h
  done_on_not_found-Safely found (err Error.timeout, c) f h rest = h
  done_on_not_found-Safely found (err Error.other, c) f h rest = h
  done_on_not_found-Safely found (panic, c) f h rest = h
  done_on_not_found-Safely found (out_of_fuel, c) f h rest = h

  update_owner-Safely :
      (net : Net) (fuel : ℕ) (c : Cluster)
      → IsSafe json s c
      → Safely json s (update_owner_total_ip_count net fuel s c)
  unfolding update_owner_total_ip_count
  update_owner-Safely net fuel c h =
      and_then-Post (λ _. IsSafe json s) (λ _. IsSafe json s) (IsSafe json s)
        (parse_ip_ranges net fuel ipv4 s.spec.ips, c) _
        (pure-Post (λ _. IsSafe json s) (IsSafe json s) (parse_ip_ranges net fuel ipv4 s.spec.ips) c
          (λ _ _. h) h)
        (λ ips c1 h1.
          let owner : Subnet = record s { total_ip_count = some (length ips) } in
          Post-weaken (λ _. SamePools c1) (λ _. IsSafe json s) (SamePools c1) (IsSafe json s)
            (update_subnet_status owner c1) (λ _ c2. IsSafe-same json s c1 c2 h1)
            (λ c2. IsSafe-same json s c1 c2 h1) (update_subnet_status-Post owner c1))

  module _ (lawful : Lawful json) (cache : PoolCache) (current : IsCurrent cache) where
    release-Safely :
        (c : Cluster)
        → IsSafe json s c
        → Safely json s (release_ippool_unallocated_ips cache json s c)
    unfolding release_ippool_unallocated_ips
    release-Safely c h =
        and_then-Post (λ ps. At json s ps []) (λ _. IsSafe json s) (IsSafe json s)
          (list_pools cache s.meta.name c) _ (list_pools-At json s cache c current h)
          (λ ps c1 h1.
            and_then-Post (λ _. At json s ps []) (λ _. IsSafe json s) (IsSafe json s)
              (ippools_unallocated_ips json ps, c1) _
              (pure-Post (λ _. At json s ps []) (IsSafe json s) (ippools_unallocated_ips json ps) c1
                (λ _ _. h1) (ps, h1))
              (λ m c2 h2.
                release_loop-Safely json lawful s (length (all_unallocated m) / length ps) [] ps c2
                  h2))

    expansion-Safely :
        (needs ps : List IpPool) (remaining : List Text) (c : Cluster)
        → Picks needs ps
        → At json s ps remaining c
        → Safely json s (ippool_expansion json needs remaining c)
    unfolding ippool_expansion
    expansion-Safely [] ps remaining c picked h = At-IsSafe json s ps remaining c h
    expansion-Safely (p ∷ needs) ps [] c picked h = (ps, h)
    expansion-Safely (p ∷ needs) ps (ip ∷ remaining) c picked h =
        let (whole, _, _) = split_unallocated_ips_lem (ip ∷ remaining) (length needs) in
        expand_loop-Safely json lawful s []
          (split_unallocated_ips (ip ∷ remaining) (suc (length needs))) c picked
          (subst (λ (more : List Text). At json s ps more c) (sym whole) h)

    module _ (net : Net) (fuel : ℕ) (ips : List Ip)
        (listed : parse_ip_ranges net fuel ipv4 s.spec.ips ≡ ok ips)
        (once : (x : Text) → count x (map net.ip_string ips) ≤ 1) where
      distribute-Safely :
          (c : Cluster) → IsSafe json s c → EndsSafely (distribute cache net json fuel s c)
      unfolding distribute count
      distribute-Safely c h =
          and_then-Post (λ ps. At json s ps []) (λ _. IsSafe json s) (IsSafe json s)
            (list_pools cache s.meta.name c) _ (list_pools-At json s cache c current h)
            (λ ps c1 h1.
              let (remaining, run, fresh, _) =
                remaining-IsFresh net json fuel s ps h1.shelves ips (At-named json s ps [] c1 h1)
                  h1.represent (λ x. omega (arith, h1.room x)) listed once in
              let (m, free, run1) = bind_ok (ippools_unallocated_ips json ps) _ remaining run in
              let (n, taken, left) = bind_ok (ippools_allocated_ips json ps) _ remaining run1 in
              rw (free, taken, left)
                (requeue_on_conflict-Safely (IsSafe json s)
                  (ippool_expansion json (ippool_needs_expansion ps m remaining) remaining c1) _
                  (expansion-Safely (ippool_needs_expansion ps m remaining) ps remaining c1
                    (needs-Picks ps m remaining)
                    (record {
                      listed = h1.listed;
                      named = h1.named;
                      shelves = h1.shelves;
                      represent = h1.represent;
                      room = fresh;
                    }))
                  (λ c2 h2. h2)))

      after_subnet :
          (c : Cluster)
          → IsSafe json s c
          → EndsSafely (
              requeue_on_conflict (update_owner_total_ip_count net fuel s c) λ _ c2.
                and_then (replicate cache s c2) λ _ c3.
                  requeue_on_conflict
                    (release_ippool_unallocated_ips cache json s c3)
                    λ _. distribute cache net json fuel s)
      after_subnet c h =
          requeue_on_conflict-Safely (IsSafe json s) (update_owner_total_ip_count net fuel s c) _
            (update_owner-Safely net fuel c h)
            (λ c2 h2.
              and_then-Post (λ _. IsSafe json s) (λ _. IsSafe json s) (IsSafe json s)
                (replicate cache s c2) _ (replicate-Safely json s cache c2 current h2)
                (λ _ c3 h3.
                  requeue_on_conflict-Safely (IsSafe json s)
                    (release_ippool_unallocated_ips cache json s c3) _ (release-Safely c3 h3)
                    distribute-Safely))

      -- A run of Reconcile for a stored Subnet that lists each address once keeps the pools of the
      -- Subnet safe, whatever calls the server refuses and however the run ends, with a cache that
      -- shows every write: while all stored
      -- pools have different names, also from those that the server will give, and no address is in
      -- two pools of the Subnet, so it stays.
      pub reconcile-IsSafe :
          (name : Text) (c : Cluster)
          → find_subnet name c.subnets ≡ some s
          → IsSafe json s c
          → IsSafe json s (reconcile cache net json fuel name c).1
      unfolding reconcile
      reconcile-IsSafe name c found h =
          Post-any (IsSafe json s) (reconcile cache net json fuel name c) (
            done_on_not_found-Safely (λ o. o ≡ s) (get_subnet name c) _
              (Post-weaken (λ o c1. SamePools c c1 × (find_subnet name c.subnets ≡ some o))
                (λ o c1. IsSafe json s c1 × (o ≡ s)) (SamePools c) (IsSafe json s)
                (get_subnet name c) (λ o c1 (same, e). (IsSafe-same json s c c1 h same, cc))
                (λ c1. IsSafe-same json s c c1 h) (get_subnet-Post name c))
              (λ o c1 h1 e.
                subst
                  (λ (owner : Subnet). EndsSafely (
                    requeue_on_conflict (update_owner_total_ip_count net fuel owner c1) λ _ c2.
                      and_then (replicate cache owner c2) λ _ c3.
                        requeue_on_conflict (release_ippool_unallocated_ips cache json owner c3)
                          λ _. distribute cache net json fuel owner))
                  (sym e) (after_subnet c1 h1)))
