-- ===== src/System/Releases.antt =====
-- The loop over the pools of an Endpoint (pkg/endpoint/endpoint_reconciler.go), whatever calls the
-- server refuses.
use virtnet.Prelude.{
  ◌≡◌, ◌==◌, refl, sym, ap, ◌∙◌, subst, inl, inr, false, List, [], ◌∷◌, ◌++◌, arith, Option, none,
  some, Text, text_eq, length, All, Outcome, ok, err, panic, out_of_fuel, bind_ok, Bool-cases,
}
use virtnet.Ip.{Net}
use virtnet.Api.{IpPool, IpPoolStatus, ObjectMeta, IpAllocationDetail, Subnet}
use virtnet.Convert.{
  Json, unmarshal_allocated_ips, unmarshal_unallocated_ips, marshal_allocated_ips,
  marshal_unallocated_ips, entries,
}
use virtnet.Convert.Laws.{Lawful}
use virtnet.Cluster.{Cluster, Call, and_then, find_pool, set_status, update_pool_status}
use virtnet.Cluster.Laws.{find_pool-other}
use virtnet.Cluster.Owned.{AreNamed}
use virtnet.Cluster.Triples.{Post-both, Post-weaken}
use virtnet.Cluster.Refusals.{SamePools, HasPools, update_pool_status-Post}
use virtnet.Reconciler.{Result, requeue_on_conflict}
use virtnet.Endpoints.{release_loop, append_released, release_from, release_pools}
use virtnet.Endpoints.Freed.{free, release_from_lem}
use virtnet.Reconciler.Safe.{IsSafe, Moves}
use virtnet.Reconciler.SafeRun.{EndsSafely, requeue_on_conflict-Safely}
use virtnet.System.Found.{update_found-Safely}
use virtnet.Inventory.{shelf}
use virtnet.Inventory.Unique.{count-append, count-free}
use virtnet.Inventory.Refines.{Represents, release_loop-Reads}

abbrev meta_or : ObjectMeta → Outcome (Option IpPool) → ObjectMeta
meta_or m (ok (some q)) = q.meta
meta_or m _ = m

module _ (net : Net) (json : Json) where
  release_from-meta :
      (ds : List IpAllocationDetail) (p q : IpPool)
      → release_from net json ds p ≡ ok (some q)
      → q.meta ≡ p.meta
  unfolding release_from
  release_from-meta ds p q h =
      let (records, _, h1) =
        bind_ok (unmarshal_allocated_ips json p.status.allocated_ips) _ (some q) h in
      let (r, _, h2) = bind_ok (release_loop net ds (entries records)) _ (some q) h1 in
      elim (Bool-cases (length r.1 == length (entries records))) [
        | inl same ↦ let bad = rw same at h2 in absurd cc
        | inr fewer ↦
            let (raw_al, _, h3) =
              bind_ok (marshal_allocated_ips json r.1) _ (some q) (rw fewer at h2) in
            let (un, _, h4) =
              bind_ok (unmarshal_unallocated_ips json p.status.unallocated_ips) _ (some q) h3 in
            let (un', _, h5) = bind_ok (append_released net r.0 un) _ (some q) h4 in
            let (raw_un, _, h6) = bind_ok (marshal_unallocated_ips json un') _ (some q) h5 in
            sym (ap (meta_or p.meta) h6)
      ]

  release_from-Moves :
      (lawful : Lawful json) (s : Subnet) (ds : List IpAllocationDetail) (p q : IpPool)
      → release_from net json ds p ≡ ok (some q)
      → Moves json s p q [] []
  unfolding release_from
  release_from-Moves lawful s ds p q h t r room =
      let (records, e, behind) =
        bind_ok (unmarshal_allocated_ips json p.status.allocated_ips) _ (some q) h in
      let same : records ≡ some t.used = let reads = r.reads_allocated in cc in
      let (looped, run, _) = bind_ok (release_loop net ds (entries records)) _ (some q) behind in
      let (ks, reads) = release_loop-Reads net ds (entries records) looped.1 looped.0 run in
      elim (release_from_lem net json lawful p t.used t.unused r ds ks reads) [
        | inl (_, nothing) ↦ absurd cc
        | inr (p', run', holds, _, meta) ↦
            let found : p' ≡ q = cc in
            (
              shelf (free ks t.used).1 (t.unused ++ (free ks t.used).0),
              subst
                  (λ (o : IpPool).
                    Represents json o (shelf (free ks t.used).1 (t.unused ++ (free ks t.used).0)))
                  found holds,
              subst (λ (o : IpPool). o.meta ≡ p.meta) found meta,
              λ x.
                  omega (arith, count-append x t.unused (free ks t.used).0, count-free x ks t.used),
            )
      ]

-- The pool is stored as it was read.
abbrev pub IsFound : Cluster → IpPool → Type 0
IsFound c p = find_pool p.meta.name c.pools ≡ some p

still-IsFound :
    (name : Text) (status : IpPoolStatus) (c c1 : Cluster) (ps : List IpPool)
    → c1.pools ≡ set_status name status c.pools
    → All (λ (q : IpPool). text_eq name q.meta.name ≡ false) ps
    → All (IsFound c) ps
    → All (IsFound c1) ps
still-IsFound name status c c1 [] e new h = tt
still-IsFound name status c c1 (p ∷ ps) e (d, new) (f, h) = (
  find_pool-other p.meta.name name status c.pools c1.pools e d ∙ f,
  still-IsFound name status c c1 ps e new h,
)

module _ (net : Net) (json : Json) (lawful : Lawful json) (s : Subnet) where
  -- The pools that were read, while the pools of the Subnet are safe.
  abbrev pub HaveRead : List IpPool → Cluster → Type 0
  HaveRead ps c = IsSafe json s c × All (IsFound c) ps × AreNamed ps

  pub release_pools-Safely :
      (ds : List IpAllocationDetail) (behind : Call Result)
      → ((c : Cluster) → IsSafe json s c → EndsSafely json s (behind c))
      → (ps : List IpPool) (c : Cluster) → HaveRead ps c
      → EndsSafely json s (release_pools net json ds behind ps c)
  unfolding release_pools
  release_pools-Safely ds behind safe [] c (h, _, _) = safe c h
  release_pools-Safely ds behind safe (p ∷ ps) c (h, (f, found), (new, named)) =
      by_change (release_from net json ds p) refl (release_pools-Safely ds behind safe ps)
    where
      by_change :
          (r : Outcome (Option IpPool))
          → release_from net json ds p ≡ r
          → ((c1 : Cluster)
              → HaveRead ps c1
              → EndsSafely json s (release_pools net json ds behind ps c1))
          → EndsSafely json s (
              and_then
                (r, c)
                (λ changed c'. elim changed as (λ _. Outcome Result × Cluster) [
                  | none ↦ release_pools net json ds behind ps c'
                  | some p' ↦
                      requeue_on_conflict
                        (update_pool_status p' c')
                        λ _. release_pools net json ds behind ps
                ]))
      by_change (ok none) run rest = rest c (h, found, named)
      by_change (ok (some q)) run rest =
          let same : q.meta ≡ p.meta = release_from-meta net json ds p q run in
          let name : q.meta.name ≡ p.meta.name = ap (λ (o : ObjectMeta). o.name) same in
          requeue_on_conflict-Safely json s (HaveRead ps) (update_pool_status q c) _
            (Post-weaken
              (λ _ c1. IsSafe json s c1 × HasPools c (set_status q.meta.name q.status c.pools) c1)
              (λ _. HaveRead ps) (λ c1. IsSafe json s c1 × SamePools c c1) (IsSafe json s)
              (update_pool_status q c)
              (λ _ c1 (h1, (pools, _)). (
                h1,
                still-IsFound p.meta.name q.status c c1 ps
                    (pools ∙ ap (λ (n : Text). set_status n q.status c.pools) name) new found,
                named,
              ))
              (λ c1 (h1, _). h1)
              (Post-both (λ _. IsSafe json s)
                (λ _. HasPools c (set_status q.meta.name q.status c.pools)) (IsSafe json s)
                (SamePools c) (update_pool_status q c)
                (update_found-Safely json s p.meta.name p q c h f same
                  (release_from-Moves net json lawful s ds p q run))
                (update_pool_status-Post q c)))
            rest
      by_change (err e) run rest = h
      by_change panic run rest = h
      by_change out_of_fuel run rest = h
