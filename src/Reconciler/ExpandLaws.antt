-- ===== src/Reconciler/ExpandLaws.antt =====
-- ippoolExpansion (pkg/subnet/subnet_reconciler.go) on the stored pools.
use virtnet.Prelude.{
  suc, ◌≤◌, ◌≡◌, refl, ap, ◌∙◌, false, List, [], ◌∷◌, ◌++◌, arith, some, Text, text_eq, ok, length,
  All, text_eq_refl,
}
use virtnet.Api.{IpPool, IpPoolStatus, ObjectMeta, PoolIpAllocation}
use virtnet.Convert.{Json}
use virtnet.Convert.Laws.{Lawful}
use virtnet.Cluster.{Cluster, find_pool, set_status}
use virtnet.Cluster.Laws.{update_pool_status-quiet, find_pool-set_status}
use virtnet.Pool.Conservation.{Holds}
use virtnet.Reconciler.Split.{split_unallocated_ips}
use virtnet.Reconciler.SplitLaws.{joined, split_unallocated_ips_lem}
use virtnet.Reconciler.Expand.{expand_loop, ippool_expansion}
use virtnet.Reconciler.ShareLaws.{IsCounted, extend-IsCounted}

-- A pool beside what its status stands for.
pub record PoolView : Type 0 where
  pub pool : IpPool
  pub allocated : List (Text × PoolIpAllocation)
  pub unallocated : List Text

abbrev pub pools_of : List PoolView → List IpPool
pools_of [] = []
pools_of (v ∷ vs) = v.pool ∷ pools_of vs

-- No pool of the list has the name.
abbrev pub IsNew : Text → List PoolView → Type 0
IsNew name vs = All (λ v. text_eq v.pool.meta.name name ≡ false) vs

abbrev pub IsDistinct : List PoolView → Type 0
IsDistinct [] = Unit
IsDistinct (v ∷ vs) =
    All
      (λ w.
        (text_eq w.pool.meta.name v.pool.meta.name ≡ false)
        × (text_eq v.pool.meta.name w.pool.meta.name ≡ false))
      vs
    × IsDistinct vs

module _ (json : Json) where
  -- The pool is stored as it is seen.
  abbrev pub IsStored : Cluster → PoolView → Type 0
  IsStored c v =
      (find_pool v.pool.meta.name c.pools ≡ some v.pool)
      × Holds json v.pool.status v.allocated v.unallocated

  -- The stored pools have the shares behind their free addresses; those without a share are as
  -- they were.
  abbrev pub HaveShares : Cluster → List PoolView → List (List Text) → Type 0
  HaveShares c [] shares = Unit
  HaveShares c (v ∷ vs) [] = IsStored c v × HaveShares c vs []
  HaveShares c (v ∷ vs) (share ∷ shares) =
      ((p : IpPool) × (find_pool v.pool.meta.name c.pools ≡ some p)
        × IsCounted json p v.allocated (v.unallocated ++ share))
      × HaveShares c vs shares

  HaveShares-nil : (c : Cluster) (vs : List PoolView) → All (IsStored c) vs → HaveShares c vs []
  HaveShares-nil c [] h = tt
  HaveShares-nil c (v ∷ vs) (s, h) = (s, HaveShares-nil c vs h)

  module _ (lawful : Lawful json) where
    abbrev written : Cluster → Text → IpPoolStatus → Cluster
    written c name status = record c { pools = set_status name status c.pools }

    written-IsStored :
        (c : Cluster) (name : Text) (status : IpPoolStatus) (vs : List PoolView)
        → All
            (λ w. (text_eq w.pool.meta.name name ≡ false) × (text_eq name w.pool.meta.name ≡ false))
            vs
        → All (IsStored c) vs
        → All (IsStored (written c name status)) vs
    written-IsStored c name status [] new h = tt
    written-IsStored c name status (w ∷ vs) ((_, e), new) ((s, held), h) = (
      (rw (find_pool-set_status w.pool.meta.name name status c.pools, e) s, held),
      written-IsStored c name status vs new h,
    )

    IsNew-of-apart :
        (name : Text) (vs : List PoolView)
        → All
            (λ w. (text_eq w.pool.meta.name name ≡ false) × (text_eq name w.pool.meta.name ≡ false))
            vs
        → IsNew name vs
    IsNew-of-apart name [] new = tt
    IsNew-of-apart name (w ∷ vs) ((e, _), new) = (e, IsNew-of-apart name vs new)

    expand_loop-shares :
        (vs : List PoolView) (shares : List (List Text)) (c : Cluster)
        → c.answers ≡ []
        → All (IsStored c) vs
        → IsDistinct vs
        → (c' : Cluster) × (expand_loop json (pools_of vs) shares c ≡ (ok tt, c'))
          × HaveShares c' vs shares
          × ((name : Text) → IsNew name vs → find_pool name c'.pools ≡ find_pool name c.pools)
    unfolding expand_loop
    expand_loop-shares [] shares c quiet h d = (c, refl, tt, λ name n. refl)
    expand_loop-shares (v ∷ vs) [] c quiet h d =
        (c, refl, HaveShares-nil c (v ∷ vs) h, λ name n. refl)
    expand_loop-shares (v ∷ vs) (share ∷ shares) c quiet ((stored, holds), h) (new, d) =
        let (p', run, counted, meta) =
          extend-IsCounted json lawful v.pool v.allocated v.unallocated holds share in
        let name : Text = v.pool.meta.name in
        let c1 : Cluster = written c name p'.status in
        let (c', rest, shared, untouched) =
          expand_loop-shares vs shares c1 quiet (written-IsStored c name p'.status vs new h) d in
        let meta_name : p'.meta.name ≡ name = ap (λ (o : ObjectMeta). o.name) meta in
        (
          c',
          rw (run, update_pool_status-quiet c name v.pool stored p' meta_name quiet) rest,
          (
            (
              record v.pool { status = p'.status },
              untouched name (IsNew-of-apart name vs new)
                  ∙ rw (find_pool-set_status name name p'.status c.pools, text_eq_refl name, stored)
                      refl,
              record {
                holds = counted.holds;
                unallocated_count = counted.unallocated_count;
                total_count = counted.total_count;
              },
            ),
            shared,
          ),
          λ other_name n.
              untouched other_name n.1
              ∙ rw (find_pool-set_status other_name name p'.status c.pools, n.0) refl,
        )

    length-pools_of : (vs : List PoolView) → length (pools_of vs) ≡ length vs
    length-pools_of [] = refl
    length-pools_of (v ∷ vs) = ap suc (length-pools_of vs)

    -- With pools to extend and a server that refuses nothing, ippoolExpansion succeeds, and the
    -- addresses that remain are split into shares, of which each pool gets one at most, behind its
    -- free addresses; the other pools stay as they were.
    pub ippool_expansion-shares :
        (v : PoolView) (vs : List PoolView) (remaining : List Text) (c : Cluster)
        → c.answers ≡ []
        → All (IsStored c) (v ∷ vs)
        → IsDistinct (v ∷ vs)
        → (c' : Cluster) × (shares : List (List Text)) × (ippool_expansion json
              (pools_of (v ∷ vs))
              remaining
              c
            ≡ (ok tt, c'))
          × (joined shares ≡ remaining)
          × (length shares ≤ length (v ∷ vs))
          × HaveShares c' (v ∷ vs) shares
          × ((name : Text) → IsNew name (v ∷ vs) → find_pool name c'.pools ≡ find_pool name c.pools)
    unfolding ippool_expansion joined
    ippool_expansion-shares v vs [] c quiet h d =
        (c, [], refl, refl, omega arith, HaveShares-nil c (v ∷ vs) h, λ name n. refl)
    ippool_expansion-shares v vs (ip ∷ remaining) c quiet h d =
        let (whole, few, _) = split_unallocated_ips_lem (ip ∷ remaining) (length (pools_of vs)) in
        let (c', run, shared, untouched) =
          expand_loop-shares (v ∷ vs)
            (split_unallocated_ips (ip ∷ remaining) (suc (length (pools_of vs)))) c quiet h d in
        (
          c',
          split_unallocated_ips (ip ∷ remaining) (suc (length (pools_of vs))),
          run,
          whole,
          omega (arith, few, length-pools_of vs),
          shared,
          untouched,
        )
